-- ===== src/System/Rtl.antt =====
-- The rtl_tcp client of src/flex1500d.c: the bytes that it sends, read as the commands of
-- src/rtl_tcp.c, which set the frequency of the receiver or the rate of the samples sent to it.
use mathlib.Core.Option.{some, none}
use flex1500d.Base.{
  ℕ, Bool, true, List, [], ◌∷◌, not, ◌&&◌, ◌||◌, if◌then◌else◌, leb, ◌==◌, ◌≡◌, refl, ap, ◌∙◌,
  either, arith,
}
use flex1500d.Base.Ints.{ℤ}
use flex1500d.TxControl.{TxOwner, owner_eq}
use flex1500d.UsbRx.{Libusb}
use flex1500d.UsbRx.Transmit.{is_keying}
use flex1500d.Station.{Station}
use flex1500d.Daemon.{DaemonTx}
use flex1500d.RtlTcp.{RtlTcpParser, RtlTcpCommand, parse_byte}
use flex1500d.System.{api_tune_rx}
use flex1500d.System.Radio.{tune_keying, planned}
use flex1500d.Api.Effect.{Effect, nothing, radio, both}

-- FLEX1500_RTL_TCP_SET_FREQUENCY and FLEX1500_RTL_TCP_SET_SAMPLE_RATE.
abbrev pub set_frequency : ℕ
set_frequency = 1

abbrev pub set_sample_rate : ℕ
set_sample_rate = 2

-- The parser, and the rate of the client's resampler.
pub record RtlClient : Type 0 where
  pub parser : RtlTcpParser
  pub output_rate : ℕ

module _ {W : Type 0} (usb : Libusb W) (word : ℕ → ℕ) (gain_value : List ℕ → ℤ)
    (rx_tuning_enabled : Bool) where
  unfoldable pub tune_command : ℕ → Station (DaemonTx W) → Station (DaemonTx W)
  tune_command frequency_hz s =
      if not rx_tuning_enabled
      then s
      else if not (owner_eq s.tx.owner TxOwner.none)
      then s
      else if s.station.held
      then s
      else record s {
        tx = record s.tx {
          callback_context = (api_tune_rx usb word gain_value s.tx.callback_context frequency_hz).2;
        };
      }

  unfoldable pub rate_command : ℕ → ℕ → ℕ
  rate_command parameter output_rate =
      if leb 48000 parameter && leb parameter 3072000 then parameter else output_rate

  unfoldable pub run_command : RtlTcpCommand → ℕ × Station (DaemonTx W) → ℕ × Station (DaemonTx W)
  run_command command (rate, s) =
      if command.id == set_frequency
      then (rate, tune_command command.parameter s)
      else if command.id == set_sample_rate
      then (rate_command command.parameter rate, s)
      else (rate, s)

  unfoldable pub receive_byte :
      ℕ → RtlClient × Station (DaemonTx W) → RtlClient × Station (DaemonTx W)
  receive_byte byte (client, s) =
      let (command, parser) = parse_byte client.parser byte in
      elim command [
        | none ↦ (record client { parser = parser }, s)
        | some command ↦
            let (rate, s') = run_command command (client.output_rate, s) in
            (record { parser = parser; output_rate = rate }, s')
      ]

  -- The loop over the bytes received.
  unfoldable pub receive_bytes :
      List ℕ → RtlClient × Station (DaemonTx W) → RtlClient × Station (DaemonTx W)
  receive_bytes [] v = v
  receive_bytes (byte ∷ bytes) v = receive_bytes bytes (receive_byte byte v)

  -- What a client can do to the variables of the transmit side.
  abbrev Tuned : Station (DaemonTx W) → Station (DaemonTx W) → Type 0
  Tuned = Effect (λ d e. is_keying e.receiver ≡ is_keying d.receiver)

  tune_command-Effect : (f : ℕ) (s : Station (DaemonTx W)) → Tuned s (tune_command f s)
  unfolding tune_command api_tune_rx
  tune_command-Effect f s =
      either (Tuned s) (not rx_tuning_enabled) _ _ (λ e. nothing)
        (λ e.
          either (Tuned s) (not (owner_eq s.tx.owner TxOwner.none)) _ _ (λ g. nothing)
            (λ g.
              either (Tuned s) s.station.held _ _ (λ h. nothing)
                (λ h. radio _ (tune_keying usb word gain_value f s.tx.callback_context.receiver))))

  run_command-Effect :
      (command : RtlTcpCommand) (rate : ℕ) (s : Station (DaemonTx W))
      → Tuned s (run_command command (rate, s)).1
  unfolding run_command
  run_command-Effect command rate s =
      either (λ (v : ℕ × Station (DaemonTx W)). Tuned s v.1) (command.id == set_frequency) _ _
        (λ e. tune_command-Effect command.parameter s)
        (λ e.
          either (λ (v : ℕ × Station (DaemonTx W)). Tuned s v.1) (command.id == set_sample_rate) _ _
            (λ g. nothing) (λ g. nothing))

  receive_byte-Effect :
      (byte : ℕ) (client : RtlClient) (s : Station (DaemonTx W))
      → Tuned s (receive_byte byte (client, s)).1
  unfolding receive_byte
  receive_byte-Effect byte client s =
      planned (λ (v : RtlClient × Station (DaemonTx W)). Tuned s v.1)
        (parse_byte client.parser byte).0 _ _ nothing
        (λ command. run_command-Effect command client.output_rate s)

  -- The bytes of a client move the daemon's variables by tunes that keep the keying alone.
  pub receive_bytes-Effect :
      (bytes : List ℕ) (client : RtlClient) (s : Station (DaemonTx W))
      → Tuned s (receive_bytes bytes (client, s)).1
  unfolding receive_bytes
  receive_bytes-Effect [] client s = nothing
  receive_bytes-Effect (byte ∷ bytes) client s = both (receive_byte-Effect byte client s) (
      receive_bytes-Effect bytes (receive_byte byte (client, s)).0
        (receive_byte byte (client, s)).1)

  tune_command_refused :
      (f : ℕ) (s : Station (DaemonTx W))
      → (not (owner_eq s.tx.owner TxOwner.none) || s.station.held) ≡ true
      → tune_command f s ≡ s
  unfolding tune_command
  tune_command_refused f s h = ground arith

  receive_byte_refused :
      (byte : ℕ) (client : RtlClient) (s : Station (DaemonTx W))
      → (not (owner_eq s.tx.owner TxOwner.none) || s.station.held) ≡ true
      → (receive_byte byte (client, s)).1 ≡ s
  unfolding receive_byte run_command
  receive_byte_refused byte client s h =
      planned (λ (v : RtlClient × Station (DaemonTx W)). v.1 ≡ s) (parse_byte client.parser byte).0
        _ _ refl
        (λ command.
          either (λ (v : ℕ × Station (DaemonTx W)). v.1 ≡ s) (command.id == set_frequency) _ _
            (λ e. tune_command_refused command.parameter s h)
            (λ e.
              either (λ (v : ℕ × Station (DaemonTx W)). v.1 ≡ s) (command.id == set_sample_rate) _ _
                (λ g. refl) (λ g. refl)))

  -- While the transmitter has an owner or a client holds the station, no bytes of the rtl_tcp client
  -- change anything of the transmit side, the receiver's frequency included.
  pub receive_bytes_refused :
      (bytes : List ℕ) (client : RtlClient) (s : Station (DaemonTx W))
      → (not (owner_eq s.tx.owner TxOwner.none) || s.station.held) ≡ true
      → (receive_bytes bytes (client, s)).1 ≡ s
  unfolding receive_bytes
  receive_bytes_refused [] client s h = refl
  receive_bytes_refused (byte ∷ bytes) client s h =
      let e = receive_byte_refused byte client s h in
      ap (λ k. (receive_bytes bytes ((receive_byte byte (client, s)).0, k)).1) e
      ∙ receive_bytes_refused bytes (receive_byte byte (client, s)).0 s h
