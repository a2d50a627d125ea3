-- ===== src/Daemon/Permit.antt =====
-- `daemon_tx_owner_start` of src/flex1500d.c keys the radio only where the owner's frequency policy
-- allows it.
use mathlib.Core.Option.{some}
use flex1500d.Base.{ℕ, ◌≡◌, true, ◌&&◌, ◌||◌, if◌then◌else◌, Option-cases, inl, inr, arith}
use flex1500d.Base.Ints.{ℤ, is_zero}
use flex1500d.TxControl.{TxOwner}
use flex1500d.StationOwner.{StationOwner}
use flex1500d.Protocol.Bands.{tune_frequency_allowed, default_ssb_upper_sideband}
use flex1500d.UsbRx.{UsbRx, Libusb}
use flex1500d.UsbRx.Transmit.{tune_carrier_start}
use flex1500d.UsbRx.Start.{Started, tune_carrier_start_order, audio_tx_start_order}
use flex1500d.Daemon.{
  is_iq, network_mode, DaemonTx, AudioStream, TxMode, Settings, resolve_physical_tx_mode, sideband,
  is_am, mode_allowed, network_allowed,
}
use flex1500d.Daemon.Owner.{
  network_tx_start, microphone_tx_start, start_tune_owner, start_network_owner,
  start_microphone_owner, start_physical_owner, daemon_tx_owner_start,
}

-- What allows an owner to transmit, between the context before the start and the one behind it.
pub data Permitted {W : Type 0} (d d' : DaemonTx W) : TxOwner → Type 0 where
  tuning : tune_frequency_allowed d.receiver.frequency_hz ≡ true → Permitted d d' TxOwner.tune
  network :
      d.network_tx.reserved ≡ true
      → network_allowed d.network_tx d.receiver.frequency_hz ≡ true
      → Permitted d d' TxOwner.http
  microphone :
      mode_allowed d'.mode d.receiver.frequency_hz ≡ true
      → d'.drive_percent ≡ d.api.tx_drive_percent
      → Permitted d d' TxOwner.physical_mic

-- The owner is permitted, and the radio went on the air by the packets of a start.
pub record StartedFor {W : Type 0} (word : ℕ → ℕ) (d d' : DaemonTx W) (owner : TxOwner)
    : Type 0 where
  pub permitted : Permitted d d' owner
  pub offset_hz : ℕ
  pub started : Started word offset_hz d.receiver d'.receiver

-- The mode of the microphone is one that the frequency allows.
resolve_allowed :
    (api : Settings) (station : StationOwner) (f : ℕ) (mode : TxMode)
    → resolve_physical_tx_mode api station f ≡ some mode
    → mode_allowed mode f ≡ true
unfolding resolve_physical_tx_mode mode_allowed default_ssb_upper_sideband sideband
resolve_allowed api station f mode h = ground arith

module _ {W : Type 0} (usb_calls : Libusb W) (word : ℕ → ℕ) (stream : AudioStream W) where
  tune_runs :
      (d : DaemonTx W)
      → is_zero (start_tune_owner usb_calls word stream d).0 ≡ true
      → (tune_frequency_allowed d.receiver.frequency_hz ≡ true)
        × (is_zero (tune_carrier_start usb_calls word d.receiver).0 ≡ true)
        × ((start_tune_owner usb_calls word stream d).1.receiver
            ≡ (tune_carrier_start usb_calls word d.receiver).1)
  unfolding start_tune_owner
  tune_runs d h = (ground arith, ground arith, ground arith)

  tune_StartedFor :
      (d : DaemonTx W)
      → is_zero (start_tune_owner usb_calls word stream d).0 ≡ true
      → StartedFor word d (start_tune_owner usb_calls word stream d).1 TxOwner.tune
  tune_StartedFor d h =
      let (p, z, e) = tune_runs d h in
      record {
        permitted = tuning p;
        offset_hz = 600;
        started = rw e (tune_carrier_start_order usb_calls word d.receiver z);
      }

  -- The start of the stream for the network session.
  abbrev network_receiver : DaemonTx W → ℤ × UsbRx W
  network_receiver d =
      let raw_iq = is_iq d.network_tx.profile.source in
      network_tx_start usb_calls word stream (network_mode d.network_tx.profile.mode)
        d.network_tx.profile.drive_percent raw_iq
        (raw_iq && stream.should_translate d.network_prebuffer) d.network_prebuffer d.receiver

  network_runs :
      (d : DaemonTx W)
      → is_zero (start_network_owner usb_calls word stream d).0 ≡ true
      → (network_allowed d.network_tx d.receiver.frequency_hz ≡ true)
        × (is_zero (network_receiver d).0 ≡ true)
        × ((start_network_owner usb_calls word stream d).1.receiver ≡ (network_receiver d).1)
  unfolding start_network_owner
  network_runs d h = (ground arith, ground arith, ground arith)

  network_StartedFor :
      (d : DaemonTx W)
      → d.network_tx.reserved ≡ true
      → is_zero (start_network_owner usb_calls word stream d).0 ≡ true
      → StartedFor word d (start_network_owner usb_calls word stream d).1 TxOwner.http
  unfolding network_tx_start
  network_StartedFor d v h =
      let (p, z, e) = network_runs d h in
      record {
        permitted = network v p;
        offset_hz =
            if is_am (network_mode d.network_tx.profile.mode)
              || is_iq d.network_tx.profile.source && stream.should_translate d.network_prebuffer
            then 11025
            else 0;
        started = rw e (audio_tx_start_order usb_calls word _ _ _ d.receiver z);
      }

  abbrev microphone_receiver : TxMode → DaemonTx W → ℤ × UsbRx W
  microphone_receiver mode d =
      microphone_tx_start usb_calls word stream mode d.api.tx_drive_percent
        d.api.tx_microphone_gain_db d.receiver

  microphone_runs :
      (mode : TxMode) (d : DaemonTx W)
      → is_zero (start_microphone_owner usb_calls word stream mode d).0 ≡ true
      → (is_zero (microphone_receiver mode d).0 ≡ true)
        × ((start_microphone_owner usb_calls word stream mode d).1.receiver
            ≡ (microphone_receiver mode d).1)
        × ((start_microphone_owner usb_calls word stream mode d).1.mode ≡ mode)
        × ((start_microphone_owner usb_calls word stream mode d).1.drive_percent
            ≡ d.api.tx_drive_percent)
  unfolding start_microphone_owner
  microphone_runs mode d h = (ground arith, ground arith, ground arith, ground arith)

  microphone_StartedFor :
      (mode : TxMode) (d : DaemonTx W)
      → mode_allowed mode d.receiver.frequency_hz ≡ true
      → is_zero (start_microphone_owner usb_calls word stream mode d).0 ≡ true
      → StartedFor word d
          (start_microphone_owner usb_calls word stream mode d).1
          TxOwner.physical_mic
  unfolding microphone_tx_start
  microphone_StartedFor mode d p h =
      let (z, e, m, n) = microphone_runs mode d h in
      record {
        permitted = microphone (rw m p) n;
        offset_hz = if is_am mode then 11025 else 0;
        started = rw e (audio_tx_start_order usb_calls word _ _ _ d.receiver z);
      }

  -- The frequency that the context keeps for a report does not matter.
  forget_frequency :
      (d d' : DaemonTx W) (f : ℕ) (o : TxOwner)
      → Permitted (record d { frequency_hz = f }) d' o
      → Permitted d d' o
  forget_frequency d d' f o (tuning p) = tuning p
  forget_frequency d d' f o (network v p) = network v p
  forget_frequency d d' f o (microphone p n) = microphone p n

  physical_mode :
      (d : DaemonTx W)
      → is_zero (start_physical_owner usb_calls word stream d).0 ≡ true
      → (mode : TxMode) × (resolve_physical_tx_mode d.api d.station d.receiver.frequency_hz
          ≡ some mode)
        × (start_physical_owner usb_calls word stream d
            ≡ start_microphone_owner usb_calls word stream mode
                (record d { frequency_hz = d.receiver.frequency_hz }))
  unfolding start_physical_owner
  physical_mode d h =
      elim (Option-cases (resolve_physical_tx_mode d.api d.station d.receiver.frequency_hz)) [
        | inl m ↦ absurd (ground arith)
        | inr (mode, m) ↦ (mode, m, ground arith)
      ]

  physical_StartedFor :
      (d : DaemonTx W)
      → is_zero (start_physical_owner usb_calls word stream d).0 ≡ true
      → StartedFor word d (start_physical_owner usb_calls word stream d).1 TxOwner.physical_mic
  physical_StartedFor d h =
      let (mode, m, e) = physical_mode d h in
      let s =
        microphone_StartedFor mode (record d { frequency_hz = d.receiver.frequency_hz })
          (resolve_allowed d.api d.station d.receiver.frequency_hz mode m) (rw e at h) in
      rw e record {
        permitted = forget_frequency d _ _ _ s.permitted;
        offset_hz = s.offset_hz;
        started = s.started;
      }

  http_runs :
      (d : DaemonTx W)
      → is_zero (daemon_tx_owner_start usb_calls word stream d TxOwner.http).0 ≡ true
      → (d.network_tx.reserved ≡ true)
        × (is_zero (start_network_owner usb_calls word stream d).0 ≡ true)
        × (daemon_tx_owner_start usb_calls word stream d TxOwner.http
            ≡ start_network_owner usb_calls word stream d)
  unfolding daemon_tx_owner_start
  http_runs d h = (ground arith, ground arith, ground arith)

  http_StartedFor :
      (d : DaemonTx W)
      → is_zero (daemon_tx_owner_start usb_calls word stream d TxOwner.http).0 ≡ true
      → StartedFor word d
          (daemon_tx_owner_start usb_calls word stream d TxOwner.http).1
          TxOwner.http
  unfolding daemon_tx_owner_start
  http_StartedFor d h = let (v, z, e) = http_runs d h in rw e (network_StartedFor d v z)

  -- A start that returns 0 was permitted at the receiver's frequency, for Tune by its policy, for
  -- the network by its reservation and the policy of its source and mode, for the microphone by the
  -- policy of the mode that is frozen with the drive; and it has sent the packets of a start in
  -- their order, each as a whole.
  pub daemon_tx_owner_start_permitted :
      (d : DaemonTx W) (owner : TxOwner)
      → is_zero (daemon_tx_owner_start usb_calls word stream d owner).0 ≡ true
      → StartedFor word d (daemon_tx_owner_start usb_calls word stream d owner).1 owner
  unfolding daemon_tx_owner_start
  daemon_tx_owner_start_permitted d TxOwner.none h = absurd (ground arith)
  daemon_tx_owner_start_permitted d TxOwner.tune h = tune_StartedFor d h
  daemon_tx_owner_start_permitted d TxOwner.physical_mic h = physical_StartedFor d h
  daemon_tx_owner_start_permitted d TxOwner.soapy h = absurd (ground arith)
  daemon_tx_owner_start_permitted d TxOwner.http h = http_StartedFor d h
