-- ===== src/System/Whole.antt =====
-- What the daemon of src/flex1500d.c can reach by the texts of its clients' requests, the
-- microphone's button, its own rounds, USB failures and recoveries, and why its receiver keys.
use flex1500d.Base.{ℕ, ◌≡◌, ◌≢◌, ◌⊎◌, Bool, true, false, List, arith}
use flex1500d.Base.Ints.{ℤ}
use flex1500d.TxControl.{TxOwner, TxState}
use flex1500d.TxControl.Hardware.{Unkeys}
use flex1500d.TuneControl.{count_rejected}
use flex1500d.NetworkTx.{min_prebuffer_frames, valid_profile}
use flex1500d.UsbRx.{Libusb}
use flex1500d.UsbRx.Transmit.{is_keying}
use flex1500d.Station.{Station, start_up, recover}
use flex1500d.Station.Events.{Event, apply}
use flex1500d.Station.Keep.{IsGood, station-IsGood}
use flex1500d.Station.OnAir.{apply-IsGood, start_up-IsGood, recover-IsGood, IsGood-cause}
use flex1500d.Daemon.{DaemonTx, AudioStream}
use flex1500d.Daemon.Owner.{daemon_tx_owner_stop}
use flex1500d.Daemon.Stop.{daemon_tx_owner_stop_quiets}
use flex1500d.Api.{ApiController, RadioInfo}
use flex1500d.Api.Profile.{Scan}
use flex1500d.Api.Effect.{Effect, nothing, event, leased, refused, radio, both}
use flex1500d.Api.Refine.{dispatch-Effect}
use flex1500d.System.{serve_request}
use flex1500d.System.Rtl.{RtlClient, receive_bytes, receive_bytes-Effect}
use flex1500d.System.Radio.{callbacks_keep_keying}

module _ {Ctx : Type 0} (keyed : Ctx → Bool) (start : Ctx → TxOwner → ℤ × Ctx)
    (stop : Ctx → TxOwner → Bool → ℤ × Ctx) (unkeys : Unkeys keyed stop) where
  refused-IsGood :
      (s : Station Ctx)
      → IsGood keyed stop s
      → IsGood keyed stop (record s { tune = count_rejected s.tune })
  refused-IsGood s g = ground arith

  radio-IsGood :
      (s : Station Ctx) (context : Ctx)
      → keyed context ≡ keyed s.tx.callback_context
      → IsGood keyed stop s
      → IsGood keyed stop (record s { tx = record s.tx { callback_context = context } })
  radio-IsGood s context e g = ground arith

  -- A dispatch whose receive callbacks keep the keying keeps the daemon good.
  pub Effect-IsGood :
      {s t : Station Ctx}
      → Effect (λ c d. keyed d ≡ keyed c) s t
      → IsGood keyed stop s
      → IsGood keyed stop t
  Effect-IsGood nothing g = g
  Effect-IsGood {s} (event e) g = apply-IsGood keyed start stop unkeys s e g
  Effect-IsGood {s} (leased o) g = station-IsGood keyed stop unkeys s g o
  Effect-IsGood {s} refused g = refused-IsGood s g
  Effect-IsGood {s} (radio context e) g = radio-IsGood s context e g
  Effect-IsGood (both e f) g = Effect-IsGood f (Effect-IsGood e g)

module _ {W : Type 0} (usb : Libusb W) (word : ℕ → ℕ) (stream : AudioStream W)
    (gain_value : List ℕ → ℤ) (start : DaemonTx W → TxOwner → ℤ × DaemonTx W) where
  abbrev pub keying : DaemonTx W → Bool
  keying d = is_keying d.receiver

  -- A client's request, whatever its text and the settings of the API; bytes of the rtl_tcp client;
  -- an event of the daemon; or a recovery over a receiver that was opened anew.
  pub data Step (enabled : Bool) (s : Station (DaemonTx W)) : Station (DaemonTx W) → Type 0 where
    requested :
        (scan : Scan) (info : RadioInfo) (api : ApiController) (request : List ℕ)
        → Step enabled s (serve_request usb word gain_value scan info api request s).1.station
    streamed :
        (rx_tuning_enabled : Bool) (client : RtlClient) (bytes : List ℕ)
        → Step enabled s (receive_bytes usb word gain_value rx_tuning_enabled bytes (client, s)).1
    happened : (e : Event) → Step enabled s (apply s e)
    recovered :
        (d : DaemonTx W)
        → keying d ≡ false
        → Step enabled s (recover s enabled d start (daemon_tx_owner_stop usb word stream))

  pub data Reach (enabled : Bool) : Station (DaemonTx W) → Type 0 where
    started :
        (d : DaemonTx W)
        → keying d ≡ false
        → Reach enabled (start_up enabled d start (daemon_tx_owner_stop usb word stream))
    next : {s t : Station (DaemonTx W)} → Reach enabled s → Step enabled s t → Reach enabled t

  abbrev Good : Station (DaemonTx W) → Type 0
  Good = IsGood keying (daemon_tx_owner_stop usb word stream)

  Step-IsGood : {enabled : Bool} {s t : Station (DaemonTx W)} → Step enabled s t → Good s → Good t
  unfolding serve_request
  Step-IsGood {enabled} {s} (requested scan info api request) g =
      Effect-IsGood keying start (daemon_tx_owner_stop usb word stream)
        (daemon_tx_owner_stop_quiets usb word stream)
        (dispatch-Effect (λ d e. keying e ≡ keying d) scan info request _
          (callbacks_keep_keying usb word gain_value api s))
        g
  Step-IsGood {enabled} {s} (streamed rx_tuning_enabled client bytes) g =
      Effect-IsGood keying start (daemon_tx_owner_stop usb word stream)
        (daemon_tx_owner_stop_quiets usb word stream)
        (receive_bytes-Effect usb word gain_value rx_tuning_enabled bytes client s) g
  Step-IsGood {enabled} {s} (happened e) g =
      apply-IsGood keying start (daemon_tx_owner_stop usb word stream)
        (daemon_tx_owner_stop_quiets usb word stream) s e g
  Step-IsGood {enabled} {s} (recovered d off) g =
      recover-IsGood keying start (daemon_tx_owner_stop usb word stream)
        (daemon_tx_owner_stop_quiets usb word stream) s enabled d off

  Reach-IsGood : {enabled : Bool} {s : Station (DaemonTx W)} → Reach enabled s → Good s
  Reach-IsGood {enabled} (started d off) =
      start_up-IsGood keying start (daemon_tx_owner_stop usb word stream)
        (daemon_tx_owner_stop_quiets usb word stream) enabled d off
  Reach-IsGood (next r step) = Step-IsGood step (Reach-IsGood r)

  -- Over the dispatch of the texts of requests, the receiver of src/usb_rx.c and the daemon's stop
  -- callback, with any start callback: in every state that the daemon reaches by requests of any
  -- text, any bytes of an rtl_tcp client, edges of the button, rounds, USB failures and recoveries, a receiver whose flags tell of
  -- keying has one of four causes: an active Tune lease, not 0, whose owner transmits; a reserved network
  -- session with a nonzero lease, a valid profile, its stream and the whole prebuffer, whose owner
  -- transmits; the armed microphone with its button down; or a cleanup that failed, with the
  -- controller faulted and unowned.
  pub request_keying_cause :
      (enabled : Bool) (s : Station (DaemonTx W))
      → Reach enabled s
      → keying s.tx.callback_context ≡ true
      → ((s.tx.owner ≡ TxOwner.tune) × (s.tune.active ≡ true) × (s.tune.lease ≢ 0))
        ⊎ ((s.tx.owner ≡ TxOwner.http)
            × (s.net.keyed ≡ true)
            × (s.net.reserved ≡ true)
            × (s.net.lease ≢ 0)
            × (valid_profile s.net.profile ≡ true)
            × (s.net.stream_connected ≡ true)
            × (s.net.buffered_frames ≡ min_prebuffer_frames))
        ⊎ ((s.tx.owner ≡ TxOwner.physical_mic)
            × (s.tx.physical_ptt_armed ≡ true)
            × (s.tx.physical_ptt_pressed ≡ true))
        ⊎ ((s.tx.owner ≡ TxOwner.none)
            × (s.tx.state ≡ TxState.faulted)
            × (s.tx.cleanup_failed ≡ true))
  request_keying_cause enabled s r k =
      IsGood-cause keying start (daemon_tx_owner_stop usb word stream)
        (daemon_tx_owner_stop_quiets usb word stream) s (Reach-IsGood r) k
