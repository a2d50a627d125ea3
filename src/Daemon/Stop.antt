-- ===== src/Daemon/Stop.antt =====
-- `daemon_tx_owner_stop` of src/flex1500d.c, and what the controller of src/tx_control.c learns
-- from it.
use flex1500d.Base.{ℕ, ◌≡◌, ◌≢◌, ◌⊎◌, Bool, true, false, arith}
use flex1500d.Base.Ints.{ℤ, is_zero}
use flex1500d.TxControl.{TxOwner, TxState}
use flex1500d.TxControl.Hardware.{Unkeys}
use flex1500d.UsbRx.{UsbRx, Libusb}
use flex1500d.UsbRx.Transmit.{is_keying, has_transmission, tune_carrier_stop}
use flex1500d.UsbRx.Keyed.{may_be_keyed}
use flex1500d.UsbRx.Graceful.{drained, microphone_tx_stop_graceful, graceful_unkeys}
use flex1500d.UsbRx.Unkey.{IsTracked, tune_carrier_stop_unkeys, stop_opened}
use flex1500d.UsbRx.Forget.{stopped_off}
use flex1500d.NetworkTx.{min_prebuffer_frames, valid_profile}
use flex1500d.Station.{Station}
use flex1500d.Station.OnAir.{Reach, on_air_cause}
use flex1500d.Daemon.{DaemonTx, AudioStream}
use flex1500d.Daemon.Owner.{stop_audio_owner, daemon_tx_owner_stop}

module _ {W : Type 0} (usb_calls : Libusb W) (word : ℕ → ℕ) (stream : AudioStream W) where
  -- A stop of any owner that returns 0, graceful or not, has unkeyed the radio, where the
  -- receiver's flags told that it may be keyed.
  pub daemon_tx_owner_stop_unkeys :
      (d : DaemonTx W) (owner : TxOwner) (graceful : Bool)
      → IsTracked d.receiver
      → is_zero (daemon_tx_owner_stop usb_calls word stream d owner graceful).0 ≡ true
      → may_be_keyed (daemon_tx_owner_stop usb_calls word stream d owner graceful).1.receiver.trace
        ≡ false
  unfolding daemon_tx_owner_stop stop_audio_owner
  daemon_tx_owner_stop_unkeys d TxOwner.none graceful t h = absurd (ground arith)
  daemon_tx_owner_stop_unkeys d TxOwner.soapy graceful t h = absurd (ground arith)
  daemon_tx_owner_stop_unkeys d TxOwner.tune graceful t h =
      tune_carrier_stop_unkeys usb_calls word d.receiver t h
  daemon_tx_owner_stop_unkeys d TxOwner.physical_mic true t h =
      graceful_unkeys usb_calls word 1000 d.receiver t h
  daemon_tx_owner_stop_unkeys d TxOwner.physical_mic false t h =
      tune_carrier_stop_unkeys usb_calls word d.receiver t h
  daemon_tx_owner_stop_unkeys d TxOwner.http true t h =
      graceful_unkeys usb_calls word 1000 d.receiver t h
  daemon_tx_owner_stop_unkeys d TxOwner.http false t h =
      tune_carrier_stop_unkeys usb_calls word d.receiver t h

  carrier_stop_quiet :
      (r : UsbRx W)
      → is_zero (tune_carrier_stop usb_calls word r).0 ≡ true
      → is_keying (tune_carrier_stop usb_calls word r).1 ≡ false
  unfolding has_transmission is_keying
  carrier_stop_quiet r h =
      let q = stopped_off usb_calls word r (stop_opened usb_calls word r h) in ground arith

  -- A stop that returns 0 leaves no flag of the receiver that tells of keying.
  pub daemon_tx_owner_stop_quiets :
      Unkeys (λ d. is_keying d.receiver) (daemon_tx_owner_stop usb_calls word stream)
  unfolding daemon_tx_owner_stop stop_audio_owner microphone_tx_stop_graceful
  daemon_tx_owner_stop_quiets d TxOwner.none graceful h = absurd (ground arith)
  daemon_tx_owner_stop_quiets d TxOwner.soapy graceful h = absurd (ground arith)
  daemon_tx_owner_stop_quiets d TxOwner.tune graceful h = carrier_stop_quiet d.receiver h
  daemon_tx_owner_stop_quiets d TxOwner.physical_mic true h =
      ground (arith, carrier_stop_quiet (drained usb_calls word 1000 d.receiver))
  daemon_tx_owner_stop_quiets d TxOwner.physical_mic false h = carrier_stop_quiet d.receiver h
  daemon_tx_owner_stop_quiets d TxOwner.http true h =
      ground (arith, carrier_stop_quiet (drained usb_calls word 1000 d.receiver))
  daemon_tx_owner_stop_quiets d TxOwner.http false h = carrier_stop_quiet d.receiver h

  -- Over the receiver of src/usb_rx.c, with the daemon's stop callback and any start callback: in
  -- every state that the daemon reaches, a receiver whose flags tell of keying has one of four
  -- causes: an active Tune lease whose owner transmits; a reserved network session with a valid
  -- profile and the whole prebuffer, whose owner transmits; the armed microphone with its button
  -- down; or a cleanup that failed, with the controller faulted and unowned.
  pub keying_cause :
      (start : DaemonTx W → TxOwner → ℤ × DaemonTx W) (enabled : Bool) (s : Station (DaemonTx W))
      → Reach
          (λ d. is_keying d.receiver)
          start
          (daemon_tx_owner_stop usb_calls word stream)
          enabled
          s
      → is_keying s.tx.callback_context.receiver ≡ true
      → ((s.tx.owner ≡ TxOwner.tune) × (s.tune.active ≡ true) × (s.tune.lease ≢ 0))
        ⊎ ((s.tx.owner ≡ TxOwner.http)
            × (s.net.keyed ≡ true)
            × (s.net.reserved ≡ true)
            × (s.net.lease ≢ 0)
            × (valid_profile s.net.profile ≡ true)
            × (s.net.stream_connected ≡ true)
            × (s.net.buffered_frames ≡ min_prebuffer_frames))
        ⊎ ((s.tx.owner ≡ TxOwner.physical_mic)
            × (s.tx.physical_ptt_armed ≡ true)
            × (s.tx.physical_ptt_pressed ≡ true))
        ⊎ ((s.tx.owner ≡ TxOwner.none)
            × (s.tx.state ≡ TxState.faulted)
            × (s.tx.cleanup_failed ≡ true))
  keying_cause start enabled s r k =
      on_air_cause (λ d. is_keying d.receiver) start (daemon_tx_owner_stop usb_calls word stream)
        daemon_tx_owner_stop_quiets enabled s r k
