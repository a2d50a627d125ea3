-- ===== src/Station/Tests.antt =====
-- A run of the daemon's transmit side, and its theorem there.
use flex1500d.Base.{◌≡◌, ◌≢◌, ◌⊎◌, refl, Bool, true, false}
use flex1500d.Base.Ints.{ℤ, pos}
use flex1500d.TxControl
use flex1500d.TxControl.{TxOwner, TxState}
use flex1500d.TuneControl
use flex1500d.NetworkTx.{min_prebuffer_frames, valid_profile}
use flex1500d.Station.{Station, start_up}
use flex1500d.Station.Events.{tune_start, apply}
use flex1500d.Station.OnAir.{Reach, starts, next, does, on_air_cause}

abbrev start_radio : Bool → TxOwner → ℤ × Bool
start_radio on o = (pos 0, true)

abbrev stop_radio : Bool → TxOwner → Bool → ℤ × Bool
stop_radio on o graceful = (pos 0, false)

-- Tune starts with lease 9 at time 1000.
abbrev tuned : Station Bool
tuned = apply (start_up true false start_radio stop_radio) (tune_start 1000 9)

tuned-Reach : Reach (λ on. on) start_radio stop_radio true tuned
tuned-Reach = next (starts false refl) (does (tune_start 1000 9))

tuned_owner : tuned.tx.owner ≡ TxOwner.tune
unfolding apply start_up TuneControl.start TuneControl.start_carrier TuneControl.init TxControl.init
    TxControl.arm_physical_ptt TxControl.request TxControl.key TxControl.call_start
    TxControl.call_stop TxControl.valid_owner
tuned_owner = refl

on_air_cause_example :
    ((tuned.tx.owner ≡ TxOwner.tune) × (tuned.tune.active ≡ true) × (tuned.tune.lease ≢ 0))
    ⊎ ((tuned.tx.owner ≡ TxOwner.http)
        × (tuned.net.keyed ≡ true)
        × (tuned.net.reserved ≡ true)
        × (tuned.net.lease ≢ 0)
        × (valid_profile tuned.net.profile ≡ true)
        × (tuned.net.stream_connected ≡ true)
        × (tuned.net.buffered_frames ≡ min_prebuffer_frames))
    ⊎ ((tuned.tx.owner ≡ TxOwner.physical_mic)
        × (tuned.tx.physical_ptt_armed ≡ true)
        × (tuned.tx.physical_ptt_pressed ≡ true))
    ⊎ ((tuned.tx.owner ≡ TxOwner.none)
        × (tuned.tx.state ≡ TxState.faulted)
        × (tuned.tx.cleanup_failed ≡ true))
unfolding apply start_up TuneControl.start TuneControl.start_carrier TuneControl.init TxControl.init
    TxControl.arm_physical_ptt TxControl.request TxControl.key TxControl.call_start
    TxControl.call_stop TxControl.valid_owner
on_air_cause_example =
    on_air_cause (λ on. on) start_radio stop_radio (λ on o graceful z. refl) true tuned tuned-Reach
      refl
