-- ===== src/TuneControl/Tests.antt =====
-- Runs of src/tune_control.c, and its theorems at those inputs.
use mathlib.Core.Option.{Option}
use flex1500d.Base.{◌≡◌, ◌≢◌, ◌⊎◌, ◌+◌, ◌≤◌, ◌<◌, refl, Bool, true, false, arith}
use flex1500d.Base.Ints.{ℤ, pos}
use flex1500d.TxControl
use flex1500d.TxControl.{TxControl, TxOwner}
use flex1500d.TuneControl.{
  TuneControl, ok, hard_limit, expired, hardware_error, lease_ms, hard_limit_ms, no_diagnostics,
  start, keepalive, stop, tick, reconcile, shutdown,
}
use flex1500d.TuneControl.Watchdog.{
  IsLinked, tune_operations-IsLinked, tick_watchdog, keepalive_renews,
}

abbrev start_radio : Bool → TxOwner → ℤ × Bool
start_radio on o = (pos 0, true)

abbrev stop_radio : Bool → TxOwner → Bool → ℤ × Bool
stop_radio on o graceful = (pos 0, false)

-- Tune has held the transmitter with lease 9 since time 1000.
abbrev tuned_tx : TxControl Bool
tuned_tx = record {
  enabled = true;
  physical_ptt_armed = true;
  physical_ptt_pressed = false;
  cleanup_failed = false;
  owner = TxOwner.tune;
  state = TxControl.transmitting;
  started_ms = 1000;
  maximum_key_ms = 180000;
  callback_context = true;
  start_callback = Option.some start_radio;
  stop_callback = Option.some stop_radio;
}

abbrev tuned : TuneControl
tuned = record {
  enabled = true;
  active = true;
  lease = 9;
  started_ms = 1000;
  renewed_ms = 1000;
  tx_control = true;
  diagnostics = no_diagnostics;
}

tuned-IsLinked : IsLinked tuned tuned_tx
tuned-IsLinked = ground arith

tune_operations-IsLinked_example :
    IsLinked (start tuned tuned_tx 2000 9).1 (start tuned tuned_tx 2000 9).2
    × IsLinked (keepalive tuned tuned_tx 2000 9).1 (keepalive tuned tuned_tx 2000 9).2
    × IsLinked (stop tuned tuned_tx 9).1 (stop tuned tuned_tx 9).2
    × IsLinked (tick tuned tuned_tx 2000).1 (tick tuned tuned_tx 2000).2
    × IsLinked (reconcile tuned tuned_tx true) tuned_tx
    × IsLinked (shutdown tuned tuned_tx).0 (shutdown tuned tuned_tx).1
tune_operations-IsLinked_example =
    tune_operations-IsLinked tuned tuned_tx 2000 9 true tuned-IsLinked

tick_watchdog_example :
    ((16000 < 1000 + hard_limit_ms)
      × (16000 < 1000 + lease_ms)
      × (tick tuned tuned_tx 16000 ≡ (ok, tuned, tuned_tx)))
    ⊎ (((1000 + hard_limit_ms ≤ 16000) ⊎ (1000 + lease_ms ≤ 16000))
        × ((tick tuned tuned_tx 16000).2.owner ≢ TxOwner.tune)
        × ((tick tuned tuned_tx 16000).1.active ≡ false)
        × (((tick tuned tuned_tx 16000).0 ≡ hard_limit)
            ⊎ ((tick tuned tuned_tx 16000).0 ≡ expired)
            ⊎ ((tick tuned tuned_tx 16000).0 ≡ hardware_error)))
tick_watchdog_example =
    tick_watchdog tuned tuned_tx 16000 tuned-IsLinked refl (omega arith) (omega arith) (omega arith)

keepalive_renews_example :
    (true ≡ true)
    × (tuned.lease ≡ tuned.lease)
    × (2000 < 1000 + hard_limit_ms)
    × (2000 < 1000 + lease_ms)
    × (keepalive tuned tuned_tx 2000 9 ≡ (ok, record tuned { renewed_ms = 2000 }, tuned_tx))
unfolding keepalive
keepalive_renews_example =
    keepalive_renews tuned tuned_tx 2000 9 tuned-IsLinked (omega arith) (omega arith) (omega arith)
      refl
