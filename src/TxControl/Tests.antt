-- ===== src/TxControl/Tests.antt =====
-- Runs of src/tx_control.c on concrete radios, and its theorems at those inputs.
use mathlib.Core.Option.{Option}
use flex1500d.Base.{◌≡◌, ◌≢◌, ◌⊎◌, refl, Bool, true, false, [], ◌∷◌, arith, ◌+◌, ◌≤◌, ◌<◌}
use flex1500d.Base.Ints.{ℤ, pos, minus_one}
use flex1500d.TxControl.{
  TxControl, TxOwner, none, tune, physical_mic, http, rx, transmitting, faulted, ok, max_key,
  hardware_error, init, request, release, release_graceful, physical_ptt, tick, stop_owner, key,
  call_start, call_stop, valid_owner, press, set_timeout_seconds,
}
use flex1500d.TxControl.Calls.{arm, requests, ptt, ticks, step, run}
use flex1500d.TxControl.Invariant.{IsValid, run-init-IsValid}
use flex1500d.TxControl.Latch.{IsLatched, run-IsLatched, tick_limit}
use flex1500d.TxControl.Priority.{others_refused, press_preempts, press_faults, failed_start_cleans}
use flex1500d.TxControl.Hardware.{run-unkeyed}

-- A radio that is on the air or not.
abbrev good_start : Bool → TxOwner → ℤ × Bool
good_start on o = (pos 0, true)

abbrev good_stop : Bool → TxOwner → Bool → ℤ × Bool
good_stop on o graceful = (pos 0, false)

-- A start that fails halfway, with the radio on the air, and a stop that does nothing.
abbrev bad_start : Bool → TxOwner → ℤ × Bool
bad_start on o = (minus_one, true)

abbrev bad_stop : Bool → TxOwner → Bool → ℤ × Bool
bad_stop on o graceful = (minus_one, on)

-- Tune has owned the transmitter since time 1000, armed, with a limit of 30 seconds.
abbrev tuned_by : (Bool → TxOwner → ℤ × Bool) → (Bool → TxOwner → Bool → ℤ × Bool) → TxControl Bool
tuned_by start stop = record {
  enabled = true;
  physical_ptt_armed = true;
  physical_ptt_pressed = false;
  cleanup_failed = false;
  owner = tune;
  state = transmitting;
  started_ms = 1000;
  maximum_key_ms = 30000;
  callback_context = true;
  start_callback = Option.some start;
  stop_callback = Option.some stop;
}

abbrev idle_by : (Bool → TxOwner → ℤ × Bool) → TxControl Bool
idle_by start = record {
  enabled = true;
  physical_ptt_armed = true;
  physical_ptt_pressed = false;
  cleanup_failed = false;
  owner = none;
  state = rx;
  started_ms = 0;
  maximum_key_ms = 30000;
  callback_context = false;
  start_callback = Option.some start;
  stop_callback = Option.some good_stop;
}

abbrev latched : TxControl Bool
latched = record {
  enabled = true;
  physical_ptt_armed = true;
  physical_ptt_pressed = false;
  cleanup_failed = true;
  owner = none;
  state = faulted;
  started_ms = 0;
  maximum_key_ms = 30000;
  callback_context = true;
  start_callback = Option.some good_start;
  stop_callback = Option.some good_stop;
}

tuned-IsValid :
    (start : Bool → TxOwner → ℤ × Bool) (stop : Bool → TxOwner → Bool → ℤ × Bool)
    → IsValid (tuned_by start stop)
tuned-IsValid start stop = ground arith

idle-IsValid : (start : Bool → TxOwner → ℤ × Bool) → IsValid (idle_by start)
idle-IsValid start = ground arith

latched-IsLatched : IsLatched true latched
latched-IsLatched = record { stuck = refl; unowned = refl; untouched = refl }

-- A press of the button takes the transmitter over from Tune, and the key timer ends it.
preempt_then_timeout :
    (run (tuned_by good_start good_stop) (ptt true 2000 ∷ [])).owner ≡ physical_mic
unfolding run step physical_ptt press stop_owner request key call_start call_stop valid_owner
preempt_then_timeout = refl

-- A request in the startup-inhibit state is refused to the microphone alone.
startup_tune :
    (request
      (init true 30000 false (Option.some good_start) (Option.some good_stop))
      tune
      1).1.owner
    ≡ tune
unfolding init request key call_start call_stop valid_owner
startup_tune = refl

timeout_set : (set_timeout_seconds (idle_by good_start) 29).0 ≡ false
unfolding set_timeout_seconds
timeout_set = refl

run-init-IsValid_example : IsValid (
    run
      (init true 30000 false (Option.some good_start) (Option.some good_stop))
      (arm ∷ requests tune 1000 ∷ ptt true 2000 ∷ ticks 40000 ∷ []))
run-init-IsValid_example =
    run-init-IsValid true 30000 false (Option.some good_start) (Option.some good_stop)
      (arm ∷ requests tune 1000 ∷ ptt true 2000 ∷ ticks 40000 ∷ [])

run-IsLatched_example : IsLatched true (run latched (ptt true 5 ∷ requests tune 6 ∷ ticks 7 ∷ []))
run-IsLatched_example =
    run-IsLatched true latched (ptt true 5 ∷ requests tune 6 ∷ ticks 7 ∷ []) latched-IsLatched

tick_limit_example :
    ((tune ≢ none)
      × ((tick (tuned_by good_start good_stop) 31000).1 ≡ tuned_by good_start good_stop)
      × (31000 < 1000 + 30000))
    ⊎ ((tune ≢ none)
        × (1000 + 30000 ≤ 31000)
        × ((tick (tuned_by good_start good_stop) 31000).1.owner ≡ none)
        × ((((tick (tuned_by good_start good_stop) 31000).0 ≡ max_key)
              × ((tick (tuned_by good_start good_stop) 31000).1.state ≡ rx))
            ⊎ (((tick (tuned_by good_start good_stop) 31000).0 ≡ hardware_error)
                × ((tick (tuned_by good_start good_stop) 31000).1.state ≡ faulted))))
    ⊎ ((tune ≡ none)
        × ((tick (tuned_by good_start good_stop) 31000).1 ≡ tuned_by good_start good_stop))
tick_limit_example =
    tick_limit (tuned_by good_start good_stop) 31000 (tuned-IsValid good_start good_stop) refl
      (omega arith) (omega arith) (omega arith)

others_refused_example :
    ((request (tuned_by good_start good_stop) http 5).1 ≡ tuned_by good_start good_stop)
    × ((request (tuned_by good_start good_stop) http 5).0 ≢ ok)
    × ((release (tuned_by good_start good_stop) http).1 ≡ tuned_by good_start good_stop)
    × ((release (tuned_by good_start good_stop) http).0 ≢ ok)
    × ((release_graceful (tuned_by good_start good_stop) http).1 ≡ tuned_by good_start good_stop)
    × ((release_graceful (tuned_by good_start good_stop) http).0 ≢ ok)
others_refused_example =
    others_refused (tuned_by good_start good_stop) http 5 (tuned-IsValid good_start good_stop) (cc)
      (cc)

press_preempts_example :
    ((physical_ptt (tuned_by good_start good_stop) true 2000).0 ≡ ok)
    × ((physical_ptt (tuned_by good_start good_stop) true 2000).1.owner ≡ physical_mic)
    × ((physical_ptt (tuned_by good_start good_stop) true 2000).1.state ≡ transmitting)
    × ((physical_ptt (tuned_by good_start good_stop) true 2000).1.started_ms ≡ 2000)
    × ((physical_ptt (tuned_by good_start good_stop) true 2000).1.callback_context ≡ true)
press_preempts_example =
    press_preempts (tuned_by good_start good_stop) 2000 good_start good_stop
      (tuned-IsValid good_start good_stop) refl refl refl (cc) (cc) refl refl

press_faults_example :
    ((physical_ptt (tuned_by good_start bad_stop) true 2000).0 ≡ hardware_error)
    × ((physical_ptt (tuned_by good_start bad_stop) true 2000).1.owner ≡ none)
    × ((physical_ptt (tuned_by good_start bad_stop) true 2000).1.state ≡ faulted)
    × ((physical_ptt (tuned_by good_start bad_stop) true 2000).1.callback_context ≡ true)
press_faults_example =
    press_faults (tuned_by good_start bad_stop) 2000 good_start bad_stop
      (tuned-IsValid good_start bad_stop) refl refl (cc) (cc) refl

failed_start_cleans_example :
    ((request (idle_by bad_start) http 9).0 ≡ hardware_error)
    × ((request (idle_by bad_start) http 9).1.owner ≡ none)
    × ((request (idle_by bad_start) http 9).1.state ≡ faulted)
    × ((request (idle_by bad_start) http 9).1.callback_context ≡ false)
    × ((request (idle_by bad_start) http 9).1.cleanup_failed ≡ false)
unfolding valid_owner
failed_start_cleans_example =
    failed_start_cleans (idle_by bad_start) 9 bad_start good_stop http (idle-IsValid bad_start) refl
      refl refl refl (cc) refl (λ e. refl) refl

run-unkeyed_example :
    ((run
        (init true 30000 false (Option.some bad_start) (Option.some bad_stop))
        (requests tune 1 ∷ [])).state
      ≡ transmitting)
    ⊎ ((run
          (init true 30000 false (Option.some bad_start) (Option.some bad_stop))
          (requests tune 1 ∷ [])).cleanup_failed
        ≡ true)
unfolding run step init request key call_start call_stop valid_owner
run-unkeyed_example =
    run-unkeyed (λ on. on) bad_stop (λ on o graceful z. cc) true 30000 false (Option.some bad_start)
      (requests tune 1 ∷ []) refl refl
