-- ===== src/TxControl/Priority.antt =====
-- Who may take the transmitter from whom in src/tx_control.c.
use mathlib.Core.Option.{Option}
use flex1500d.Base.{not, ℕ, ◌≡◌, ◌≢◌, Bool, true, false, arith}
use flex1500d.Base.Ints.{ℤ, is_zero}
use flex1500d.TxControl.{
  TxControl, TxOwner, none, physical_mic, transmitting, faulted, ok, hardware_error, stop_owner,
  request, key, release_with, release, release_graceful, press, physical_ptt, call_stop, call_start,
  valid_owner,
}
use flex1500d.TxControl.Invariant.{IsValid}

module _ {Ctx : Type 0} where
  -- While someone owns the transmitter, a request, a release or a graceful release by anyone else
  -- is refused and changes nothing, hardware included.
  pub others_refused :
      (c : TxControl Ctx) (o : TxOwner) (now : ℕ)
      → IsValid c
      → c.owner ≢ none
      → o ≢ c.owner
      → ((request c o now).1 ≡ c)
        × ((request c o now).0 ≢ ok)
        × ((release c o).1 ≡ c)
        × ((release c o).0 ≢ ok)
        × ((release_graceful c o).1 ≡ c)
        × ((release_graceful c o).0 ≢ ok)
  unfolding request key release_with release release_graceful valid_owner
  others_refused c o now v held other = ground arith

module _ {Ctx : Type 0} (c : TxControl Ctx) (now : ℕ) (start : Ctx → TxOwner → ℤ × Ctx)
    (stop : Ctx → TxOwner → Bool → ℤ × Ctx) where
  -- An armed press of the microphone button while another owner transmits: with both callbacks
  -- set, the owner is stopped at once (not gracefully); if that stop returns 0 the microphone's start
  -- runs on the context that the stop left, and if that returns 0 too the microphone
  -- owns the transmitter from `now`.
  pub press_preempts :
      IsValid c
      → c.start_callback ≡ Option.some start
      → c.stop_callback ≡ Option.some stop
      → c.physical_ptt_armed ≡ true
      → c.owner ≢ none
      → c.owner ≢ physical_mic
      → is_zero (stop c.callback_context c.owner false).0 ≡ true
      → is_zero (start (stop c.callback_context c.owner false).1 physical_mic).0 ≡ true
      → ((physical_ptt c true now).0 ≡ ok)
        × ((physical_ptt c true now).1.owner ≡ physical_mic)
        × ((physical_ptt c true now).1.state ≡ transmitting)
        × ((physical_ptt c true now).1.started_ms ≡ now)
        × ((physical_ptt c true now).1.callback_context
            ≡ (start (stop c.callback_context c.owner false).1 physical_mic).1)
  unfolding physical_ptt press stop_owner request key valid_owner call_stop call_start
  press_preempts v hs hp armed held other clean up = ground arith

  -- If the stop of the competing owner fails, the press is refused with `hardware_error`, the
  -- controller is faulted and unowned, and the microphone's start callback never runs: the context is as the
  -- failed stop left it.
  pub press_faults :
      IsValid c
      → c.stop_callback ≡ Option.some stop
      → c.physical_ptt_armed ≡ true
      → c.owner ≢ none
      → c.owner ≢ physical_mic
      → is_zero (stop c.callback_context c.owner false).0 ≡ false
      → ((physical_ptt c true now).0 ≡ hardware_error)
        × ((physical_ptt c true now).1.owner ≡ none)
        × ((physical_ptt c true now).1.state ≡ faulted)
        × ((physical_ptt c true now).1.callback_context ≡ (stop c.callback_context c.owner false).1)
  unfolding physical_ptt press stop_owner call_stop
  press_faults v hp armed held other fails = ground arith

  -- A request that finds the controller free and is allowed to start, but whose start callback
  -- fails, runs the stop callback for the same owner on the context that the start left, ends
  -- faulted and unowned, and records whether the cleanup failed.
  pub failed_start_cleans :
      (o : TxOwner)
      → IsValid c
      → c.start_callback ≡ Option.some start
      → c.stop_callback ≡ Option.some stop
      → c.enabled ≡ true
      → c.owner ≡ none
      → c.state ≢ faulted
      → valid_owner o ≡ true
      → (o ≡ physical_mic → c.physical_ptt_armed ≡ true)
      → is_zero (start c.callback_context o).0 ≡ false
      → ((request c o now).0 ≡ hardware_error)
        × ((request c o now).1.owner ≡ none)
        × ((request c o now).1.state ≡ faulted)
        × ((request c o now).1.callback_context ≡ (stop (start c.callback_context o).1 o false).1)
        × ((request c o now).1.cleanup_failed
            ≡ not (is_zero (stop (start c.callback_context o).1 o false).0))
  unfolding request key valid_owner call_stop call_start
  failed_start_cleans o v hs hp on free ready valid armed fails = ground arith
