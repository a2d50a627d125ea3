-- ===== src/TxControl.antt =====
-- src/tx_control.c with include/flex1500/tx_control.h: one controller that hands the transmitter
-- to one owner at a time. A function that changes `*control` returns its result beside the new
-- controller. The two callbacks are the struct's fields, each with the context that it changes.
pub mod Calls
pub mod Invariant
pub mod Owner
pub mod Frame
pub mod Latch
pub mod Priority
pub mod Hardware
mod Tests
use mathlib.Core.Option.{Option}
use flex1500d.Base.{
  ℕ, ◌*◌, ◌/◌, ◌%◌, Bool, true, false, not, ◌&&◌, ◌||◌, ltb, leb, ◌==◌, if◌then◌else◌,
}
use flex1500d.Base.Ints.{ℤ, is_zero, minus_one}
use flex1500d.Base.Words.{sub64, u32_mod}

pub data TxOwner : Type 0 where
  none tune physical_mic http soapy : TxOwner

pub data TxState : Type 0 where
  startup_inhibit rx preparing transmitting unkeying recovering faulted : TxState

pub data TxControlResult : Type 0 where
  ok disabled inhibited busy invalid_owner hardware_error max_key : TxControlResult

-- The enumerators' values, by which C compares them.
abbrev pub owner_code : TxOwner → ℕ
owner_code none = 0
owner_code tune = 1
owner_code physical_mic = 2
owner_code http = 3
owner_code soapy = 4

abbrev pub state_code : TxState → ℕ
state_code startup_inhibit = 0
state_code rx = 1
state_code preparing = 2
state_code transmitting = 3
state_code unkeying = 4
state_code recovering = 5
state_code faulted = 6

abbrev pub result_ok : TxControlResult → Bool
result_ok ok = true
result_ok _ = false

abbrev pub owner_eq : TxOwner → TxOwner → Bool
owner_eq a b = owner_code a == owner_code b

abbrev pub state_eq : TxState → TxState → Bool
state_eq a b = state_code a == state_code b

-- A callback gets the context and may change it; `none` is a NULL function pointer.
pub record TxControl (Ctx : Type 0) : Type 0 where
  pub enabled : Bool
  pub physical_ptt_armed : Bool
  pub physical_ptt_pressed : Bool
  pub cleanup_failed : Bool
  pub owner : TxOwner
  pub state : TxState
  pub started_ms : ℕ
  pub maximum_key_ms : ℕ
  pub callback_context : Ctx
  pub start_callback : Option (Ctx → TxOwner → ℤ × Ctx)
  pub stop_callback : Option (Ctx → TxOwner → Bool → ℤ × Ctx)

abbrev pub timeout_min_seconds : ℕ
timeout_min_seconds = 30

abbrev pub timeout_max_seconds : ℕ
timeout_max_seconds = 1800

unfoldable pub valid_owner : TxOwner → Bool
valid_owner owner =
    leb (owner_code tune) (owner_code owner) && leb (owner_code owner) (owner_code soapy)

-- `if (state == STARTUP_INHIBIT) state = RX;`
abbrev pub leave_inhibit : TxState → TxState
leave_inhibit startup_inhibit = rx
leave_inhibit s = s

module _ {Ctx : Type 0} where
  -- `stop_callback != NULL ? stop_callback(...) : -1`
  unfoldable pub call_stop : TxControl Ctx → TxOwner → Bool → ℤ × Ctx
  call_stop c owner graceful = elim c.stop_callback [
    | Option.none ↦ (minus_one, c.callback_context)
    | Option.some stop ↦ stop c.callback_context owner graceful
  ]

  -- `start_callback == NULL || start_callback(...) != 0` is the first component's being nonzero.
  unfoldable pub call_start : TxControl Ctx → TxOwner → ℤ × Ctx
  call_start c owner = elim c.start_callback [
    | Option.none ↦ (minus_one, c.callback_context)
    | Option.some start ↦ start c.callback_context owner
  ]

  unfoldable pub stop_owner : TxControl Ctx → Bool → TxControlResult × TxControl Ctx
  stop_owner c graceful =
      let c' = record c { state = unkeying } in
      let (result, context) = call_stop c' c.owner graceful in
      if owner_eq c.owner none then (ok, c) else (
        if is_zero result then ok else hardware_error,
        record c' {
          callback_context = context;
          cleanup_failed = not (is_zero result);
          owner = none;
          started_ms = 0;
          state = if is_zero result then rx else faulted;
        },
      )

  unfoldable pub init :
      Bool
      → ℕ
      → Ctx
      → Option (Ctx → TxOwner → ℤ × Ctx)
      → Option (Ctx → TxOwner → Bool → ℤ × Ctx)
      → TxControl Ctx
  init enabled maximum_key_ms context start stop = record {
    enabled = enabled;
    physical_ptt_armed = false;
    physical_ptt_pressed = false;
    cleanup_failed = false;
    owner = none;
    state = if enabled then startup_inhibit else rx;
    started_ms = 0;
    maximum_key_ms = maximum_key_ms;
    callback_context = context;
    start_callback = start;
    stop_callback = stop;
  }

  unfoldable pub arm_physical_ptt : TxControl Ctx → TxControl Ctx
  arm_physical_ptt c =
      if not c.enabled || not (owner_eq c.owner none)
      then c
      else record c { physical_ptt_armed = true; state = leave_inhibit c.state }

  -- The part of `request` behind its guards: start, and clean up where the start fails.
  unfoldable pub key : TxControl Ctx → TxOwner → ℕ → TxControlResult × TxControl Ctx
  key c owner now_ms =
      let c' = record c { cleanup_failed = false; state = preparing } in
      let (started, context) = call_start c' owner in
      let (cleaned, context') = call_stop (record c' { callback_context = context }) owner false in
      if not (is_zero started)
      then (
        hardware_error,
        record c' {
          callback_context = context';
          cleanup_failed = not (is_zero cleaned);
          state = faulted;
        },
      )
      else (
        ok,
        record c' {
          callback_context = context;
          owner = owner;
          started_ms = now_ms;
          state = transmitting;
        },
      )

  unfoldable pub request : TxControl Ctx → TxOwner → ℕ → TxControlResult × TxControl Ctx
  request c owner now_ms =
      if not c.enabled
      then (disabled, c)
      else if not (valid_owner owner)
      then (invalid_owner, c)
      else if owner_eq owner physical_mic && not c.physical_ptt_armed
      then (inhibited, c)
      else if state_eq c.state faulted || state_eq c.state recovering
      then (inhibited, c)
      else if owner_eq c.owner owner
      then (ok, c)
      else if not (owner_eq c.owner none)
      then (busy, c)
      else key c owner now_ms

  -- `flex1500_tx_control_release` and `_release_graceful` differ in the flag alone.
  unfoldable pub release_with : Bool → TxControl Ctx → TxOwner → TxControlResult × TxControl Ctx
  release_with graceful c owner =
      if not c.enabled
      then (disabled, c)
      else if not (valid_owner owner)
      then (invalid_owner, c)
      else if not (owner_eq c.owner owner)
      then (busy, c)
      else stop_owner c graceful

  unfoldable pub release : TxControl Ctx → TxOwner → TxControlResult × TxControl Ctx
  release = release_with false

  unfoldable pub release_graceful : TxControl Ctx → TxOwner → TxControlResult × TxControl Ctx
  release_graceful = release_with true

  -- A press while armed: stop a competing owner first, and request only after a clean stop.
  unfoldable pub press : TxControl Ctx → ℕ → TxControlResult × TxControl Ctx
  press c now_ms =
      let (stopped, c') = stop_owner c false in
      if not (owner_eq c.owner none) && not (owner_eq c.owner physical_mic)
      then (if not (result_ok stopped) then (stopped, c') else request c' physical_mic now_ms)
      else request c physical_mic now_ms

  unfoldable pub physical_ptt : TxControl Ctx → Bool → ℕ → TxControlResult × TxControl Ctx
  physical_ptt c pressed now_ms =
      let c' = record c { physical_ptt_pressed = pressed } in
      if not c.enabled
      then (disabled, c)
      else if not c.physical_ptt_armed
      then (if pressed
          then (inhibited, c')
          else (ok, record c' { physical_ptt_armed = true; state = leave_inhibit c.state }))
      else if not pressed
      then (if owner_eq c.owner physical_mic then stop_owner c' true else (ok, c'))
      else press c' now_ms

  unfoldable pub tick : TxControl Ctx → ℕ → TxControlResult × TxControl Ctx
  tick c now_ms =
      let (stopped, c') = stop_owner c false in
      if not c.enabled
      then (disabled, c)
      else if owner_eq c.owner none || not (state_eq c.state transmitting)
      then (ok, c)
      else if not (c.maximum_key_ms == 0) && leb c.maximum_key_ms (sub64 now_ms c.started_ms)
      then (if result_ok stopped then max_key else stopped, c')
      else (ok, c)

  unfoldable pub shutdown : TxControl Ctx → TxControl Ctx
  shutdown c = if not (owner_eq c.owner none) then (stop_owner c false).1 else c

  unfoldable pub set_timeout_seconds : TxControl Ctx → ℕ → Bool × TxControl Ctx
  set_timeout_seconds c seconds =
      if not (owner_eq c.owner none)
        || ltb seconds timeout_min_seconds
        || ltb timeout_max_seconds seconds
      then (false, c)
      else (true, record c { maximum_key_ms = seconds * 1000 })

  unfoldable pub timeout_seconds : TxControl Ctx → ℕ
  timeout_seconds c = c.maximum_key_ms / 1000 % u32_mod
