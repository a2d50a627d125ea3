-- ===== src/TxLifecycle.antt =====
-- src/tx_lifecycle.c with include/flex1500/tx_lifecycle.h: which cleanup a partly started transmission
-- needs, and carrying it out. The callback changes a context `Ctx`; `none` is a NULL pointer.
pub mod Plan
pub mod Order
mod Tests
use Prim.Native.Nat.{bit_and, bit_or}
use mathlib.Core.Option.{Option, none, some}
use flex1500d.Base.{ℕ, Bool, true, false, not, ◌&&◌, List, [], ◌∷◌, ◌==◌, if◌then◌else◌}
use flex1500d.Base.Ints.{ℤ, pos, is_zero, minus_one}

-- `flex1500_tx_partial_state`
abbrev pub pa_selected : ℕ
pa_selected = 1

abbrev pub amp_enable_attempted : ℕ
amp_enable_attempted = 2

abbrev pub stream_started : ℕ
stream_started = 4

abbrev pub transition_attempted : ℕ
transition_attempted = 8

abbrev pub frequency_attempted : ℕ
frequency_attempted = 16

abbrev pub key_attempted : ℕ
key_attempted = 32

pub data TxCleanupAction : Type 0 where
  transition_mute unkey restore_rx_frequency transition_unmute : TxCleanupAction
  stop_stream reset_pa_filter disable_amplifier : TxCleanupAction

abbrev pub action_bit : TxCleanupAction → ℕ
action_bit transition_mute = 1
action_bit unkey = 2
action_bit restore_rx_frequency = 4
action_bit transition_unmute = 8
action_bit stop_stream = 16
action_bit reset_pa_filter = 32
action_bit disable_amplifier = 64

-- `(word & mask) != 0`
abbrev pub has : ℕ → ℕ → Bool
has word mask = not (bit_and word mask == 0)

-- `if (test) actions |= bits;`
abbrev pub or_if : Bool → ℕ → ℕ → ℕ
or_if test bits actions = if test then bit_or actions bits else actions

unfoldable pub cleanup_plan : ℕ → ℕ
cleanup_plan state =
    let a =
      or_if (has state key_attempted) (bit_or (action_bit transition_mute) (action_bit unkey)) 0 in
    let b =
      or_if (has state (bit_or transition_attempted frequency_attempted))
        (bit_or (action_bit restore_rx_frequency) (action_bit transition_unmute)) a in
    let c = or_if (has state stream_started) (action_bit stop_stream) b in
    let d = or_if (has state pa_selected) (action_bit reset_pa_filter) c in
    or_if (has state amp_enable_attempted) (action_bit disable_amplifier) d

abbrev pub order : List TxCleanupAction
order =
    transition_mute ∷ unkey ∷ restore_rx_frequency ∷ transition_unmute ∷ reset_pa_filter
    ∷ disable_amplifier ∷ stop_stream ∷ []

-- The variables of the loop.
pub record Cleanup (Ctx : Type 0) : Type 0 where
  pub attempted : ℕ
  pub first_error : ℤ
  pub context : Ctx

-- `if (first_error == 0 && result != 0) first_error = result;`
abbrev pub keep_first : ℤ → ℤ → ℤ
keep_first first_error result =
    if is_zero first_error && not (is_zero result) then result else first_error

module _ {Ctx : Type 0} (callback : Ctx → TxCleanupAction → ℤ × Ctx) where
  -- The body of the loop for one action of `order`.
  unfoldable pub attempt : ℕ → TxCleanupAction → Cleanup Ctx → Cleanup Ctx
  attempt plan action s =
      let (result, context) = callback s.context action in
      if not (has plan (action_bit action)) then s else record {
        attempted = bit_or s.attempted (action_bit action);
        first_error = keep_first s.first_error result;
        context = context;
      }

  unfoldable pub attempt_all : ℕ → List TxCleanupAction → Cleanup Ctx → Cleanup Ctx
  attempt_all plan [] s = s
  attempt_all plan (action ∷ rest) s = attempt_all plan rest (attempt plan action s)

-- The result, the value of `*attempted_actions` where it is written, and the context.
unfoldable pub execute_cleanup :
    {Ctx : Type 0} → ℕ → Option (Ctx → TxCleanupAction → ℤ × Ctx) → Ctx → ℤ × Option ℕ × Ctx
execute_cleanup plan none context = (minus_one, none, context)
execute_cleanup plan (some callback) context =
    let s =
      attempt_all callback plan order
        (record { attempted = 0; first_error = pos 0; context = context }) in
    (s.first_error, some s.attempted, s.context)
