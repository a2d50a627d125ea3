-- ===== src/TxLifecycle/Order.antt =====
-- Carrying out a cleanup plan, as src/tx_lifecycle.c does, against a description by lists.
use Prim.Native.Nat.{bit_or}
use mathlib.Core.Option.{some}
use flex1500d.TxLifecycle.Plan.{has-cleanup_plan}
use flex1500d.Base.{ap, ◌∙◌, ℕ, ◌≡◌, refl, Bool, List, [], ◌∷◌, ◌++◌, if◌then◌else◌, arith}
use flex1500d.Base.Ints.{ℤ, pos, is_zero}
use flex1500d.TxLifecycle.{
  TxCleanupAction, transition_mute, unkey, restore_rx_frequency, transition_unmute, stop_stream,
  reset_pa_filter, disable_amplifier, action_bit, has, order, cleanup_plan, Cleanup, attempt,
  attempt_all, execute_cleanup,
}

-- The planned actions, in the order in which they stand.
abbrev pub planned : ℕ → List TxCleanupAction → List TxCleanupAction
planned plan [] = []
planned plan (a ∷ rest) =
    if has plan (action_bit a) then a ∷ planned plan rest else planned plan rest

-- The first result that is not 0, or 0.
abbrev pub first_nonzero : List ℤ → ℤ
first_nonzero [] = pos 0
first_nonzero (r ∷ rs) = if is_zero r then first_nonzero rs else r

-- The union of the actions' bits.
abbrev pub union : ℕ → List TxCleanupAction → ℕ
union bits [] = bits
union bits (a ∷ rest) = union (bit_or bits (action_bit a)) rest

module _ {Ctx : Type 0} (callback : Ctx → TxCleanupAction → ℤ × Ctx) where
  -- The results of calling the callback for each action in turn.
  abbrev pub results : Ctx → List TxCleanupAction → List ℤ
  results context [] = []
  results context (a ∷ rest) = (callback context a).0 ∷ results (callback context a).1 rest

  -- The context after those calls.
  abbrev pub after : Ctx → List TxCleanupAction → Ctx
  after context [] = context
  after context (a ∷ rest) = after (callback context a).1 rest

  attempt_all_lem :
      (plan : ℕ) (actions : List TxCleanupAction) (s : Cleanup Ctx)
      → attempt_all callback plan actions s ≡ record {
        attempted = union s.attempted (planned plan actions);
        first_error =
            if is_zero s.first_error
            then first_nonzero (results s.context (planned plan actions))
            else s.first_error;
        context = after s.context (planned plan actions);
      }
  unfolding attempt_all attempt
  attempt_all_lem plan [] s = ground arith
  attempt_all_lem plan (a ∷ rest) s =
      ground (arith, attempt_all_lem plan rest (attempt callback plan a s))

  execute_cleanup-planned :
      (plan : ℕ) (context : Ctx)
      → execute_cleanup plan (some callback) context ≡ (
        first_nonzero (results context (planned plan order)),
        some (union 0 (planned plan order)),
        after context (planned plan order),
      )
  unfolding execute_cleanup
  execute_cleanup-planned plan context =
      rw
        (attempt_all_lem plan order
          (record { attempted = 0; first_error = pos 0; context = context }))
        refl

-- The reported bits hold each action exactly if the plan does.
pub has-union :
    (plan : ℕ) (a : TxCleanupAction)
    → has (union 0 (planned plan order)) (action_bit a) ≡ has plan (action_bit a)
has-union plan transition_mute = ground arith
has-union plan a = ground arith

-- Actions, where a test holds.
abbrev pub when : Bool → List TxCleanupAction → List TxCleanupAction
when test actions = if test then actions else []

-- The actions of the bits of a plan: off the air first, then the receive frequency, then the
-- filter and the amplifier, and the stream at the end.
abbrev pub steps : ℕ → List TxCleanupAction
steps plan =
    when (has plan 1) (transition_mute ∷ [])
    ++ (when (has plan 2) (unkey ∷ [])
        ++ (when (has plan 4) (restore_rx_frequency ∷ [])
            ++ (when (has plan 8) (transition_unmute ∷ [])
                ++ (when (has plan 32) (reset_pa_filter ∷ [])
                    ++ (when (has plan 64) (disable_amplifier ∷ [])
                        ++ when (has plan 16) (stop_stream ∷ []))))))

-- What a partial transmission needs: bit 0 is a selected filter, 1 an enabled amplifier, 2 a
-- started stream, 3 and 4 (together the mask 24) a transition and a frequency change, and 5 a key.
abbrev pub needed : ℕ → List TxCleanupAction
needed state =
    when (has state 32) (transition_mute ∷ unkey ∷ [])
    ++ (when (has state 24) (restore_rx_frequency ∷ transition_unmute ∷ [])
        ++ (when (has state 1) (reset_pa_filter ∷ [])
            ++ (when (has state 2) (disable_amplifier ∷ [])
                ++ when (has state 4) (stop_stream ∷ []))))

planned-order : (plan : ℕ) → planned plan order ≡ steps plan
planned-order plan = ground arith

pairs :
    (key change : Bool) (rest : List TxCleanupAction)
    → when key (transition_mute ∷ [])
        ++ (when key (unkey ∷ [])
            ++ (when change (restore_rx_frequency ∷ [])
                ++ (when change (transition_unmute ∷ []) ++ rest)))
      ≡ when key (transition_mute ∷ unkey ∷ [])
        ++ (when change (restore_rx_frequency ∷ transition_unmute ∷ []) ++ rest)
pairs key change rest = ground arith

steps-cleanup_plan : (state : ℕ) → steps (cleanup_plan state) ≡ needed state
steps-cleanup_plan state =
    rw
      (
        has-cleanup_plan state transition_mute,
        has-cleanup_plan state unkey,
        has-cleanup_plan state restore_rx_frequency,
        has-cleanup_plan state transition_unmute,
        has-cleanup_plan state reset_pa_filter,
        has-cleanup_plan state disable_amplifier,
        has-cleanup_plan state stop_stream,
      )
      (pairs (has state 32) (has state 24) _)

module _ {Ctx : Type 0} (callback : Ctx → TxCleanupAction → ℤ × Ctx) where
  -- With a callback, the cleanup of a plan calls it for the actions of the plan's bits and no other,
  -- off the air first and the stream last, also after a call that failed; it returns the first nonzero
  -- result, or 0, and reports the union of these actions' bits. The plan for a partial state, whatever
  -- its other bits, has the actions of an attempted key, of a transition or a frequency change, of a
  -- selected filter, an enabled amplifier and a started stream, and no other.
  pub execute_cleanup_lem :
      (plan state : ℕ) (context : Ctx)
      → (execute_cleanup plan (some callback) context ≡ (
        first_nonzero (results callback context (steps plan)),
        some (union 0 (steps plan)),
        after callback context (steps plan),
      ))
        × (steps (cleanup_plan state) ≡ needed state)
  execute_cleanup_lem plan state context = (
    execute_cleanup-planned callback plan context
        ∙ ap
            (λ k. (
              first_nonzero (results callback context k),
              some (union 0 k),
              after callback context k,
            ))
            (planned-order plan),
    steps-cleanup_plan state,
  )
