-- ===== src/TxLifecycle/Tests.antt =====
-- Runs of src/tx_lifecycle.c on concrete plans, and its theorems at those inputs.
use mathlib.Core.Option.{some, none}
use flex1500d.Base.{ℕ, ◌≡◌, refl, List, [], ◌∷◌, ◌++◌}
use flex1500d.Base.Ints.{ℤ, pos, negsuc, minus_one}
use flex1500d.TxLifecycle.{
  TxCleanupAction, transition_mute, unkey, restore_rx_frequency, transition_unmute, reset_pa_filter,
  action_bit, order, has, cleanup_plan, execute_cleanup, attempt, attempt_all,
}
use flex1500d.TxLifecycle.Plan.{undoes, has-cleanup_plan}
use flex1500d.TxLifecycle.Order.{planned, union, steps, execute_cleanup_lem, has-union}

-- A callback that logs its calls, and fails with -5 to unkey.
abbrev logging : List TxCleanupAction → TxCleanupAction → ℤ × List TxCleanupAction
logging log unkey = (negsuc 4, log ++ unkey ∷ [])
logging log a = (pos 0, log ++ a ∷ [])

-- A key was attempted after a transition: mute, unkey, restore and unmute, in this order.
key_plan : cleanup_plan 40 ≡ 15
unfolding cleanup_plan
key_plan = refl

cleanup_order :
    execute_cleanup 15 (some logging) []
    ≡ (negsuc 4, some 15, transition_mute ∷ unkey ∷ restore_rx_frequency ∷ transition_unmute ∷ [])
unfolding execute_cleanup attempt attempt_all
cleanup_order = refl

no_callback : execute_cleanup {Ctx = ℕ} 15 none 0 ≡ (minus_one, none, 0)
unfolding execute_cleanup
no_callback = refl

has-cleanup_plan_example : has (cleanup_plan 40) (action_bit unkey) ≡ has 40 (undoes unkey)
has-cleanup_plan_example = has-cleanup_plan 40 unkey

execute_cleanup_example :
    (execute_cleanup 3 (some logging) [] ≡ (negsuc 4, some 3, transition_mute ∷ unkey ∷ []))
    × (steps (cleanup_plan 41)
        ≡ transition_mute ∷ unkey ∷ restore_rx_frequency ∷ transition_unmute ∷ reset_pa_filter ∷ [])
execute_cleanup_example = execute_cleanup_lem logging 3 41 []

has-union_example : has (union 0 (planned 3 order)) (action_bit unkey) ≡ has 3 (action_bit unkey)
has-union_example = has-union 3 unkey
