-- ===== src/TxLifecycle/Plan.antt =====
-- The cleanup plan of src/tx_lifecycle.c, for every combination of partial-state bits.
use Prim.Native.Nat.{bit_or}
use flex1500d.Base.{ℕ, ◌≡◌, arith}
use flex1500d.TxLifecycle.{
  pa_selected, amp_enable_attempted, stream_started, transition_attempted, frequency_attempted,
  key_attempted, TxCleanupAction, transition_mute, unkey, restore_rx_frequency, transition_unmute,
  stop_stream, reset_pa_filter, disable_amplifier, action_bit, has, cleanup_plan,
}

-- What each action undoes.
abbrev pub undoes : TxCleanupAction → ℕ
undoes transition_mute = key_attempted
undoes unkey = key_attempted
undoes restore_rx_frequency = bit_or transition_attempted frequency_attempted
undoes transition_unmute = bit_or transition_attempted frequency_attempted
undoes stop_stream = stream_started
undoes reset_pa_filter = pa_selected
undoes disable_amplifier = amp_enable_attempted

-- The plan for a partial state, whatever its other bits, holds an action exactly if the state has a
-- bit of what the action undoes: mute and unkey for an attempted key, frequency restore and unmute
-- for an attempted transition or frequency change, and stop, filter reset and amplifier disable
-- for a started stream, a selected filter and an attempted amplifier enable.
pub has-cleanup_plan :
    (state : ℕ) (action : TxCleanupAction)
    → has (cleanup_plan state) (action_bit action) ≡ has state (undoes action)
unfolding cleanup_plan
has-cleanup_plan state transition_mute = ground arith
has-cleanup_plan state action = ground arith
