-- ===== src/TxControl/Calls.antt =====
-- The calls that src/flex1500d.c and the Tune and network sessions make of src/tx_control.c, in any
-- order: each is one step of the controller. Results are dropped; the theorems on them are apart.
use flex1500d.Base.{ℕ, Bool, List, [], ◌∷◌}
use flex1500d.TxControl.{
  TxOwner, TxControl, arm_physical_ptt, request, release, release_graceful, physical_ptt, tick,
  shutdown, set_timeout_seconds,
}

pub data Call : Type 0 where
  arm : Call
  requests : TxOwner → (now_ms : ℕ) → Call
  releases : TxOwner → Call
  releases_graceful : TxOwner → Call
  ptt : (pressed : Bool) → (now_ms : ℕ) → Call
  ticks : (now_ms : ℕ) → Call
  shuts_down : Call
  sets_timeout : (seconds : ℕ) → Call

unfoldable pub step : {Ctx : Type 0} → TxControl Ctx → Call → TxControl Ctx
step c arm = arm_physical_ptt c
step c (requests o now) = (request c o now).1
step c (releases o) = (release c o).1
step c (releases_graceful o) = (release_graceful c o).1
step c (ptt pressed now) = (physical_ptt c pressed now).1
step c (ticks now) = (tick c now).1
step c shuts_down = shutdown c
step c (sets_timeout seconds) = (set_timeout_seconds c seconds).1

unfoldable pub run : {Ctx : Type 0} → TxControl Ctx → List Call → TxControl Ctx
run c [] = c
run c (k ∷ ks) = run (step c k) ks
