-- ===== src/StationOwner/Tests.antt =====
-- Runs of src/station_owner.c, and its theorems at those inputs.
use flex1500d.Base.{◌≡◌, refl, true, false, arith}
use flex1500d.StationOwner.{StationOwner, ok, expired, init, matches, acquire, tick}
use flex1500d.StationOwner.Refine.{
  IsValid, acquires, keeps, releases, ticks, step, lease_step, view, step-lease_step, step_others,
}

-- Lease 7 has held the station since time 100.
abbrev held_by_seven : StationOwner
held_by_seven = record { held = true; mode_aware = true; lease = 7; renewed_ms = 100 }

acquired : acquire init 7 100 ≡ (ok, held_by_seven)
unfolding acquire init
acquired = refl

runs_out : tick held_by_seven 15100 ≡ (expired, init)
unfolding tick
runs_out = refl

step-lease_step_example :
    ((step held_by_seven (acquires 8 200 true)).0
      ≡ (lease_step (view held_by_seven) (acquires 8 200 true)).0)
    × (view (step held_by_seven (acquires 8 200 true)).1
        ≡ (lease_step (view held_by_seven) (acquires 8 200 true)).1)
    × IsValid 200 (step held_by_seven (acquires 8 200 true)).1
step-lease_step_example =
    step-lease_step held_by_seven (acquires 8 200 true) 150 (ground arith) (omega arith)
      (omega arith)

step_others_example :
    ((step held_by_seven (acquires 8 200 false)).1 ≡ held_by_seven)
    × ((step held_by_seven (keeps 8 200)).1 ≡ held_by_seven)
    × ((step held_by_seven (releases 8)).1 ≡ held_by_seven)
    × ((step held_by_seven (ticks 200)).1 ≡ held_by_seven)
unfolding matches
step_others_example =
    step_others held_by_seven 150 7 8 200 false (ground arith) refl (omega arith) (omega arith)
      (omega arith) (omega arith)
