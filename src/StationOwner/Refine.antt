-- ===== src/StationOwner/Refine.antt =====
-- The station owner of src/station_owner.c implements a lease: nobody, or one lease with the time of its
-- last renewal.
use mathlib.Core.Option.{Option, none, some}
use flex1500d.Base.{ℕ, ◌+◌, ◌^◌, ◌≤◌, ◌<◌, ◌≡◌, ◌≢◌, Bool, true, leb, ◌==◌, if◌then◌else◌, arith}
use flex1500d.StationOwner.{
  StationOwner, StationOwnerResult, ok, busy, stale, invalid, expired, lease_ms, matches,
  acquire_with_mode, keepalive, release, tick,
}

-- Who holds the station: the lease, whether the holder knows modes, and the last renewal.
pub record Holder : Type 0 where
  pub lease : ℕ
  pub mode_aware : Bool
  pub renewed_ms : ℕ

pub data Call : Type 0 where
  acquires : (lease now_ms : ℕ) → (mode_aware : Bool) → Call
  keeps : (lease now_ms : ℕ) → Call
  releases : (lease : ℕ) → Call
  ticks : (now_ms : ℕ) → Call

unfoldable pub step : StationOwner → Call → StationOwnerResult × StationOwner
step o (acquires lease now aware) = acquire_with_mode o lease now aware
step o (keeps lease now) = keepalive o lease now
step o (releases lease) = release o lease
step o (ticks now) = tick o now

-- The clock value that a call carries.
abbrev pub now_of : ℕ → Call → ℕ
now_of before (acquires lease now aware) = now
now_of before (keeps lease now) = now
now_of before (releases lease) = before
now_of before (ticks now) = now

-- The lease as it should be: only the holder's own lease renews or releases it, a second client is
-- told that the station is busy, and it runs out `lease_ms` after the last renewal.
abbrev pub lease_step : Option Holder → Call → StationOwnerResult × Option Holder
lease_step h (acquires lease now aware) = if lease == 0 then (invalid, h) else elim h [
  | none ↦ (ok, some (record { lease = lease; mode_aware = aware; renewed_ms = now }))
  | some x ↦ (busy, some x)
]
lease_step h (keeps lease now) = elim h [
  | none ↦ (stale, none)
  | some x ↦
      if x.lease == lease then (ok, some (record x { renewed_ms = now })) else (stale, some x)
]
lease_step h (releases lease) = elim h [
  | none ↦ (stale, none)
  | some x ↦ if x.lease == lease then (ok, none) else (stale, some x)
]
lease_step h (ticks now) = elim h [
  | none ↦ (ok, none)
  | some x ↦ if leb (x.renewed_ms + lease_ms) now then (expired, none) else (ok, some x)
]

-- Forget the representation.
abbrev pub view : StationOwner → Option Holder
view o =
    if o.held
    then some (record { lease = o.lease; mode_aware = o.mode_aware; renewed_ms = o.renewed_ms })
    else none

-- A held station has a lease other than 0, and was renewed no later than `now`.
pub record IsValid (now : ℕ) (o : StationOwner) : Type 0 where
  pub leased : o.held ≡ true → o.lease ≢ 0
  pub past : o.held ≡ true → o.renewed_ms ≤ now

-- On a 64-bit clock that does not go back, every call on a valid owner returns what the lease
-- returns, leaves the owner that stands for the lease's next state, and keeps it valid.
pub step-lease_step :
    (o : StationOwner) (k : Call) (before : ℕ)
    → IsValid before o
    → before ≤ now_of before k
    → now_of before k < 2 ^ 64
    → ((step o k).0 ≡ (lease_step (view o) k).0)
      × (view (step o k).1 ≡ (lease_step (view o) k).1)
      × IsValid (now_of before k) (step o k).1
unfolding step acquire_with_mode keepalive release tick
step-lease_step o (acquires lease now aware) before v le fit = ground arith
step-lease_step o (keeps lease now) before v le fit = ground arith
step-lease_step o (releases lease) before v le fit = ground arith
step-lease_step o (ticks now) before v le fit = ground arith

-- While `lease` holds the station and `now` is less than `lease_ms` after its last renewal, no call with another
-- lease, and no tick, takes the station away or renews it.
pub step_others :
    (o : StationOwner) (before lease other now : ℕ) (aware : Bool)
    → IsValid before o
    → matches o lease ≡ true
    → other ≢ lease
    → before ≤ now
    → now < o.renewed_ms + lease_ms
    → now < 2 ^ 64
    → ((step o (acquires other now aware)).1 ≡ o)
      × ((step o (keeps other now)).1 ≡ o)
      × ((step o (releases other)).1 ≡ o)
      × ((step o (ticks now)).1 ≡ o)
unfolding step matches acquire_with_mode keepalive release tick
step_others o before lease other now aware v mine differs le short fit = ground arith
