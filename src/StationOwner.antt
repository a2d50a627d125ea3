-- ===== src/StationOwner.antt =====
-- src/station_owner.c with include/flex1500/station_owner.h: the lease of the one network client
-- that controls the station. A function that changes `*owner` returns its result beside the owner.
pub mod Refine
mod Tests
use flex1500d.Base.{ℕ, ◌^◌, Bool, true, false, not, ◌&&◌, ltb, ◌==◌, if◌then◌else◌}
use flex1500d.Base.Words.{sub64}

abbrev pub lease_ms : ℕ
lease_ms = 15000

pub data StationOwnerResult : Type 0 where
  ok busy stale invalid expired : StationOwnerResult

pub record StationOwner : Type 0 where
  pub held : Bool
  pub mode_aware : Bool
  pub lease : ℕ
  pub renewed_ms : ℕ

-- `memset(owner, 0, sizeof(*owner))`
unfoldable pub init : StationOwner
init = record { held = false; mode_aware = false; lease = 0; renewed_ms = 0 }

unfoldable pub matches : StationOwner → ℕ → Bool
matches o lease = o.held && not (lease == 0) && o.lease == lease

unfoldable pub acquire_with_mode : StationOwner → ℕ → ℕ → Bool → StationOwnerResult × StationOwner
acquire_with_mode o lease now_ms mode_aware =
    if lease == 0
    then (invalid, o)
    else if o.held
    then (busy, o)
    else (ok, record { held = true; mode_aware = mode_aware; lease = lease; renewed_ms = now_ms })

unfoldable pub acquire : StationOwner → ℕ → ℕ → StationOwnerResult × StationOwner
unfolding acquire_with_mode
acquire o lease now_ms = acquire_with_mode o lease now_ms true

unfoldable pub keepalive : StationOwner → ℕ → ℕ → StationOwnerResult × StationOwner
unfolding matches
keepalive o lease now_ms =
    if not (matches o lease) then (stale, o) else (ok, record o { renewed_ms = now_ms })

unfoldable pub release : StationOwner → ℕ → StationOwnerResult × StationOwner
unfolding matches init
release o lease = if not (matches o lease) then (stale, o) else (ok, init)

unfoldable pub tick : StationOwner → ℕ → StationOwnerResult × StationOwner
unfolding init
tick o now_ms =
    if not o.held
    then (ok, o)
    else if ltb (sub64 now_ms o.renewed_ms) lease_ms
    then (ok, o)
    else (expired, init)
