-- ===== src/Api/Handlers.antt =====
-- The transmitter's state and the station lease, as `flex1500_api_dispatch` uses them.
use mathlib.Core.Option.{some, none}
use flex1500d.Base.{ℕ, Bool, true, false, List, ◌&&◌, not, if◌then◌else◌}
use flex1500d.TxControl.{TxOwner, owner_eq}
use flex1500d.StationOwner
use flex1500d.StationOwner.{StationOwnerResult}
use flex1500d.Api.{Reply, reply, Server, issue_lease}
use flex1500d.Api.Text.{codes, begins_caseless, request_header, control_lease}

unfoldable pub owner_status : Bool → StationOwnerResult → ℕ
owner_status created StationOwnerResult.ok = if created then 201 else 200
owner_status created StationOwnerResult.busy = 409
owner_status created _ = 410

-- A missing header counts as aware.
unfoldable pub asks_mode_aware : List ℕ → Bool
asks_mode_aware request = elim (request_header request (codes "X-Flex1500-Mode-Aware")) [
  | none ↦ true
  | some value ↦ not (begins_caseless (codes "false") value)
]

-- The lease of the header, or 0.
unfoldable pub header_lease : List ℕ → ℕ
header_lease request = elim (control_lease request) [ none ↦ 0 | some lease ↦ lease ]

module _ {Ctx : Type 0} where
  unfoldable pub transmitter_active : Server Ctx → Bool
  transmitter_active v =
      v.api.tune_control
      && v.station.tune.tx_control
      && not (owner_eq v.station.tx.owner TxOwner.none)

  unfoldable pub station_request_authorized : Server Ctx → List ℕ → Bool
  station_request_authorized v request =
      if not v.api.station_owner
      then true
      else if not v.station.station.held
      then false
      else elim (control_lease request) [
        | none ↦ false
        | some lease ↦ StationOwner.matches v.station.station lease
      ]

  unfoldable pub acquire_owner : List ℕ → Server Ctx → Reply × Server Ctx
  acquire_owner request v =
      let (lease, next) = issue_lease v.api.next_station_lease in
      let (result, station) =
        StationOwner.acquire_with_mode v.station.station lease v.api.request_now_ms
          (asks_mode_aware request) in
      (
        record (reply (owner_status true result)) { lease = lease },
        record v {
          api = record v.api { next_station_lease = next };
          station = record v.station { station = station };
        },
      )

  unfoldable pub keep_owner : List ℕ → Server Ctx → Reply × Server Ctx
  keep_owner request v =
      let (result, station) =
        StationOwner.keepalive v.station.station (header_lease request) v.api.request_now_ms in
      (
        record (reply (owner_status false result)) { lease = header_lease request },
        record v { station = record v.station { station = station } },
      )

  unfoldable pub release_owner : List ℕ → Server Ctx → Reply × Server Ctx
  release_owner request v =
      let (result, station) = StationOwner.release v.station.station (header_lease request) in
      if transmitter_active v then (reply 409, v) else (
        record (reply (owner_status false result)) { lease = header_lease request },
        record v { station = record v.station { station = station } },
      )
