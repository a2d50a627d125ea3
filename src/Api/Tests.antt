-- ===== src/Api/Tests.antt =====
-- Requests to the dispatch, and its theorems there.
use mathlib.Core.Option.{none}
use flex1500d.Base.{◌⊎◌, ℕ, ◌≡◌, refl, Bool, true, false, List, ◌++◌}
use flex1500d.Base.Ints.{pos}
use flex1500d.StationOwner
use flex1500d.TxControl
use flex1500d.TxControl.{TxOwner}
use flex1500d.TuneControl
use flex1500d.NetworkTx
use flex1500d.Protocol.Bands.{
  tune_frequency_allowed, physical_mic_frequency_allowed, in_allocations,
}
use flex1500d.Requests.{after, first, is_digit}
use flex1500d.Station.{start_up}
use flex1500d.Api
use flex1500d.Api.{issue_lease, ApiController, RadioInfo, Reply, Server, reply}
use flex1500d.Api.Text
use flex1500d.Api.Text.{codes}
use flex1500d.Api.Profile.{Scan}
use flex1500d.Api.Handlers
use flex1500d.Api.Receive
use flex1500d.Api.Dispatch
use flex1500d.Api.Receive.{dispatch}
use flex1500d.Api.Takes.{Changes}
use flex1500d.Api.Keying.{dispatch-Changes}
use flex1500d.Api.Gates.{unauthorized_untouched}

abbrev pub no_scan : Scan
no_scan = record { word = λ l t. none; name = λ l t. none; number = λ l t. none }

abbrev pub on_20m : RadioInfo
on_20m = record { frequency_known = true; frequency_hz = 14200000 }

-- The station is held under lease 7.
abbrev held : Server Bool
held = record {
  api = record (Api.init true true false) {
    tune_control = true;
    network_tx = true;
    station_owner = true;
    request_now_ms = 5000;
  };
  station = record (start_up true false (λ on o. (pos 0, true)) (λ on o g. (pos 0, false))) {
    station = record { held = true; mode_aware = true; lease = 7; renewed_ms = 4000 };
  };
  tune_rx = none;
  set_rx_gain = none;
}

abbrev pub line : List ℕ → List ℕ
line text = text ++ Text.line_end

abbrev tune_with : List ℕ → List ℕ
tune_with lease =
    line (codes "PUT /v1/radio/tune/start HTTP/1.1")
    ++ line (codes "x-flex1500-control-lease: " ++ lease)
    ++ Text.line_end

unauthorized : Handlers.station_request_authorized held (tune_with (codes "8")) ≡ false
unfolding Handlers.station_request_authorized Api.init start_up StationOwner.matches
    Text.control_lease Text.request_header Text.header_in Text.line_starts Text.header_value
    Text.skip_blank Text.begins Text.find Text.after_caseless Text.strtoull Text.signed
    Text.unsigned Text.digits Text.skip_space after first is_digit
unauthorized = refl

authorized : Handlers.station_request_authorized held (tune_with (codes "7")) ≡ true
unfolding Handlers.station_request_authorized Api.init start_up StationOwner.matches
    Text.control_lease Text.request_header Text.header_in Text.line_starts Text.header_value
    Text.skip_blank Text.begins Text.find Text.after_caseless Text.strtoull Text.signed
    Text.unsigned Text.digits Text.skip_space after first is_digit
authorized = refl

unauthorized_untouched_example :
    ((dispatch no_scan on_20m (tune_with (codes "8")) held).1.station.tx ≡ held.station.tx)
    × ((dispatch no_scan on_20m (tune_with (codes "8")) held).1.station.tune ≡ held.station.tune)
    × ((dispatch no_scan on_20m (tune_with (codes "8")) held).1.station.net ≡ held.station.net)
unauthorized_untouched_example =
    unauthorized_untouched no_scan on_20m (tune_with (codes "8")) held unauthorized

-- The holder's request is authorized, and changes the owner as its text asks for.
dispatch-Changes_example :
    ((dispatch no_scan on_20m (tune_with (codes "7")) held).1.station.tx.owner
      ≡ held.station.tx.owner)
    ⊎ ((Handlers.station_request_authorized held (tune_with (codes "7")) ≡ true)
        × Changes on_20m
            (tune_with (codes "7"))
            held
            (dispatch no_scan on_20m (tune_with (codes "7")) held).1.station.tx.owner)
dispatch-Changes_example = dispatch-Changes on_20m (tune_with (codes "7")) held no_scan

-- The holder's request starts Tune, on the owner's first lease.
holder_tunes :
    ((dispatch no_scan on_20m (tune_with (codes "7")) held).0.status ≡ 200)
    × ((dispatch no_scan on_20m (tune_with (codes "7")) held).0.lease ≡ 1)
    × ((dispatch no_scan on_20m (tune_with (codes "7")) held).1.station.tx.owner ≡ TxOwner.tune)
unfolding Handlers.station_request_authorized Api.init start_up StationOwner.matches
    Text.control_lease Text.request_header Text.header_in Text.line_starts Text.header_value
    Text.skip_blank Text.begins Text.find Text.after_caseless Text.strtoull Text.signed
    Text.unsigned Text.digits Text.skip_space after first is_digit dispatch Receive.route
    Dispatch.owner_path Dispatch.station_controlled Text.request_is Dispatch.tune_request
    Dispatch.tune_start Dispatch.tune_status issue_lease tune_frequency_allowed
    physical_mic_frequency_allowed in_allocations TuneControl.start TuneControl.start_carrier
    TuneControl.init NetworkTx.init TxControl.init TxControl.arm_physical_ptt TxControl.request
    TxControl.key TxControl.call_start TxControl.call_stop TxControl.valid_owner
holder_tunes = (refl, refl, refl)
