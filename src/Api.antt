-- ===== src/Api.antt =====
-- `flex1500_api_dispatch` of src/api.c over the variables of src/flex1500d.c. Text reads requests and
-- Profile a request's body; Handlers, Session, Dispatch and Receive are the branches of the dispatch.
-- Effect and Refine are about what a dispatch moves, Gates about the station's lease.
pub mod Text
pub mod Handlers
pub mod Session
pub mod Dispatch
pub mod Receive
pub mod Effect
pub mod Refine
pub mod Gates
pub mod Holder
pub mod Takes
pub mod Keying
pub mod Profile
pub mod Tests
use mathlib.Core.Option.{Option, some, none}
use flex1500d.Base.{ℕ, Bool, true, false, List, [], ◌∷◌, ◌==◌, ◌||◌, if◌then◌else◌}
use flex1500d.Base.Ints.{ℤ, pos, negsuc}
use flex1500d.Base.Words.{add64}
use flex1500d.Station.{Station}
use flex1500d.Api.Text.{codes}

pub data ApiAction : Type 0 where
  response open_iq_stream serve_test_page open_tx_stream push_tx_audio : ApiAction
  tuned_rx rx_tune_failed : ApiAction

-- `flex1500_api_controller`. The pointers to the controllers are whether they are set; the daemon
-- sets `tune_control` and `network_tx` together.
pub record ApiController : Type 0 where
  pub rx_tuning_enabled : Bool
  pub iq_stream_active : Bool
  pub test_page_enabled : Bool
  pub rx_mode : List ℕ
  pub rx_bandwidth_hz : ℕ
  pub rx_squelch_db : ℤ
  pub tx_drive_percent : ℕ
  pub tx_microphone_gain_db : ℕ
  pub tx_compressor_enabled : Bool
  pub request_now_ms : ℕ
  pub tune_control : Bool
  pub network_tx : Bool
  pub station_owner : Bool
  pub next_tune_lease : ℕ
  pub next_tx_lease : ℕ
  pub next_station_lease : ℕ

-- What `flex1500_radio_info` tells of the frequency.
pub record RadioInfo : Type 0 where
  pub frequency_known : Bool
  pub frequency_hz : ℕ

-- The action, the status of the response, the lease that the response names, and the outputs
-- `*tuned_frequency` and `*tuned_filter`. A status of 0 is a response that is not written here.
pub record Reply : Type 0 where
  pub action : ApiAction
  pub status : ℕ
  pub lease : ℕ
  pub tuned : Option (ℕ × ℕ)

abbrev pub reply : ℕ → Reply
reply status = record { action = response; status = status; lease = 0; tuned = none }

abbrev pub act : ApiAction → ℕ → Reply
act action status = record { action = action; status = status; lease = 0; tuned = none }

-- What a dispatch works on. The two callbacks work on the radio behind the transmitter's.
pub record Server (Ctx : Type 0) : Type 0 where
  pub api : ApiController
  pub station : Station Ctx
  pub tune_rx : Option (Ctx → ℕ → ℤ × ℕ × Ctx)
  pub set_rx_gain : Option (Ctx → List ℕ → ℤ × Ctx)

abbrev text_is : List ℕ → List ℕ → Bool
text_is [] [] = true
text_is (c ∷ xs) (d ∷ ys) = if c == d then text_is xs ys else false
text_is _ _ = false

unfoldable pub mode_bandwidth : List ℕ → ℕ
mode_bandwidth mode =
    if text_is mode (codes "fm")
    then 12000
    else if text_is mode (codes "usb") || text_is mode (codes "lsb")
    then 2700
    else if text_is mode (codes "cw")
    then 500
    else 6000

unfoldable pub init : Bool → Bool → Bool → ApiController
init rx_tuning_enabled iq_stream_active test_page_enabled = record {
  rx_tuning_enabled = rx_tuning_enabled;
  iq_stream_active = iq_stream_active;
  test_page_enabled = test_page_enabled;
  rx_mode = codes "am";
  rx_bandwidth_hz = 6000;
  rx_squelch_db = negsuc 119;
  tx_drive_percent = 100;
  tx_microphone_gain_db = 10;
  tx_compressor_enabled = false;
  request_now_ms = 0;
  tune_control = false;
  network_tx = false;
  station_owner = false;
  next_tune_lease = 1;
  next_tx_lease = 1;
  next_station_lease = 1;
}

-- `lease = next++; if (lease == 0) lease = next++;` gives the lease and the counter.
unfoldable pub issue_lease : ℕ → ℕ × ℕ
issue_lease next = if next == 0 then (1, 2) else (next, add64 next 1)
