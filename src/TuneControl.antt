-- ===== src/TuneControl.antt =====
-- src/tune_control.c with include/flex1500/tune_control.h: the fixed Tune carrier, held by a lease. The struct's
-- `tx_control` points to the controller that the network sessions share, so that a function takes and
-- returns that controller beside its own state; the field says whether the pointer is set.
pub mod Watchdog
pub mod Frame
mod Tests
use flex1500d.Base.{ℕ, Bool, true, false, not, ◌&&◌, ◌||◌, ltb, leb, ◌==◌, if◌then◌else◌}
use flex1500d.Base.Words.{add64, sub64}
use flex1500d.TxControl
use flex1500d.TxControl.{TxControl, TxControlResult, TxOwner, result_ok, owner_eq}

abbrev pub lease_ms : ℕ
lease_ms = 15000

abbrev pub hard_limit_ms : ℕ
hard_limit_ms = 60000

pub data TuneResult : Type 0 where
  ok disabled busy invalid_lease expired hard_limit hardware_error : TuneResult

-- Counters of `uint64_t`.
pub record TxDiagnostics : Type 0 where
  pub starts : ℕ
  pub stops : ℕ
  pub underruns : ℕ
  pub clipped_frames : ℕ
  pub limited_frames : ℕ
  pub dropped_microphone_frames : ℕ
  pub peak_queued_frames : ℕ
  pub stop_requested_frames : ℕ
  pub graceful_drained_frames : ℕ
  pub graceful_discarded_frames : ℕ
  pub graceful_drain_ms : ℕ
  pub rejected_ownership_requests : ℕ
  pub watchdog_stops : ℕ
  pub cleanup_failures : ℕ

pub record TuneControl : Type 0 where
  pub enabled : Bool
  pub active : Bool
  pub lease : ℕ
  pub started_ms : ℕ
  pub renewed_ms : ℕ
  pub tx_control : Bool
  pub diagnostics : TxDiagnostics

abbrev pub no_diagnostics : TxDiagnostics
no_diagnostics = record {
  starts = 0;
  stops = 0;
  underruns = 0;
  clipped_frames = 0;
  limited_frames = 0;
  dropped_microphone_frames = 0;
  peak_queued_frames = 0;
  stop_requested_frames = 0;
  graceful_drained_frames = 0;
  graceful_discarded_frames = 0;
  graceful_drain_ms = 0;
  rejected_ownership_requests = 0;
  watchdog_stops = 0;
  cleanup_failures = 0;
}

unfoldable pub init : Bool → Bool → TuneControl
init enabled tx_control = record {
  enabled = enabled;
  active = false;
  lease = 0;
  started_ms = 0;
  renewed_ms = 0;
  tx_control = tx_control;
  diagnostics = no_diagnostics;
}

-- `++diagnostics.rejected_ownership_requests`, and so on.
abbrev pub count_rejected : TuneControl → TuneControl
count_rejected c = record c {
  diagnostics = record c.diagnostics {
    rejected_ownership_requests = add64 c.diagnostics.rejected_ownership_requests 1;
  };
}

abbrev pub count_cleanup_failure : Bool → TxDiagnostics → TxDiagnostics
count_cleanup_failure failed d =
    if failed then record d { cleanup_failures = add64 d.cleanup_failures 1 } else d

abbrev pub count_stop : Bool → TxDiagnostics → TxDiagnostics
count_stop watchdog d = record d {
  stops = add64 d.stops 1;
  watchdog_stops = if watchdog then add64 d.watchdog_stops 1 else d.watchdog_stops;
}

abbrev pub count_watchdog_stop : TxDiagnostics → TxDiagnostics
count_watchdog_stop d = record d { watchdog_stops = add64 d.watchdog_stops 1 }

abbrev pub is_watchdog : TuneResult → Bool
is_watchdog expired = true
is_watchdog hard_limit = true
is_watchdog _ = false

-- The four fields that a stop clears.
abbrev pub idle : TuneControl → TxDiagnostics → TuneControl
idle c d = record c { active = false; lease = 0; started_ms = 0; renewed_ms = 0; diagnostics = d }

module _ {Ctx : Type 0} where
  -- `flex1500_tx_control_release` on a pointer that may be NULL.
  unfoldable pub release_tune : Bool → TxControl Ctx → TxControlResult × TxControl Ctx
  release_tune set tx =
      if set then TxControl.release tx TxOwner.tune else (TxControlResult.disabled, tx)

  unfoldable pub stop_active :
      TuneControl → TxControl Ctx → TuneResult → TuneResult × TuneControl × TxControl Ctx
  stop_active c tx reason =
      let (callback_result, tx') = release_tune c.tx_control tx in
      if not c.active then (reason, c, tx) else (
        if result_ok callback_result then reason else hardware_error,
        idle c (
            count_cleanup_failure (not (result_ok callback_result))
              (count_stop (is_watchdog reason) c.diagnostics)),
        tx',
      )

  -- `start` behind its guards.
  unfoldable pub start_carrier :
      TuneControl → TxControl Ctx → ℕ → ℕ → TuneResult × TuneControl × TxControl Ctx
  start_carrier c tx now_ms lease =
      let (start_result, tx') = TxControl.request tx TxOwner.tune now_ms in
      if not (result_ok start_result)
      then (
        elim start_result [ TxControlResult.busy ↦ busy | _ ↦ hardware_error ],
        record c { diagnostics = count_cleanup_failure tx'.cleanup_failed c.diagnostics },
        tx',
      )
      else (
        ok,
        record c {
          active = true;
          lease = lease;
          started_ms = now_ms;
          renewed_ms = now_ms;
          diagnostics = record c.diagnostics { starts = add64 c.diagnostics.starts 1 };
        },
        tx',
      )

  unfoldable pub start :
      TuneControl → TxControl Ctx → ℕ → ℕ → TuneResult × TuneControl × TxControl Ctx
  start c tx now_ms lease =
      if not c.enabled
      then (disabled, c, tx)
      else if c.active
      then (busy, count_rejected c, tx)
      else if lease == 0 || not c.tx_control
      then (invalid_lease, c, tx)
      else start_carrier c tx now_ms lease

  unfoldable pub keepalive :
      TuneControl → TxControl Ctx → ℕ → ℕ → TuneResult × TuneControl × TxControl Ctx
  keepalive c tx now_ms lease =
      if not c.enabled
      then (disabled, c, tx)
      else if not c.active || lease == 0 || not (lease == c.lease)
      then (invalid_lease, count_rejected c, tx)
      else if leb hard_limit_ms (sub64 now_ms c.started_ms)
      then stop_active c tx hard_limit
      else if leb lease_ms (sub64 now_ms c.renewed_ms)
      then stop_active c tx expired
      else (ok, record c { renewed_ms = now_ms }, tx)

  unfoldable pub stop : TuneControl → TxControl Ctx → ℕ → TuneResult × TuneControl × TxControl Ctx
  stop c tx lease =
      if not c.enabled
      then (disabled, c, tx)
      else if not c.active || lease == 0 || not (lease == c.lease)
      then (invalid_lease, count_rejected c, tx)
      else stop_active c tx ok

  unfoldable pub tick : TuneControl → TxControl Ctx → ℕ → TuneResult × TuneControl × TxControl Ctx
  tick c tx now_ms =
      if not c.enabled
      then (disabled, c, tx)
      else if not c.active
      then (ok, c, tx)
      else if leb hard_limit_ms (sub64 now_ms c.started_ms)
      then stop_active c tx hard_limit
      else if leb lease_ms (sub64 now_ms c.renewed_ms)
      then stop_active c tx expired
      else (ok, c, tx)

  unfoldable pub reconcile : TuneControl → TxControl Ctx → Bool → TuneControl
  reconcile c tx watchdog_stop =
      if not c.active || not c.tx_control || owner_eq tx.owner TxOwner.tune
      then c
      else idle c (count_stop watchdog_stop c.diagnostics)

  unfoldable pub shutdown : TuneControl → TxControl Ctx → TuneControl × TxControl Ctx
  shutdown c tx = let (r, c', tx') = stop_active c tx ok in if c.active then (c', tx') else (c, tx)

unfoldable pub record_underrun : TuneControl → ℕ → TuneControl
record_underrun c count = record c {
  diagnostics = record c.diagnostics { underruns = add64 c.diagnostics.underruns count };
}

unfoldable pub record_audio_quality : TuneControl → ℕ → ℕ → ℕ → TuneControl
record_audio_quality c clipped limited dropped = record c {
  diagnostics = record c.diagnostics {
    clipped_frames = add64 c.diagnostics.clipped_frames clipped;
    limited_frames = add64 c.diagnostics.limited_frames limited;
    dropped_microphone_frames = add64 c.diagnostics.dropped_microphone_frames dropped;
  };
}

unfoldable pub record_graceful_drain : TuneControl → ℕ → ℕ → ℕ → ℕ → ℕ → TuneControl
record_graceful_drain c peak_queued stop_requested drained discarded drain_ms = record c {
  diagnostics = record c.diagnostics {
    peak_queued_frames =
        if ltb c.diagnostics.peak_queued_frames peak_queued
        then peak_queued
        else c.diagnostics.peak_queued_frames;
    stop_requested_frames = add64 c.diagnostics.stop_requested_frames stop_requested;
    graceful_drained_frames = add64 c.diagnostics.graceful_drained_frames drained;
    graceful_discarded_frames = add64 c.diagnostics.graceful_discarded_frames discarded;
    graceful_drain_ms = add64 c.diagnostics.graceful_drain_ms drain_ms;
  };
}

unfoldable pub record_cleanup_failure : TuneControl → TuneControl
record_cleanup_failure c = record c { diagnostics = count_cleanup_failure true c.diagnostics }
