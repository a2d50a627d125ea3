-- ===== src/NetworkTx.antt =====
-- src/network_tx.c with include/flex1500/network_tx.h: a leased session that feeds audio or I/Q over the network and keys
-- the transmitter as the owner `http`. The struct's `tx_control` points to the shared controller,
-- which each function takes and returns beside the session; the field says whether it is set.
pub mod Link
pub mod Frame
mod Tests
use flex1500d.Base.{ℕ, ◌+◌, ◌-◌, Bool, true, false, not, ◌&&◌, ◌||◌, ltb, leb, ◌==◌, if◌then◌else◌}
use flex1500d.Base.Words.{sub64}
use flex1500d.TxControl
use flex1500d.TxControl.{TxControl, TxControlResult, TxOwner, result_ok, owner_eq}

abbrev pub lease_ms : ℕ
lease_ms = 15000

abbrev pub min_prebuffer_frames : ℕ
min_prebuffer_frames = 4096

-- `FLEX1500_TX_MIN_DRIVE_PERCENT` and `_MAX_` of include/flex1500/tx_limits.h
abbrev pub min_drive_percent : ℕ
min_drive_percent = 1

abbrev pub max_drive_percent : ℕ
max_drive_percent = 100

pub data NetworkTxSource : Type 0 where
  audio iq : NetworkTxSource

pub data NetworkTxMode : Type 0 where
  usb lsb am iq_mode : NetworkTxMode

pub record NetworkTxProfile : Type 0 where
  pub mode : NetworkTxMode
  pub source : NetworkTxSource
  pub drive_percent : ℕ
  pub sample_rate : ℕ

pub data NetworkTxResult : Type 0 where
  ok disabled busy invalid stale not_ready hardware_error expired : NetworkTxResult

pub record NetworkTx : Type 0 where
  pub enabled : Bool
  pub reserved : Bool
  pub stream_connected : Bool
  pub keyed : Bool
  pub lease : ℕ
  pub renewed_ms : ℕ
  pub last_data_ms : ℕ
  pub buffered_frames : ℕ
  pub profile : NetworkTxProfile
  pub tx_control : Bool

-- The profile whose bytes are all 0.
abbrev pub zero_profile : NetworkTxProfile
zero_profile = record { mode = usb; source = audio; drive_percent = 0; sample_rate = 0 }

-- Audio goes with usb, lsb and am, and I/Q with the mode of its own.
abbrev pub source_fits : NetworkTxSource → NetworkTxMode → Bool
source_fits audio usb = true
source_fits audio lsb = true
source_fits audio am = true
source_fits iq iq_mode = true
source_fits _ _ = false

unfoldable pub valid_profile : NetworkTxProfile → Bool
valid_profile p =
    if ltb p.drive_percent min_drive_percent
      || ltb max_drive_percent p.drive_percent
      || not (p.sample_rate == 48000)
    then false
    else source_fits p.source p.mode

unfoldable pub owns : NetworkTx → ℕ → Bool
owns s lease = s.reserved && not (lease == 0) && s.lease == lease

unfoldable pub init : Bool → Bool → NetworkTx
init enabled tx_control = record {
  enabled = enabled;
  reserved = false;
  stream_connected = false;
  keyed = false;
  lease = 0;
  renewed_ms = 0;
  last_data_ms = 0;
  buffered_frames = 0;
  profile = zero_profile;
  tx_control = tx_control;
}

-- `memset` but for the two fields that are put back.
unfoldable pub clear_session : NetworkTx → NetworkTx
clear_session s = record {
  enabled = s.enabled;
  reserved = false;
  stream_connected = false;
  keyed = false;
  lease = 0;
  renewed_ms = 0;
  last_data_ms = 0;
  buffered_frames = 0;
  profile = zero_profile;
  tx_control = s.tx_control;
}

unfoldable pub keepalive : NetworkTx → ℕ → ℕ → NetworkTxResult × NetworkTx
keepalive s lease now_ms =
    if not (owns s lease) then (stale, s) else (ok, record s { renewed_ms = now_ms })

unfoldable pub attach_stream : NetworkTx → ℕ → ℕ → NetworkTxResult × NetworkTx
attach_stream s lease now_ms =
    if not (owns s lease)
    then (stale, s)
    else if s.stream_connected
    then (busy, s)
    else (ok, record s { stream_connected = true; buffered_frames = 0; last_data_ms = now_ms })

-- `room` is computed only where it is positive, and the sum is at most the prebuffer.
abbrev pub add_buffered : ℕ → ℕ → ℕ
add_buffered buffered frames =
    if ltb buffered min_prebuffer_frames
    then buffered
      + (if ltb frames (min_prebuffer_frames - buffered)
          then frames
          else min_prebuffer_frames - buffered)
    else buffered

unfoldable pub record_data : NetworkTx → ℕ → ℕ → ℕ → NetworkTxResult × NetworkTx
record_data s lease frames now_ms =
    if not (owns s lease)
    then (stale, s)
    else if not s.stream_connected || frames == 0
    then (invalid, s)
    else (
      ok,
      record s { buffered_frames = add_buffered s.buffered_frames frames; last_data_ms = now_ms },
    )

abbrev pub stop_result : TxControlResult → NetworkTxResult
stop_result r = if result_ok r then ok else hardware_error

abbrev pub is_ok : NetworkTxResult → Bool
is_ok ok = true
is_ok _ = false

module _ {Ctx : Type 0} where
  -- `flex1500_tx_control_release`, or `_release_graceful`, on a pointer that may be NULL.
  unfoldable pub release_http : Bool → Bool → TxControl Ctx → TxControlResult × TxControl Ctx
  release_http graceful set tx =
      if not set
      then (TxControlResult.disabled, tx)
      else if graceful
      then TxControl.release_graceful tx TxOwner.http
      else TxControl.release tx TxOwner.http

  unfoldable pub stop_if_keyed :
      NetworkTx → TxControl Ctx → NetworkTxResult × NetworkTx × TxControl Ctx
  stop_if_keyed s tx =
      let (result, tx') = release_http false s.tx_control tx in
      if not s.keyed then (ok, s, tx) else (stop_result result, record s { keyed = false }, tx')

  unfoldable pub acquire :
      NetworkTx → TxControl Ctx → NetworkTxProfile → ℕ → ℕ → NetworkTxResult × NetworkTx
  acquire s tx profile lease now_ms =
      if not s.enabled || not s.tx_control || not tx.enabled
      then (disabled, s)
      else if not (valid_profile profile) || lease == 0
      then (invalid, s)
      else if s.reserved || not (owner_eq tx.owner TxOwner.none)
      then (busy, s)
      else (
        ok,
        record s {
          reserved = true;
          lease = lease;
          renewed_ms = now_ms;
          last_data_ms = now_ms;
          profile = profile;
        },
      )

  -- `ptt_start` behind its guards.
  unfoldable pub key : NetworkTx → TxControl Ctx → ℕ → NetworkTxResult × NetworkTx × TxControl Ctx
  key s tx now_ms =
      let (result, tx') = TxControl.request tx TxOwner.http now_ms in
      elim result [
        | TxControlResult.busy ↦ (busy, s, tx')
        | TxControlResult.ok ↦ (ok, record s { keyed = true; renewed_ms = now_ms }, tx')
        | _ ↦ (hardware_error, s, tx')
      ]

  unfoldable pub ptt_start :
      NetworkTx → TxControl Ctx → ℕ → ℕ → NetworkTxResult × NetworkTx × TxControl Ctx
  ptt_start s tx lease now_ms =
      if not (owns s lease)
      then (stale, s, tx)
      else if not s.stream_connected || ltb s.buffered_frames min_prebuffer_frames
      then (not_ready, s, tx)
      else if s.keyed
      then (ok, s, tx)
      else key s tx now_ms

  unfoldable pub ptt_stop :
      NetworkTx → TxControl Ctx → ℕ → NetworkTxResult × NetworkTx × TxControl Ctx
  ptt_stop s tx lease =
      let (stopped, tx') = release_http true s.tx_control tx in
      if not (owns s lease)
      then (stale, s, tx)
      else if s.keyed
      then (stop_result stopped, record s { keyed = false; buffered_frames = 0 }, tx')
      else (ok, s, tx)

  unfoldable pub release :
      NetworkTx → TxControl Ctx → ℕ → NetworkTxResult × NetworkTx × TxControl Ctx
  release s tx lease =
      let (result, s', tx') = stop_if_keyed s tx in
      if not (owns s lease) then (stale, s, tx) else (result, clear_session s', tx')

  unfoldable pub disconnect_stream :
      NetworkTx → TxControl Ctx → NetworkTxResult × NetworkTx × TxControl Ctx
  disconnect_stream s tx =
      let (result, s', tx') = stop_if_keyed s tx in
      if not s.reserved
      then (ok, s, tx)
      else (result, record s' { stream_connected = false; buffered_frames = 0 }, tx')

  unfoldable pub tick : NetworkTx → TxControl Ctx → ℕ → NetworkTxResult × NetworkTx × TxControl Ctx
  tick s tx now_ms =
      let (stopped, s', tx') = stop_if_keyed s tx in
      if not s.reserved
      then (ok, s, tx)
      else if not (leb lease_ms (sub64 now_ms s.renewed_ms))
      then (ok, s, tx)
      else (if is_ok stopped then expired else stopped, clear_session s', tx')

  unfoldable pub reconcile : NetworkTx → TxControl Ctx → NetworkTx
  reconcile s tx =
      if s.reserved && s.keyed && (not s.tx_control || not (owner_eq tx.owner TxOwner.http))
      then clear_session s
      else s
