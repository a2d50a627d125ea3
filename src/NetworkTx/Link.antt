-- ===== src/NetworkTx/Link.antt =====
-- The link between a network session of src/network_tx.c and the transmitter's owner.
use flex1500d.Base.{ℕ, ◌+◌, ◌^◌, ◌≤◌, ◌<◌, ◌≡◌, ◌≢◌, ◌⊎◌, Bool, true, false, arith}
use flex1500d.TxControl
use flex1500d.TxControl.{TxControl, TxControlResult, TxOwner}
use flex1500d.TxControl.Invariant
use flex1500d.TxControl.Invariant.{request-IsValid, release_with-IsValid}
use flex1500d.TxControl.Owner.{request_owner, release_with-owner}
use flex1500d.NetworkTx.{
  NetworkTx, NetworkTxProfile, ok, hardware_error, expired, lease_ms, min_prebuffer_frames,
  valid_profile, owns, clear_session, keepalive, attach_stream, record_data, release_http,
  stop_if_keyed, acquire, key, ptt_start, ptt_stop, release, disconnect_stream, tick, reconcile,
}

-- A keyed session is reserved, has its stream and its whole prebuffer; a reserved one was enabled and
-- has a nonzero lease and a valid profile; and `http` owns the transmitter only for a keyed session.
pub record IsLinked {Ctx : Type 0} (s : NetworkTx) (tx : TxControl Ctx) : Type 0 where
  pub valid : Invariant.IsValid tx
  pub ready :
      s.keyed ≡ true
      → (s.reserved ≡ true)
        × (s.stream_connected ≡ true)
        × (s.buffered_frames ≡ min_prebuffer_frames)
  pub leased :
      s.reserved ≡ true
      → (s.lease ≢ 0)
        × (s.enabled ≡ true)
        × (s.tx_control ≡ true)
        × (valid_profile s.profile ≡ true)
  pub bounded : s.buffered_frames ≤ min_prebuffer_frames
  pub no_orphan : tx.owner ≡ TxOwner.http → s.keyed ≡ true

module _ {Ctx : Type 0} (s : NetworkTx) (tx : TxControl Ctx) where
  release_http_lem :
      (g : Bool)
      → IsLinked s tx
      → s.keyed ≡ true
      → Invariant.IsValid (release_http g s.tx_control tx).1
        × ((release_http g s.tx_control tx).1.owner ≢ TxOwner.http)
  unfolding release_http TxControl.release TxControl.release_graceful
  release_http_lem g l on = ground (
    arith,
    release_with-IsValid false tx TxOwner.http,
    release_with-owner tx false TxOwner.http,
    release_with-IsValid true tx TxOwner.http,
    release_with-owner tx true TxOwner.http,
  )

  -- Afterwards the session is unkeyed, `http` is off the transmitter, and all else stands.
  pub stop_if_keyed_lem :
      IsLinked s tx
      → Invariant.IsValid (stop_if_keyed s tx).2
        × ((stop_if_keyed s tx).2.owner ≢ TxOwner.http)
        × ((stop_if_keyed s tx).1 ≡ record s { keyed = false })
        × (((stop_if_keyed s tx).0 ≡ ok) ⊎ ((stop_if_keyed s tx).0 ≡ hardware_error))
  unfolding stop_if_keyed
  stop_if_keyed_lem l = ground (arith, release_http_lem false l)

  pub acquire-IsLinked :
      (p : NetworkTxProfile) (lease now : ℕ)
      → IsLinked s tx
      → IsLinked (acquire s tx p lease now).1 tx
  unfolding acquire
  acquire-IsLinked p lease now l = ground arith

  pub keepalive-IsLinked : (lease now : ℕ) → IsLinked s tx → IsLinked (keepalive s lease now).1 tx
  unfolding keepalive
  keepalive-IsLinked lease now l = ground arith

  pub attach_stream-IsLinked :
      (lease now : ℕ) → IsLinked s tx → IsLinked (attach_stream s lease now).1 tx
  unfolding attach_stream
  attach_stream-IsLinked lease now l = ground arith

  pub record_data-IsLinked :
      (lease frames now : ℕ) → IsLinked s tx → IsLinked (record_data s lease frames now).1 tx
  unfolding record_data
  record_data-IsLinked lease frames now l = ground arith

  pub ptt_start-IsLinked :
      (lease now : ℕ)
      → IsLinked s tx
      → IsLinked (ptt_start s tx lease now).1 (ptt_start s tx lease now).2
  unfolding ptt_start key owns
  ptt_start-IsLinked lease now l =
      ground (arith, request-IsValid tx TxOwner.http now, request_owner tx TxOwner.http now)

  pub ptt_stop-IsLinked :
      (lease : ℕ) → IsLinked s tx → IsLinked (ptt_stop s tx lease).1 (ptt_stop s tx lease).2
  unfolding ptt_stop
  ptt_stop-IsLinked lease l = ground (arith, release_http_lem true l)

  pub release-IsLinked :
      (lease : ℕ) → IsLinked s tx → IsLinked (release s tx lease).1 (release s tx lease).2
  unfolding release clear_session
  release-IsLinked lease l = ground (arith, stop_if_keyed_lem l)

  pub disconnect_stream-IsLinked :
      IsLinked s tx → IsLinked (disconnect_stream s tx).1 (disconnect_stream s tx).2
  unfolding disconnect_stream
  disconnect_stream-IsLinked l = ground (arith, stop_if_keyed_lem l)

  pub tick-IsLinked : (now : ℕ) → IsLinked s tx → IsLinked (tick s tx now).1 (tick s tx now).2
  unfolding tick clear_session
  tick-IsLinked now l = ground (arith, stop_if_keyed_lem l)

  pub reconcile-IsLinked : IsLinked s tx → IsLinked (reconcile s tx) tx
  unfolding reconcile clear_session
  reconcile-IsLinked l = ground arith

  -- Every session operation keeps the link: a keyed session is reserved with its stream and the
  -- whole prebuffer of 4096 frames, a reserved one has a nonzero lease and a valid profile, no
  -- session buffers more than the prebuffer, and `http` owns the transmitter only for a keyed
  -- session. So for acquire, keepalive, attach, data, PTT start and stop, release, disconnect,
  -- tick and reconcile, on every branch.
  pub session_operations-IsLinked :
      (p : NetworkTxProfile) (lease frames now : ℕ)
      → IsLinked s tx
      → IsLinked (acquire s tx p lease now).1 tx
        × IsLinked (keepalive s lease now).1 tx
        × IsLinked (attach_stream s lease now).1 tx
        × IsLinked (record_data s lease frames now).1 tx
        × IsLinked (ptt_start s tx lease now).1 (ptt_start s tx lease now).2
        × IsLinked (ptt_stop s tx lease).1 (ptt_stop s tx lease).2
        × IsLinked (release s tx lease).1 (release s tx lease).2
        × IsLinked (disconnect_stream s tx).1 (disconnect_stream s tx).2
        × IsLinked (tick s tx now).1 (tick s tx now).2
        × IsLinked (reconcile s tx) tx
  session_operations-IsLinked p lease frames now l = (
    acquire-IsLinked p lease now l,
    keepalive-IsLinked lease now l,
    attach_stream-IsLinked lease now l,
    record_data-IsLinked lease frames now l,
    ptt_start-IsLinked lease now l,
    ptt_stop-IsLinked lease l,
    release-IsLinked lease l,
    disconnect_stream-IsLinked l,
    tick-IsLinked now l,
    reconcile-IsLinked l,
  )

  -- A PTT start that succeeds on an unkeyed session was asked for with the session's own nonzero lease while the
  -- stream was connected and the whole prebuffer had arrived, and `http` now owns the transmitter.
  pub ptt_start_ready :
      (lease now : ℕ)
      → IsLinked s tx
      → s.keyed ≡ false
      → (ptt_start s tx lease now).0 ≡ ok
      → (s.reserved ≡ true)
        × (lease ≡ s.lease)
        × (lease ≢ 0)
        × (s.stream_connected ≡ true)
        × (s.buffered_frames ≡ min_prebuffer_frames)
        × ((ptt_start s tx lease now).1.keyed ≡ true)
        × ((ptt_start s tx lease now).2.owner ≡ TxOwner.http)
  unfolding ptt_start key owns
  ptt_start_ready lease now l off good = ground (arith, request_owner tx TxOwner.http now)

  -- However a reserved session ends, by release with its lease, by the loss of its stream, or by a tick at least the
  -- lease time after its last renewal on a 64-bit clock that has not gone back, `http` no longer
  -- owns the transmitter and the session is not keyed; release and expiry also free the session,
  -- and an earlier tick changes nothing.
  pub ends_unkeyed :
      (now : ℕ)
      → IsLinked s tx
      → s.reserved ≡ true
      → s.renewed_ms ≤ now
      → now < 2 ^ 64
      → ((release s tx s.lease).2.owner ≢ TxOwner.http)
        × ((release s tx s.lease).1 ≡ clear_session s)
        × ((disconnect_stream s tx).2.owner ≢ TxOwner.http)
        × ((disconnect_stream s tx).1.keyed ≡ false)
        × (((s.renewed_ms + lease_ms ≤ now)
              × ((tick s tx now).2.owner ≢ TxOwner.http)
              × ((tick s tx now).1 ≡ clear_session s)
              × (((tick s tx now).0 ≡ expired) ⊎ ((tick s tx now).0 ≡ hardware_error)))
            ⊎ ((now < s.renewed_ms + lease_ms) × (tick s tx now ≡ (ok, s, tx))))
  unfolding release disconnect_stream tick owns clear_session
  ends_unkeyed now l held le fit = ground (arith, stop_if_keyed_lem l)

  -- After a reconcile the session is keyed exactly while `http` owns the transmitter.
  pub reconcile_agrees :
      IsLinked s tx
      → ((reconcile s tx).keyed ≡ true → tx.owner ≡ TxOwner.http)
        × (tx.owner ≡ TxOwner.http → (reconcile s tx).keyed ≡ true)
  unfolding reconcile clear_session
  reconcile_agrees l = ground arith
