-- ===== src/Api/Holder.antt =====
-- Which calls of src/tune_control.c and src/network_tx.c change the transmitter's owner, and for
-- which lease.
use flex1500d.Base.{ℕ, ◌≡◌, ◌≢◌, ◌⊎◌, Bool, true, false, arith}
use flex1500d.TxControl
use flex1500d.TxControl.{TxControl, TxOwner, none, tune, http, valid_owner, owner_eq}
use flex1500d.TxControl.Owner.{stop_owner-owner}
use flex1500d.TuneControl
use flex1500d.TuneControl.{TuneControl}
use flex1500d.NetworkTx
use flex1500d.NetworkTx.{NetworkTx}

module _ {Ctx : Type 0} (c : TxControl Ctx) where
  request_takes :
      (o : TxOwner) (now : ℕ)
      → ((TxControl.request c o now).1.owner ≡ c.owner)
        ⊎ (((TxControl.request c o now).1.owner ≡ o) × (c.owner ≡ none))
  unfolding TxControl.request TxControl.key
  request_takes o now = ground arith

  release_frees :
      (g : Bool) (o : TxOwner)
      → ((TxControl.release_with g c o).1.owner ≡ c.owner)
        ⊎ (((TxControl.release_with g c o).1.owner ≡ none) × (c.owner ≡ o))
  unfolding TxControl.release_with
  release_frees g o = ground (arith, stop_owner-owner c g)

module _ {Ctx : Type 0} (t : TuneControl) (c : TxControl Ctx) where
  pub start_takes :
      (now lease : ℕ)
      → ((TuneControl.start t c now lease).2.owner ≡ c.owner)
        ⊎ (((TuneControl.start t c now lease).2.owner ≡ tune) × (c.owner ≡ none))
  unfolding TuneControl.start TuneControl.start_carrier
  start_takes now lease = ground (arith, request_takes c tune now)

  stop_active_frees :
      (reason : TuneControl.TuneResult)
      → ((TuneControl.stop_active t c reason).2.owner ≡ c.owner)
        ⊎ (((TuneControl.stop_active t c reason).2.owner ≡ none) × (c.owner ≡ tune))
  unfolding TuneControl.stop_active TuneControl.release_tune TxControl.release
  stop_active_frees reason = ground (arith, release_frees c false tune)

  pub stop_frees :
      (lease : ℕ)
      → ((TuneControl.stop t c lease).2.owner ≡ c.owner)
        ⊎ (((TuneControl.stop t c lease).2.owner ≡ none)
            × (c.owner ≡ tune)
            × (lease ≡ t.lease)
            × (t.lease ≢ 0))
  unfolding TuneControl.stop
  stop_frees lease = ground (arith, stop_active_frees TuneControl.TuneResult.ok)

  pub keepalive_frees :
      (now lease : ℕ)
      → ((TuneControl.keepalive t c now lease).2.owner ≡ c.owner)
        ⊎ (((TuneControl.keepalive t c now lease).2.owner ≡ none)
            × (c.owner ≡ tune)
            × (lease ≡ t.lease)
            × (t.lease ≢ 0))
  unfolding TuneControl.keepalive
  keepalive_frees now lease = ground (
    arith,
    stop_active_frees TuneControl.TuneResult.hard_limit,
    stop_active_frees TuneControl.TuneResult.expired,
  )

module _ {Ctx : Type 0} (s : NetworkTx) (c : TxControl Ctx) where
  pub ptt_start_takes :
      (lease now : ℕ)
      → ((NetworkTx.ptt_start s c lease now).2.owner ≡ c.owner)
        ⊎ (((NetworkTx.ptt_start s c lease now).2.owner ≡ http)
            × (c.owner ≡ none)
            × (lease ≡ s.lease)
            × (s.lease ≢ 0)
            × (s.stream_connected ≡ true))
  unfolding NetworkTx.ptt_start NetworkTx.key NetworkTx.owns
  ptt_start_takes lease now = ground (arith, request_takes c http now)

  release_http_frees :
      (g b : Bool)
      → ((NetworkTx.release_http g b c).1.owner ≡ c.owner)
        ⊎ (((NetworkTx.release_http g b c).1.owner ≡ none) × (c.owner ≡ http))
  unfolding NetworkTx.release_http TxControl.release TxControl.release_graceful
  release_http_frees g b = ground (arith, release_frees c true http, release_frees c false http)

  pub ptt_stop_frees :
      (lease : ℕ)
      → ((NetworkTx.ptt_stop s c lease).2.owner ≡ c.owner)
        ⊎ (((NetworkTx.ptt_stop s c lease).2.owner ≡ none)
            × (c.owner ≡ http)
            × (lease ≡ s.lease)
            × (s.lease ≢ 0))
  unfolding NetworkTx.ptt_stop NetworkTx.owns
  ptt_stop_frees lease = ground (arith, release_http_frees true s.tx_control)

  pub session_release_frees :
      (lease : ℕ)
      → ((NetworkTx.release s c lease).2.owner ≡ c.owner)
        ⊎ (((NetworkTx.release s c lease).2.owner ≡ none)
            × (c.owner ≡ http)
            × (lease ≡ s.lease)
            × (s.lease ≢ 0))
  unfolding NetworkTx.release NetworkTx.stop_if_keyed NetworkTx.owns
  session_release_frees lease = ground (arith, release_http_frees false s.tx_control)
