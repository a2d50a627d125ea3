-- ===== src/Api/Takes.antt =====
-- Which requests to src/api.c can change who owns the transmitter.
use mathlib.Core.Option.{Option, none, some}
use flex1500d.Base.{ℕ, ◌≡◌, ◌≢◌, ◌⊎◌, inl, refl, ap, true, List, not, ◌||◌, either, arith}
use flex1500d.TxControl.{TxOwner}
use flex1500d.NetworkTx.{NetworkTxResult}
use flex1500d.Daemon.{network_allowed}
use flex1500d.Protocol.Bands.{tune_frequency_allowed}
use flex1500d.Api.{RadioInfo, Reply, Server, issue_lease}
use flex1500d.Api.Text.{codes, begins, request_is, request_lease, parse_lease_path}
use flex1500d.Api.Profile.{Scan}
use flex1500d.Api.Session
use flex1500d.Api.Dispatch
use flex1500d.Api.Holder.{
  start_takes, stop_frees, keepalive_frees, ptt_start_takes, ptt_stop_frees, session_release_frees,
}

module _ {Ctx : Type 0} (radio : RadioInfo) (request : List ℕ) (v : Server Ctx) where
  -- What a request that is permitted to change the owner asks for, and what becomes of it.
  unfoldable pub Changes : TxOwner → Type 0
  Changes after =
      ((after ≡ TxOwner.tune)
        × (v.station.tx.owner ≡ TxOwner.none)
        × (begins (codes "PUT /v1/radio/tune/start HTTP/") request ≡ true)
        × (radio.frequency_known ≡ true)
        × (tune_frequency_allowed radio.frequency_hz ≡ true))
      ⊎ ((after ≡ TxOwner.http)
          × (v.station.tx.owner ≡ TxOwner.none)
          × (request_is request (codes "PUT") (codes "/v1/tx/ptt/start") ≡ true)
          × (request_lease request ≡ some v.station.net.lease)
          × (v.station.net.lease ≢ 0)
          × (v.station.net.stream_connected ≡ true)
          × (radio.frequency_known ≡ true)
          × (network_allowed v.station.net radio.frequency_hz ≡ true))
      ⊎ ((after ≡ TxOwner.none)
          × (v.station.tx.owner ≡ TxOwner.tune)
          × ((parse_lease_path request (codes "PUT /v1/radio/tune/keepalive/")
                ≡ some v.station.tune.lease)
              ⊎ (parse_lease_path request (codes "PUT /v1/radio/tune/stop/")
                  ≡ some v.station.tune.lease))
          × (v.station.tune.lease ≢ 0))
      ⊎ ((after ≡ TxOwner.none)
          × (v.station.tx.owner ≡ TxOwner.http)
          × ((request_is request (codes "PUT") (codes "/v1/tx/ptt/stop") ≡ true)
              ⊎ (request_is request (codes "DELETE") (codes "/v1/tx/sessions/current") ≡ true))
          × (request_lease request ≡ some v.station.net.lease)
          × (v.station.net.lease ≢ 0))

  -- The owner behind a reply is the one before, or a permitted change of it.
  unfoldable pub Fair : Reply × Server Ctx → Type 0
  Fair r = (r.1.station.tx.owner ≡ v.station.tx.owner) ⊎ Changes r.1.station.tx.owner

  option_known-Fair :
      {A : Type 0} (o : Option A) (x : Reply × Server Ctx) (k : A → Reply × Server Ctx)
      → Fair x
      → ((a : A) → o ≡ some a → Fair (k a))
      → Fair (elim o [ none ↦ x | some a ↦ k a ])
  option_known-Fair none x k f g = f
  option_known-Fair (some a) x k f g = g a refl

  note_refusal_keeps :
      (result : NetworkTxResult) (w : Server Ctx)
      → (Session.answer_tx result w).1.station.tx ≡ w.station.tx
  unfolding Session.answer_tx Session.note_refusal
  note_refusal_keeps result w = ground arith

  pub same : (r : Reply × Server Ctx) → r.1.station.tx.owner ≡ v.station.tx.owner → Fair r
  unfolding Fair
  same r e = inl e

  ptt_start-Fair :
      (lease : ℕ)
      → request_lease request ≡ some lease
      → request_is request (codes "PUT") (codes "/v1/tx/ptt/start") ≡ true
      → Fair (Session.tx_ptt_start radio lease v)
  unfolding Fair Changes Session.tx_ptt_start Session.answer_tx Session.note_refusal
  ptt_start-Fair lease e p =
      ground (arith, ptt_start_takes v.station.net v.station.tx lease v.api.request_now_ms)

  ptt_stop-Fair :
      (lease : ℕ)
      → request_lease request ≡ some lease
      → request_is request (codes "PUT") (codes "/v1/tx/ptt/stop") ≡ true
      → Fair (Session.tx_ptt_stop lease v)
  unfolding Fair Changes Session.tx_ptt_stop Session.answer_tx Session.note_refusal
  ptt_stop-Fair lease e p = ground (arith, ptt_stop_frees v.station.net v.station.tx lease)

  release-Fair :
      (lease : ℕ)
      → request_lease request ≡ some lease
      → request_is request (codes "DELETE") (codes "/v1/tx/sessions/current") ≡ true
      → Fair (Session.tx_release lease v)
  unfolding Fair Changes Session.tx_release Session.answer_tx Session.note_refusal
  release-Fair lease e p = ground (arith, session_release_frees v.station.net v.station.tx lease)

  audio_keeps :
      (scan : Scan) (lease : ℕ)
      → (Session.tx_audio scan request lease v).1.station.tx ≡ v.station.tx
  unfolding Session.tx_audio Session.push_audio Session.with_net Session.answer_tx
      Session.note_refusal
  audio_keeps scan lease = ground arith

  create_keeps : (scan : Scan) → (Session.create_session scan request v).1.station.tx ≡ v.station.tx
  unfolding Session.create_session Session.with_net Session.answer_tx Session.note_refusal
  create_keeps scan = ground arith

  keepalive_keeps :
      (lease : ℕ)
      → ((Session.tx_keepalive lease v).1.station.tx ≡ v.station.tx)
        × ((Session.tx_stream lease v).1.station.tx ≡ v.station.tx)
  unfolding Session.tx_keepalive Session.tx_stream Session.with_net Session.answer_tx
      Session.note_refusal
  keepalive_keeps lease = (ground arith, ground arith)

  leased-Fair :
      (scan : Scan) (lease : ℕ)
      → request_lease request ≡ some lease
      → Fair (Session.leased_tx scan radio request lease v)
  unfolding Session.leased_tx Session.answer_tx Session.note_refusal
  leased-Fair scan lease e =
      let is = request_is request in
      let (kept, streamed) = keepalive_keeps lease in
      either Fair (is (codes "PUT") (codes "/v1/tx/sessions/keepalive")) _ _
        (λ _. same _ (ap (λ k. k.owner) kept))
        (λ _.
          either Fair (is (codes "CONNECT") (codes "/v1/tx/stream")) _ _
            (λ _. same _ (ap (λ k. k.owner) streamed))
            (λ _.
              either Fair (is (codes "PUT") (codes "/v1/tx/ptt/start")) _ _ (ptt_start-Fair lease e)
                (λ _.
                  either Fair (is (codes "PUT") (codes "/v1/tx/ptt/stop")) _ _
                    (ptt_stop-Fair lease e)
                    (λ _.
                      either Fair (is (codes "DELETE") (codes "/v1/tx/sessions/current")) _ _
                        (release-Fair lease e)
                        (λ _.
                          either Fair (is (codes "POST") (codes "/v1/tx/audio")) _ _
                            (λ _. same _ (ap (λ k. k.owner) (audio_keeps scan lease)))
                            (λ _. same _ refl))))))

  pub tx_request-Fair : (scan : Scan) → Fair (Session.tx_request scan radio request v)
  unfolding Session.tx_request Session.answer_tx Session.note_refusal
  tx_request-Fair scan =
      either Fair (not v.api.network_tx || not v.station.net.enabled) _ _ (λ _. same _ refl)
        (λ _.
          either Fair (request_is request (codes "POST") (codes "/v1/tx/sessions")) _ _
            (λ _. same _ (ap (λ k. k.owner) (create_keeps scan)))
            (λ _. option_known-Fair (request_lease request) _ _ (same _ refl) (leased-Fair scan)))

  tune_start-Fair :
      begins (codes "PUT /v1/radio/tune/start HTTP/") request ≡ true
      → Fair (Dispatch.tune_start radio v)
  unfolding Fair Changes Dispatch.tune_start
  tune_start-Fair p = ground (
    arith,
    start_takes v.station.tune v.station.tx v.api.request_now_ms
        (issue_lease v.api.next_tune_lease).0,
  )

  tune_stop-Fair :
      (lease : ℕ)
      → parse_lease_path request (codes "PUT /v1/radio/tune/stop/") ≡ some lease
      → Fair (Dispatch.tune_stop lease v)
  unfolding Fair Changes Dispatch.tune_stop
  tune_stop-Fair lease e = ground (arith, stop_frees v.station.tune v.station.tx lease)

  tune_keepalive-Fair :
      (lease : ℕ)
      → parse_lease_path request (codes "PUT /v1/radio/tune/keepalive/") ≡ some lease
      → Fair (Dispatch.tune_keepalive lease v)
  unfolding Fair Changes Dispatch.tune_keepalive
  tune_keepalive-Fair lease e =
      ground (arith, keepalive_frees v.station.tune v.station.tx v.api.request_now_ms lease)

  tune_leased-Fair : Fair (Dispatch.tune_leased request v)
  unfolding Dispatch.tune_leased
  tune_leased-Fair =
      option_known-Fair (parse_lease_path request (codes "PUT /v1/radio/tune/keepalive/")) _ _
        (option_known-Fair (parse_lease_path request (codes "PUT /v1/radio/tune/stop/")) _ _
          (same _ refl) tune_stop-Fair)
        tune_keepalive-Fair

  pub tune_request-Fair : Fair (Dispatch.tune_request radio request v)
  unfolding Dispatch.tune_request
  tune_request-Fair =
      either Fair (not v.api.tune_control) _ _ (λ _. same _ refl)
        (λ _.
          either Fair (begins (codes "PUT /v1/radio/tune/start HTTP/") request) _ _ tune_start-Fair
            (λ _. tune_leased-Fair))
