-- ===== src/Api/Keying.antt =====
-- The whole dispatch of src/api.c changes the owner of the transmitter only where it is permitted.
use flex1500d.Base.{
  ℕ, ◌≡◌, ◌⊎◌, inl, inr, refl, ap, ◌∙◌, true, false, List, either, arith, Bool-cases,
}
use flex1500d.TxControl.{set_timeout_seconds}
use flex1500d.Api.{RadioInfo, Server}
use flex1500d.Api.Text.{codes, begins}
use flex1500d.Api.Profile.{Scan}
use flex1500d.Api.Handlers
use flex1500d.Api.Dispatch
use flex1500d.Api.Receive
use flex1500d.Api.Gates.{owner_request_keeps, uncontrolled_route}
use flex1500d.Api.Takes.{Changes, Fair, same, tx_request-Fair, tune_request-Fair}

module _ {Ctx : Type 0} (radio : RadioInfo) (request : List ℕ) (v : Server Ctx) where
  settings_keep :
      ((Dispatch.compressor_request request v).1.station.tx.owner ≡ v.station.tx.owner)
      × ((Dispatch.drive_request request v).1.station.tx.owner ≡ v.station.tx.owner)
      × ((Dispatch.mic_gain_request request v).1.station.tx.owner ≡ v.station.tx.owner)
      × ((Dispatch.timeout_request request v).1.station.tx.owner ≡ v.station.tx.owner)
  unfolding Dispatch.compressor_request Dispatch.drive_request Dispatch.mic_gain_request
      Dispatch.timeout_request Dispatch.change_setting Dispatch.set_timeout set_timeout_seconds
  settings_keep = (ground arith, ground arith, ground arith, ground arith)

  page_keeps : (Receive.page_request request v).1.station.tx.owner ≡ v.station.tx.owner
  unfolding Receive.page_request
  page_keeps = ground arith

  gain_keeps : (Receive.gain_request request v).1.station.tx.owner ≡ v.station.tx.owner
  unfolding Receive.gain_request Receive.change_gain Receive.with_radio
  gain_keeps = ground (arith, page_keeps)

  stream_keeps : (Receive.stream_request request v).1.station.tx.owner ≡ v.station.tx.owner
  unfolding Receive.stream_request
  stream_keeps = ground (arith, gain_keeps)

  receive_keeps : (Receive.receive_request request v).1.station.tx.owner ≡ v.station.tx.owner
  unfolding Receive.receive_request Receive.frequency_request Receive.retune Receive.with_radio
  receive_keeps = ground (arith, stream_keeps)

  route-Fair : (scan : Scan) → Fair radio request v (Receive.route scan radio request v)
  unfolding Receive.route
  route-Fair scan =
      let (compressor, drive, gain, timeout) = settings_keep in
      either (Fair radio request v) (Dispatch.tx_general_path request) _ _
        (λ _. tx_request-Fair radio request v scan)
        (λ _.
          either (Fair radio request v) (begins (codes "PUT /v1/radio/tx-compressor/") request) _ _
            (λ _. same radio request v _ compressor)
            (λ _.
              either (Fair radio request v) (begins (codes "PUT /v1/radio/tx-drive/") request) _ _
                (λ _. same radio request v _ drive)
                (λ _.
                  either (Fair radio request v) (begins (codes "PUT /v1/radio/mic-gain/") request) _
                    _ (λ _. same radio request v _ gain)
                    (λ _.
                      either (Fair radio request v)
                        (begins (codes "PUT /v1/radio/tx-timeout/") request) _ _
                        (λ _. same radio request v _ timeout)
                        (λ _.
                          either (Fair radio request v) (Dispatch.tune_path request) _ _
                            (λ _. tune_request-Fair radio request v)
                            (λ _. same radio request v _ receive_keeps))))))

  uncontrolled_keeps :
      (scan : Scan)
      → Dispatch.station_controlled request ≡ false
      → (Receive.route scan radio request v).1.station.tx.owner ≡ v.station.tx.owner
  uncontrolled_keeps scan h =
      ap (λ r. r.1.station.tx.owner) (uncontrolled_route scan radio request v h).0 ∙ receive_keeps

  -- A request of any text leaves the transmitter's owner as it is, or the request is authorized
  -- with the station and changes the owner in one of four ways: it starts Tune on a free
  -- transmitter, at a known frequency where Tune is allowed; it starts the PTT of the session whose
  -- nonzero lease it carries and whose stream is connected, on a free transmitter, at a known
  -- frequency that the session's profile allows; it keeps or stops Tune under its nonzero lease,
  -- which takes Tune off the transmitter; or it stops the PTT or ends the session under its nonzero
  -- lease, which takes the session off the transmitter.
  pub dispatch-Changes :
      (scan : Scan)
      → ((Receive.dispatch scan radio request v).1.station.tx.owner ≡ v.station.tx.owner)
        ⊎ ((Handlers.station_request_authorized v request ≡ true)
            × Changes radio request v (Receive.dispatch scan radio request v).1.station.tx.owner)
  unfolding Receive.dispatch Fair
  dispatch-Changes scan = elim (Bool-cases (Dispatch.owner_path request)) [
    | inl o ↦ rw o (inl (ap (λ k. k.owner) (owner_request_keeps request v).0))
    | inr o ↦ elim (Bool-cases (Handlers.station_request_authorized v request)) [
      | inl a ↦
          rw (o, a)
            (elim (Bool-cases (Dispatch.station_controlled request)) [
              | inl c ↦ rw c (elim (route-Fair scan) [ inl e ↦ inl e | inr h ↦ inr (refl, h) ])
              | inr c ↦ rw c (inl (uncontrolled_keeps scan c))
            ])
      | inr a ↦
          rw (o, a)
            (elim (Bool-cases (Dispatch.station_controlled request)) [
              | inl c ↦ rw c (inl refl)
              | inr c ↦ rw c (inl (uncontrolled_keeps scan c))
            ])
    ]
  ]
