-- ===== src/UsbRx/Retune.antt =====
-- What `flex1500_usb_rx_tune` of src/usb_rx.c sends and records where it returns 0.
use mathlib.Core.Option.{some}
use flex1500d.Base.{
  ℕ, ◌+◌, ◌%◌, ◌≡◌, refl, Bool, true, false, List, [], ◌∷◌, if◌then◌else◌, Option-cases, inl, inr,
  arith,
}
use flex1500d.Base.Ints.{is_zero}
use flex1500d.Protocol.Fields.{rx_filter, tuning_word, pa_filter, build}
use flex1500d.Protocol.Builders.{
  build_rx_tune_request, rx_frequency_to_tuning_word, build_tuning_word_request,
}
use flex1500d.Protocol.Bands.{rx_filter_for_frequency, pa_filter_for_frequency}
use flex1500d.UsbRx.{UsbRx, Libusb, Sent, send_rx_command}
use flex1500d.UsbRx.Tune.{
  TunePlan, plan_pa, plan_rx, plan_tune, finish_tune, send_pa_filter, send_rx_filter, send_tune,
  tune,
}
use flex1500d.UsbRx.Order.{Follows, start, more}

-- The packets of the plan, as commands.
pub record IsPlanned (word : ℕ → ℕ) (prepared : Bool) (index frequency_hz : ℕ) (p : TunePlan)
    : Type 0 where
  pub is_filter : rx_filter_for_frequency frequency_hz ≡ some p.filter
  pub is_tune : build index (tuning_word (word frequency_hz)) ≡ some p.tune
  pub is_filter_packet : build ((index + 1) % 256) (rx_filter p.filter) ≡ some p.filter_packet
  pub is_pa_filter : prepared ≡ true → pa_filter_for_frequency frequency_hz ≡ some p.pa_filter
  pub is_pa_packet :
      prepared ≡ true → build ((index + 2) % 256) (pa_filter p.pa_filter) ≡ some p.pa_filter_packet

plan_IsPlanned :
    (word : ℕ → ℕ) (prepared : Bool) (index f : ℕ) (p : TunePlan)
    → plan_tune word prepared index f ≡ some p
    → IsPlanned word prepared index f p
unfolding plan_tune plan_rx plan_pa build_rx_tune_request rx_frequency_to_tuning_word build
    build_tuning_word_request
plan_IsPlanned word prepared index f p h = record {
  is_filter = ground arith;
  is_tune = ground arith;
  is_filter_packet = ground arith;
  is_pa_filter = λ e. ground arith;
  is_pa_packet = λ e. ground arith;
}

-- The first receiver is on the frequency: it has sent the tuning word and the receive filter, and
-- with transmission prepared the PA filter, and knows the frequency and the filter.
pub record Retuned {W : Type 0} (word : ℕ → ℕ) (frequency_hz : ℕ) (r r' : UsbRx W) : Type 0 where
  pub filter : ℕ
  pub power_filter : ℕ
  pub is_filter : rx_filter_for_frequency frequency_hz ≡ some filter
  pub is_power_filter :
      r.transmit_prepared ≡ true → pa_filter_for_frequency frequency_hz ≡ some power_filter
  pub sent :
      Follows r.trace
        (if r.transmit_prepared
          then pa_filter power_filter ∷ rx_filter filter ∷ tuning_word (word frequency_hz) ∷ []
          else rx_filter filter ∷ tuning_word (word frequency_hz) ∷ [])
        r'.trace
  pub frequency : r'.frequency_hz ≡ frequency_hz
  pub known : r'.frequency_known ≡ true
  pub recorded : r'.rx_filter ≡ filter
  pub filter_known : r'.filter_known ≡ true

module _ {W : Type 0} (usb : Libusb W) (word : ℕ → ℕ) where
  -- What a step behind the first packet leaves: the trace, the frequency, the receive filter.
  abbrev Leaves : List Sent → ℕ → Bool → ℕ → Bool → UsbRx W → Type 0
  Leaves log f known n filter_known r =
      (r.trace ≡ log)
      × (r.frequency_hz ≡ f)
      × (r.frequency_known ≡ known)
      × (r.rx_filter ≡ n)
      × (r.filter_known ≡ filter_known)

  abbrev whole_packet : List ℕ → Sent
  whole_packet packet = record { packet = packet; delivered = true }

  pa_sends :
      (p : TunePlan) (r : UsbRx W)
      → is_zero (send_pa_filter usb word p r).0 ≡ true
      → Leaves
          (if r.transmit_prepared then whole_packet p.pa_filter_packet ∷ r.trace else r.trace)
          r.frequency_hz
          r.frequency_known
          r.rx_filter
          r.filter_known
          (send_pa_filter usb word p r).1
  unfolding send_pa_filter finish_tune send_rx_command
  pa_sends p r h = (ground arith, ground arith, ground arith, ground arith, ground arith)

  tune_plan :
      (f : ℕ) (r : UsbRx W)
      → is_zero (tune usb word f r).0 ≡ true
      → (p : TunePlan) × (plan_tune word r.transmit_prepared r.next_command_index f ≡ some p)
        × (tune usb word f r ≡ send_tune usb word f p r)
  unfolding tune
  tune_plan f r h =
      elim (Option-cases (plan_tune word r.transmit_prepared r.next_command_index f)) [
        | inl e ↦ absurd (ground arith)
        | inr (p, e) ↦ (p, e, ground arith)
      ]

  filter_sends :
      (p : TunePlan) (r : UsbRx W)
      → is_zero (send_rx_filter usb word p r).0 ≡ true
      → Leaves
          (if r.transmit_prepared
            then whole_packet p.pa_filter_packet ∷ whole_packet p.filter_packet ∷ r.trace
            else whole_packet p.filter_packet ∷ r.trace)
          r.frequency_hz
          r.frequency_known
          p.filter
          true
          (send_rx_filter usb word p r).1
  unfolding send_rx_filter send_rx_command
  filter_sends p r h =
      let r' = (send_rx_command usb p.filter_packet r).1 in
      ground (arith, pa_sends p (record r' { rx_filter = p.filter; filter_known = true }))

  tune_sends :
      (f : ℕ) (p : TunePlan) (r : UsbRx W)
      → is_zero (send_tune usb word f p r).0 ≡ true
      → Leaves
          (if r.transmit_prepared
            then whole_packet p.pa_filter_packet
              ∷ whole_packet p.filter_packet
              ∷ whole_packet p.tune
              ∷ r.trace
            else whole_packet p.filter_packet ∷ whole_packet p.tune ∷ r.trace)
          f
          true
          p.filter
          true
          (send_tune usb word f p r).1
  unfolding send_tune send_rx_command
  tune_sends f p r h =
      let r' =
        (send_rx_command usb p.tune (record r {
          next_command_index =
              (r.next_command_index + (if r.transmit_prepared then 3 else 2)) % 256;
        })).1 in
      ground (
        arith,
        filter_sends p
            (record r' { frequency_hz = f; frequency_known = true; filter_known = false }),
      )

  planned_sent :
      (prepared : Bool) (index f : ℕ) (p : TunePlan) (old : List Sent)
      → IsPlanned word prepared index f p
      → Follows old
          (if prepared
            then pa_filter p.pa_filter ∷ rx_filter p.filter ∷ tuning_word (word f) ∷ []
            else rx_filter p.filter ∷ tuning_word (word f) ∷ [])
          (if prepared
            then whole_packet p.pa_filter_packet
              ∷ whole_packet p.filter_packet
              ∷ whole_packet p.tune
              ∷ old
            else whole_packet p.filter_packet ∷ whole_packet p.tune ∷ old)
  planned_sent true index f p old k =
      more _ _ (k.is_pa_packet refl) (more _ _ k.is_filter_packet (more _ _ k.is_tune start))
  planned_sent false index f p old k = more _ _ k.is_filter_packet (more _ _ k.is_tune start)

  -- A tune that returns 0 has sent the tuning word and the receive filter of the frequency, and with
  -- transmission prepared its PA filter, in this order and nothing else, each as a whole; the
  -- frequency and the receive filter are recorded as known.
  pub tune_Retuned :
      (f : ℕ) (r : UsbRx W)
      → is_zero (tune usb word f r).0 ≡ true
      → Retuned word f r (tune usb word f r).1
  tune_Retuned f r h =
      let (p, e, q) = tune_plan f r h in
      let k = plan_IsPlanned word r.transmit_prepared r.next_command_index f p e in
      let (log, freq, known, n, fk) = tune_sends f p r (rw q at h) in
      rw q record {
        filter = p.filter;
        power_filter = p.pa_filter;
        is_filter = k.is_filter;
        is_power_filter = k.is_pa_filter;
        sent = rw log (planned_sent r.transmit_prepared r.next_command_index f p r.trace k);
        frequency = freq;
        known = known;
        recorded = n;
        filter_known = fk;
      }
