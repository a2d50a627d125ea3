-- ===== src/UsbRx/Start.antt =====
-- The starts of src/usb_rx.c that return 0, and a stop after one.
use mathlib.Core.Option.{some}
use flex1500d.Base.{
  ℕ, ◌≡◌, refl, Bool, true, false, ◌||◌, ◌&&◌, not, Bool-cases, Option-cases, inl, inr, arith,
}
use flex1500d.Base.Ints.{is_zero}
use flex1500d.Protocol.Bands.{pa_filter_for_frequency}
use flex1500d.Protocol.Builders.{usb_tune_frequency_to_tuning_word}
use flex1500d.UsbRx.{UsbRx, Libusb}
use flex1500d.UsbRx.Transmit.{
  Step, ◌>>◌, go_on_air, tune_sequence, audio_sequence, or_stop, tune_carrier_start, audio_tx_start,
  AudioSetup, update, is_ready, is_keying, tune_carrier_stop,
}
use flex1500d.UsbRx.Keyed.{may_be_keyed}
use flex1500d.UsbRx.Unkey.{IsTracked, tune_carrier_stop_unkeys}
use flex1500d.UsbRx.Order.{
  Follows, Sends, start_commands, tune_sequence-Sends, audio_sequence-Sends,
}

module _ {W : Type 0} where
  -- A step that succeeds ends in a state with the property.
  unfoldable Ends : (UsbRx W → Type 0) → Step W → Type 0
  Ends P m = (r : UsbRx W) → (m r).0 ≡ true → P (m r).1

  Ends-sequence : (P : UsbRx W → Type 0) (m k : Step W) → Ends P k → Ends P (m >> k)
  unfolding Ends ◌>>◌
  Ends-sequence P m k g r h = elim (Bool-cases (m r).0) [
    | inl e ↦ rw e (g (m r).1 (ground arith))
    | inr e ↦ absurd (ground arith)
  ]

  abbrev IsActive : UsbRx W → Type 0
  IsActive r = r.tune_active ≡ true

  -- The second receiver is on the air: what lies between the two traces is the packets of a start,
  -- for the first one's frequency less an offset.
  pub record Started (word : ℕ → ℕ) (offset_hz : ℕ) (r r' : UsbRx W) : Type 0 where
    pub filter : ℕ
    pub tuning_word : ℕ
    pub is_filter : pa_filter_for_frequency r.frequency_hz ≡ some filter
    pub is_word : usb_tune_frequency_to_tuning_word word r.frequency_hz offset_hz ≡ some tuning_word
    pub sent : Follows r.trace (start_commands filter tuning_word) r'.trace
    pub active : r'.tune_active ≡ true

module _ {W : Type 0} (usb : Libusb W) (word : ℕ → ℕ) where
  updated-IsActive :
      Ends IsActive
        (update {W = W} (λ r. record r { tune_transition_attempted = false; tune_active = true }))
  unfolding Ends
  updated-IsActive r h = refl

  go_on_air-IsActive : Ends IsActive (go_on_air usb word)
  unfolding go_on_air
  go_on_air-IsActive = Ends-sequence IsActive _ _ (Ends-sequence IsActive _ _ updated-IsActive)

  tune_sequence-IsActive : (filter w : ℕ) → Ends IsActive (tune_sequence usb word filter w)
  unfolding tune_sequence
  tune_sequence-IsActive filter w = Ends-sequence IsActive _ _ (
      Ends-sequence IsActive _ _
        (Ends-sequence IsActive _ _ (Ends-sequence IsActive _ _ go_on_air-IsActive)))

  audio_sequence-IsActive :
      (capture : Bool) (filter w : ℕ) → Ends IsActive (audio_sequence usb word capture filter w)
  unfolding audio_sequence
  audio_sequence-IsActive capture filter w =
      Ends-sequence IsActive _ _
        (Ends-sequence IsActive _ _ (Ends-sequence IsActive _ _ go_on_air-IsActive))

  or_stop-Started :
      (m : Step W) (offset filter w : ℕ) (r : UsbRx W)
      → pa_filter_for_frequency r.frequency_hz ≡ some filter
      → usb_tune_frequency_to_tuning_word word r.frequency_hz offset ≡ some w
      → Sends (start_commands filter w) m
      → Ends IsActive m
      → is_zero (or_stop usb word m r).0 ≡ true
      → Started word offset r (or_stop usb word m r).1
  unfolding or_stop Sends Ends
  or_stop-Started m offset filter w r f t s a h = elim (Bool-cases (m r).0) [
    | inl e ↦ rw e record {
      filter = filter;
      tuning_word = w;
      is_filter = f;
      is_word = t;
      sent = s r e;
      active = a r e;
    }
    | inr e ↦ absurd (ground arith)
  ]

  pub tune_carrier_start_order :
      (r : UsbRx W)
      → is_zero (tune_carrier_start usb word r).0 ≡ true
      → Started word 600 r (tune_carrier_start usb word r).1
  unfolding tune_carrier_start
  tune_carrier_start_order r h = elim (Bool-cases (is_ready r)) [
    | inr e ↦ absurd (ground arith)
    | inl e ↦ elim (Option-cases (pa_filter_for_frequency r.frequency_hz)) [
      | inl f ↦ absurd (ground arith)
      | inr (filter, f) ↦
          elim (Option-cases (usb_tune_frequency_to_tuning_word word r.frequency_hz 600)) [
            | inl t ↦ absurd (ground arith)
            | inr (w, t) ↦
                rw (e, f, t)
                  (or_stop-Started (tune_sequence usb word filter w) 600 filter w r f t
                    (tune_sequence-Sends usb word filter w) (tune_sequence-IsActive filter w)
                    (rw (e, f, t) at h))
          ]
    ]
  ]

  pub audio_tx_start_order :
      (setup : AudioSetup) (capture : Bool) (offset_hz : ℕ) (r : UsbRx W)
      → is_zero (audio_tx_start usb word setup capture offset_hz r).0 ≡ true
      → Started word offset_hz r (audio_tx_start usb word setup capture offset_hz r).1
  unfolding audio_tx_start
  audio_tx_start_order setup capture offset_hz r h =
      elim (Bool-cases (not (is_ready r) || r.tune_streaming)) [
        | inl e ↦ absurd (ground arith)
        | inr e ↦ elim (Option-cases (pa_filter_for_frequency r.frequency_hz)) [
          | inl f ↦ absurd (ground arith)
          | inr (filter, f) ↦
              elim (Option-cases
                (usb_tune_frequency_to_tuning_word word r.frequency_hz offset_hz)) [
                  | inl t ↦ absurd (ground arith)
                  | inr (w, t) ↦
                      elim (Bool-cases (
                        not setup.accepted
                        || setup.prebuffer_given && not setup.prebuffer_accepted)) [
                          | inl a ↦ absurd (ground arith)
                          | inr a ↦
                              rw (e, f, t, a)
                                (or_stop-Started (audio_sequence usb word capture filter w)
                                  offset_hz filter w r f t
                                  (audio_sequence-Sends usb word capture filter w)
                                  (audio_sequence-IsActive capture filter w) (rw (e, f, t, a) at h))
                        ]
                ]
        ]
      ]

  active-IsTracked : (r : UsbRx W) → IsActive r → IsTracked r
  unfolding is_keying
  active-IsTracked r a = record { tracked = λ k. ground arith }

  -- A tune carrier that a start has put on the air is off it again, where a stop then returns 0.
  pub start_stop_unkeys :
      (r : UsbRx W)
      → is_zero (tune_carrier_start usb word r).0 ≡ true
      → is_zero (tune_carrier_stop usb word (tune_carrier_start usb word r).1).0 ≡ true
      → may_be_keyed (tune_carrier_stop usb word (tune_carrier_start usb word r).1).1.trace ≡ false
  start_stop_unkeys r h s =
      let r' = (tune_carrier_start usb word r).1 in
      tune_carrier_stop_unkeys usb word r'
        (active-IsTracked r' (tune_carrier_start_order r h).active) s
