-- ===== src/UsbRx/Tune.antt =====
-- `flex1500_usb_rx_tune` and `flex1500_usb_rx_set_gain` of src/usb_rx.c.
use mathlib.Core.Option.{Option, some, none}
use flex1500d.Base.{
  ℕ, ◌+◌, ◌/◌, ◌%◌, Bool, true, false, List, [], ◌||◌, ◌&&◌, not, if◌then◌else◌, leb, ◌==◌,
}
use flex1500d.Base.Ints.{ℤ, pos, negsuc, is_zero}
use flex1500d.Base.Words.{add64}
use flex1500d.IqRing
use flex1500d.Publisher.{zero_sample}
use flex1500d.Protocol.Builders.{
  build_rx_tune_request, build_rx_filter_request, build_pa_filter_request, build_rx_gain_request,
}
use flex1500d.Protocol.Bands.{rx_filter_for_frequency, pa_filter_for_frequency}
use flex1500d.UsbRx.{UsbRx, Libusb, success, error_invalid_param, send_rx_command, issue}

-- The three packets of a tune; the last one is sent only with transmission prepared.
pub record TunePlan : Type 0 where
  pub tune : List ℕ
  pub filter : ℕ
  pub filter_packet : List ℕ
  pub pa_filter : ℕ
  pub pa_filter_packet : List ℕ

-- The packets for the command indices from `index` on, where the policy accepts the frequency.
unfoldable pub plan_pa : Bool → (index frequency_hz : ℕ) → Option (ℕ × List ℕ)
plan_pa prepared index frequency_hz =
    if not prepared then some (0, []) else elim (pa_filter_for_frequency frequency_hz) [
      | none ↦ none
      | some pa_filter ↦ elim (build_pa_filter_request index pa_filter) [
        | none ↦ none
        | some packet ↦ some (pa_filter, packet)
      ]
    ]

unfoldable pub plan_rx : (word : ℕ → ℕ) → (index frequency_hz : ℕ) → Option (List ℕ × ℕ × List ℕ)
plan_rx word index frequency_hz = elim (rx_filter_for_frequency frequency_hz) [
  | none ↦ none
  | some filter ↦ elim (build_rx_tune_request word index frequency_hz) [
    | none ↦ none
    | some (tune, w) ↦ elim (build_rx_filter_request ((index + 1) % 256) filter) [
      | none ↦ none
      | some filter_packet ↦ some (tune, filter, filter_packet)
    ]
  ]
]

unfoldable pub plan_tune : (word : ℕ → ℕ) → Bool → (index frequency_hz : ℕ) → Option TunePlan
plan_tune word prepared index frequency_hz = elim (plan_rx word index frequency_hz) [
  | none ↦ none
  | some (tune, filter, filter_packet) ↦ elim (plan_pa prepared ((index + 2) % 256) frequency_hz) [
    | none ↦ none
    | some (pa_filter, pa_filter_packet) ↦ some record {
      tune = tune;
      filter = filter;
      filter_packet = filter_packet;
      pa_filter = pa_filter;
      pa_filter_packet = pa_filter_packet;
    }
  ]
]

-- -10, 0, 10, 20 or 30, as the step of the gain.
unfoldable pub gain_step : ℤ → Option ℕ
gain_step (pos n) = if leb n 30 && n % 10 == 0 then some (n / 10 + 1) else none
gain_step (negsuc n) = if n == 9 then some 0 else none

module _ {W : Type 0} (usb : Libusb W) (word : ℕ → ℕ) where
  unfoldable pub finish_tune : UsbRx W → ℤ × UsbRx W
  finish_tune r = (
    success,
    record r {
      destination = IqRing.clear zero_sample r.destination;
      rx_tune_operations = add64 r.rx_tune_operations 1;
    },
  )

  unfoldable pub send_pa_filter : TunePlan → UsbRx W → ℤ × UsbRx W
  send_pa_filter p r =
      let (result, r') = send_rx_command usb p.pa_filter_packet r in
      if not r.transmit_prepared
      then finish_tune r
      else if not (is_zero result)
      then (result, record r' { pa_filter_known = false })
      else finish_tune (record r' { pa_filter = p.pa_filter; pa_filter_known = true })

  unfoldable pub send_rx_filter : TunePlan → UsbRx W → ℤ × UsbRx W
  send_rx_filter p r =
      let (result, r') = send_rx_command usb p.filter_packet r in
      if not (is_zero result)
      then (result, r')
      else send_pa_filter p (record r' { rx_filter = p.filter; filter_known = true })

  unfoldable pub send_tune : ℕ → TunePlan → UsbRx W → ℤ × UsbRx W
  send_tune frequency_hz p r =
      let (result, r') = send_rx_command usb p.tune (record r {
        next_command_index = (r.next_command_index + (if r.transmit_prepared then 3 else 2)) % 256;
      }) in
      if not (is_zero result)
      then (result, r')
      else send_rx_filter p
          (record r' { frequency_hz = frequency_hz; frequency_known = true; filter_known = false })

  unfoldable pub tune : ℕ → UsbRx W → ℤ × UsbRx W
  tune frequency_hz r =
      if not r.running || not r.opened || r.tune_active || r.tune_keyed
      then (error_invalid_param, r)
      else elim (plan_tune word r.transmit_prepared r.next_command_index frequency_hz) [
        | none ↦ (error_invalid_param, r)
        | some p ↦ send_tune frequency_hz p r
      ]

  unfoldable pub set_gain : ℤ → UsbRx W → ℤ × UsbRx W
  set_gain gain r =
      if not r.running || not r.opened || r.tune_active || r.tune_keyed
      then (error_invalid_param, r)
      else elim (gain_step gain) [
        | none ↦ (error_invalid_param, r)
        | some step ↦
            let (result, r') = issue usb (λ index. build_rx_gain_request index step) r in
            if is_zero result
            then (result, record r' { gain_db = gain; gain_known = true })
            else (result, r')
      ]
