-- ===== src/UsbRx/Prepare.antt =====
-- Preparing and unpreparing transmission in src/usb_rx.c.
use mathlib.Core.Option.{some, none}
use Prim.Native.Nat.{bit_and, bit_or}
use flex1500d.Base.{ℕ, true, false, ◌||◌, not, if◌then◌else◌}
use flex1500d.Base.Ints.{ℤ, is_zero}
use flex1500d.TxLifecycle.{has, cleanup_plan, execute_cleanup}
use flex1500d.Protocol.Builders.{
  build_main_tx_antenna_request, build_pa_filter_request, build_amp_tx1_request,
}
use flex1500d.Protocol.Bands.{pa_filter_for_frequency}
use flex1500d.UsbRx.{UsbRx, Libusb, success, error_invalid_param, issue}
use flex1500d.UsbRx.Transmit.{tune_carrier_stop, tx_partial_state, cleanup_action}

module _ {W : Type 0} (usb : Libusb W) (word : ℕ → ℕ) where
  -- What follows a failed amplifier command.
  unfoldable pub undo_preparation : UsbRx W → UsbRx W
  undo_preparation r =
      let (ignored, r') = issue usb (λ index. build_pa_filter_request index 0) r in
      let r'' = if r.pa_filter_known then record r' { pa_filter_known = false } else r in
      let (ignored', r''') = issue usb (λ index. build_amp_tx1_request index false) r'' in
      record r''' { amp_enable_attempted = false }

  unfoldable pub prepare_amplifier : UsbRx W → ℤ × UsbRx W
  prepare_amplifier r =
      let (result, r') =
        issue usb (λ index. build_amp_tx1_request index true)
          (record r { amp_enable_attempted = true }) in
      if not (is_zero result)
      then (result, undo_preparation r')
      else (success, record r' { transmit_prepared = true })

  unfoldable pub prepare_filter : UsbRx W → ℤ × UsbRx W
  prepare_filter r = elim (pa_filter_for_frequency r.frequency_hz) [
    | none ↦ (error_invalid_param, r)
    | some filter ↦
        let (result, r') = issue usb (λ index. build_pa_filter_request index filter) r in
        if not (is_zero result)
        then (result, r')
        else prepare_amplifier (record r' { pa_filter = filter; pa_filter_known = true })
  ]

  unfoldable pub enable_transmit_preparation : UsbRx W → ℤ × UsbRx W
  enable_transmit_preparation r =
      let (result, r') = issue usb build_main_tx_antenna_request r in
      if not r.running || not r.opened || r.transmit_prepared
      then (error_invalid_param, r)
      else if not (is_zero result)
      then (result, r')
      else if r'.frequency_known
      then prepare_filter r'
      else prepare_amplifier r'

  abbrev pub carrier_actions : ℕ
  carrier_actions = bit_or (bit_or 2 4) 16

  abbrev pub preparation_actions : ℕ
  preparation_actions = bit_or 32 64

  -- The end of `disable_transmit_preparation`, behind the carrier's stop.
  unfoldable pub drop_preparation : UsbRx W → ℤ × UsbRx W
  drop_preparation r =
      let (first_error, attempted, r') =
        execute_cleanup (bit_and (cleanup_plan (tx_partial_state r)) preparation_actions)
          (some (cleanup_action usb word false)) r in
      if not (has (cleanup_plan (tx_partial_state r)) preparation_actions) then (success, r) else (
        first_error,
        record r' {
          transmit_prepared = false;
          amp_enable_attempted = false;
          pa_filter_known = false;
        },
      )

  unfoldable pub disable_transmit_preparation : UsbRx W → ℤ × UsbRx W
  disable_transmit_preparation r =
      let (ignored, r') = tune_carrier_stop usb word r in
      if not r.opened
      then (error_invalid_param, r)
      else if has (cleanup_plan (tx_partial_state r)) carrier_actions
      then drop_preparation r'
      else drop_preparation r
