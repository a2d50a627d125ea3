-- ===== src/System.antt =====
-- The daemon of src/flex1500d.c as a whole: the dispatch of src/api.c over the text of a request,
-- with the callbacks by which it reaches the receiver of src/usb_rx.c.
pub mod Radio
pub mod Rtl
pub mod Whole
mod Tests
use mathlib.Core.Option.{some}
use flex1500d.Base.{ℕ, Bool, List, not, if◌then◌else◌}
use flex1500d.Base.Ints.{ℤ, pos, is_zero, minus_one}
use flex1500d.TxControl.{TxOwner}
use flex1500d.UsbRx.{UsbRx, Libusb}
use flex1500d.UsbRx.Tune.{tune, set_gain}
use flex1500d.Station.{Station}
use flex1500d.Daemon.{DaemonTx}
use flex1500d.Api.{ApiController, RadioInfo, Reply, Server}
use flex1500d.Api.Profile.{Scan}
use flex1500d.Api.Receive.{dispatch}

module _ {W : Type 0} (usb : Libusb W) (word : ℕ → ℕ) (gain_value : List ℕ → ℤ) where
  -- `api_tune_rx`, with the filter of `flex1500_usb_rx_filter`.
  unfoldable pub api_tune_rx : DaemonTx W → ℕ → ℤ × ℕ × DaemonTx W
  api_tune_rx d frequency_hz =
      let (result, receiver) = tune usb word frequency_hz d.receiver in
      let ok = if is_zero result then receiver.filter_known else Bool.false in
      (
        (if ok then pos 0 else minus_one),
        (if ok then receiver.rx_filter else 0),
        record d { receiver = receiver },
      )

  -- `api_set_rx_gain`, over the value of a gain's text.
  unfoldable pub api_set_rx_gain : DaemonTx W → List ℕ → ℤ × DaemonTx W
  api_set_rx_gain d gain =
      let (result, receiver) = set_gain usb word (gain_value gain) d.receiver in
      ((if is_zero result then pos 0 else minus_one), record d { receiver = receiver })

  -- A request to the daemon: the dispatch, with the two callbacks that it hands to it.
  unfoldable pub serve_request :
      Scan → RadioInfo → ApiController → List ℕ → Station (DaemonTx W) → Reply × Server (DaemonTx W)
  serve_request scan radio api request s = dispatch scan radio request record {
    api = api;
    station = s;
    tune_rx = some api_tune_rx;
    set_rx_gain = some api_set_rx_gain;
  }
