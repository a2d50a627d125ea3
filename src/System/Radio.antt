-- ===== src/System/Radio.antt =====
-- The receive callbacks of src/flex1500d.c leave every flag of the receiver that tells of keying.
use mathlib.Core.Option.{Option, some, none}
use flex1500d.Base.{
  ℕ, ◌≡◌, refl, ap, sym, ◌∙◌, ◌+◌, ◌%◌, if◌then◌else◌, either, List, not, ◌||◌, arith,
}
use flex1500d.Base.Ints.{ℤ, is_zero}
use flex1500d.UsbRx.{UsbRx, Libusb, error_invalid_param, send_rx_command, issue}
use flex1500d.UsbRx.Transmit.{is_keying}
use flex1500d.UsbRx.Tune.{
  TunePlan, plan_tune, finish_tune, send_pa_filter, send_rx_filter, send_tune, tune, set_gain,
}
use flex1500d.Daemon.{DaemonTx}
use flex1500d.Api.{ApiController}
use flex1500d.Api.Effect.{Moved}
use flex1500d.Station.{Station}
use flex1500d.System.{api_tune_rx, api_set_rx_gain}

-- A property that a match on an option has where both branches have it.
pub planned :
    {A B : Type 0} (P : B → Type 0) (o : Option A) (x : B) (k : A → B)
    → P x
    → ((a : A) → P (k a))
    → P (elim o [ none ↦ x | some a ↦ k a ])
planned P none x k f g = f
planned P (some a) x k f g = g a

-- The function within an option that is known.
known : {A : Type 0} (f g : A) → some f ≡ some g → f ≡ g
known f g e = ap (λ (o : Option _). elim o [ none ↦ f | some h ↦ h ]) e

module _ {W : Type 0} (usb : Libusb W) (word : ℕ → ℕ) (gain_value : List ℕ → ℤ) where
  send_rx_command_keying :
      (packet : List ℕ) (r : UsbRx W) → is_keying (send_rx_command usb packet r).1 ≡ is_keying r
  unfolding send_rx_command is_keying
  send_rx_command_keying packet r = ground arith

  send_pa_filter_keying :
      (p : TunePlan) (r : UsbRx W) → is_keying (send_pa_filter usb word p r).1 ≡ is_keying r
  unfolding send_pa_filter finish_tune send_rx_command is_keying
  send_pa_filter_keying p r = ground arith

  send_rx_filter_keying :
      (p : TunePlan) (r : UsbRx W) → is_keying (send_rx_filter usb word p r).1 ≡ is_keying r
  unfolding send_rx_filter is_keying
  send_rx_filter_keying p r =
      let sent = send_rx_command_keying p.filter_packet r in
      either (λ (x : ℤ × UsbRx W). is_keying x.1 ≡ is_keying r)
        (not (is_zero (send_rx_command usb p.filter_packet r).0)) _ _ (λ e. sent)
        (λ e. send_pa_filter_keying p _ ∙ sent)

  send_tune_keying :
      (f : ℕ) (p : TunePlan) (r : UsbRx W) → is_keying (send_tune usb word f p r).1 ≡ is_keying r
  unfolding send_tune is_keying
  send_tune_keying f p r =
      let r0 = record r {
        next_command_index = (r.next_command_index + (if r.transmit_prepared then 3 else 2)) % 256;
      } in
      let sent = send_rx_command_keying p.tune r0 in
      either (λ (x : ℤ × UsbRx W). is_keying x.1 ≡ is_keying r)
        (not (is_zero (send_rx_command usb p.tune r0).0)) _ _ (λ e. sent)
        (λ e. send_rx_filter_keying p _ ∙ sent)

  pub tune_keying : (f : ℕ) (r : UsbRx W) → is_keying (tune usb word f r).1 ≡ is_keying r
  unfolding tune
  tune_keying f r =
      either (λ (x : ℤ × UsbRx W). is_keying x.1 ≡ is_keying r)
        (not r.running || not r.opened || r.tune_active || r.tune_keyed) _ _ (λ e. refl)
        (λ e.
          planned (λ (x : ℤ × UsbRx W). is_keying x.1 ≡ is_keying r)
            (plan_tune word r.transmit_prepared r.next_command_index f) (error_invalid_param, r)
            (λ p. send_tune usb word f p r) refl (λ p. send_tune_keying f p r))

  set_gain_keying : (gain : ℤ) (r : UsbRx W) → is_keying (set_gain usb word gain r).1 ≡ is_keying r
  unfolding set_gain issue send_rx_command is_keying
  set_gain_keying gain r = ground arith

  -- The callbacks of the dispatch leave the flags.
  pub callbacks_keep_keying :
      (api : ApiController) (s : Station (DaemonTx W))
      → Moved
          (λ d e. is_keying e.receiver ≡ is_keying d.receiver)
          record {
            api = api;
            station = s;
            tune_rx = some (api_tune_rx usb word gain_value);
            set_rx_gain = some (api_set_rx_gain usb word gain_value);
          }
  unfolding api_tune_rx api_set_rx_gain
  callbacks_keep_keying api s = record {
    tuned = λ f d frequency e.
        ap (λ k. is_keying (k d frequency).2.receiver) (sym (known _ f e))
        ∙ tune_keying frequency d.receiver;
    gained = λ f d gain e.
        ap (λ k. is_keying (k d gain).1.receiver) (sym (known _ f e))
        ∙ set_gain_keying (gain_value gain) d.receiver;
  }
