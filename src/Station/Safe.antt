-- ===== src/Station/Safe.antt =====
-- What the daemon's calls keep of the controller alone, over a radio whose `stop` callback unkeys
-- it whenever it returns 0.
use mathlib.Core.Option.{Option}
use flex1500d.Base.{ℕ, ◌≡◌, ◌≢◌, Bool, true, false, arith}
use flex1500d.Base.Ints.{ℤ}
use flex1500d.TxControl.{
  TxControl, TxOwner, tune, http, soapy, physical_mic, request, key, release_with, tick,
  physical_ptt, press, stop_owner, shutdown, arm_physical_ptt, init, set_timeout_seconds,
}
use flex1500d.TxControl.Frame.{Keeps}
use flex1500d.TxControl.Invariant.{
  IsValid, request-IsValid, release_with-IsValid, physical_ptt-IsValid, tick-IsValid,
  shutdown-IsValid,
}
use flex1500d.TxControl.Hardware.{
  IsQuiet, Unkeys, request-IsQuiet, release_with-IsQuiet, ptt-IsQuiet, tick-IsQuiet,
  shutdown-IsQuiet,
}
use flex1500d.TxControl.Owner.{
  stop_owner-owner, request_owner, release_with_frame, tick-owner, shutdown-owner,
  physical_ptt-owner,
}

-- Valid, quiet, never owned by `soapy`, and owned by the microphone only while its button is down.
pub record IsSafe {Ctx : Type 0} (keyed : Ctx → Bool) (stop : Ctx → TxOwner → Bool → ℤ × Ctx)
    (c : TxControl Ctx) : Type 0 where
  pub valid : IsValid c
  pub quiet : IsQuiet keyed stop c
  pub known : c.owner ≢ soapy
  pub pressed : c.owner ≡ physical_mic → c.physical_ptt_pressed ≡ true

module _ {Ctx : Type 0} (c : TxControl Ctx) where
  -- Only the button moves the noted position of the button.
  request_pressed :
      (o : TxOwner) (now : ℕ) → (request c o now).1.physical_ptt_pressed ≡ c.physical_ptt_pressed
  unfolding request key
  request_pressed o now = ground arith

  stop_owner_pressed : (g : Bool) → (stop_owner c g).1.physical_ptt_pressed ≡ c.physical_ptt_pressed
  unfolding stop_owner
  stop_owner_pressed g = ground arith

  release_with_pressed :
      (g : Bool) (o : TxOwner)
      → (release_with g c o).1.physical_ptt_pressed ≡ c.physical_ptt_pressed
  unfolding release_with
  release_with_pressed g o = ground (arith, stop_owner_pressed g)

  tick_pressed : (now : ℕ) → (tick c now).1.physical_ptt_pressed ≡ c.physical_ptt_pressed
  unfolding tick
  tick_pressed now = ground (arith, stop_owner_pressed false)

module _ {Ctx : Type 0} (c : TxControl Ctx) where
  press_pressed : (now : ℕ) → (press c now).1.physical_ptt_pressed ≡ c.physical_ptt_pressed
  unfolding press
  press_pressed now = ground (
    arith,
    stop_owner_pressed c false,
    request_pressed c physical_mic now,
    request_pressed (stop_owner c false).1 physical_mic now,
  )

module _ {Ctx : Type 0} (c : TxControl Ctx) where
  ptt_pressed :
      (b : Bool) (now : ℕ)
      → IsValid c
      → (c.owner ≡ physical_mic → c.physical_ptt_pressed ≡ true)
      → (physical_ptt c b now).1.owner ≡ physical_mic
      → (physical_ptt c b now).1.physical_ptt_pressed ≡ true
  unfolding physical_ptt
  ptt_pressed b now v h = ground (
    arith,
    stop_owner-owner (record c { physical_ptt_pressed = b }) true,
    press_pressed (record c { physical_ptt_pressed = b }) now,
  )

module _ {Ctx : Type 0} (keyed : Ctx → Bool) (stop : Ctx → TxOwner → Bool → ℤ × Ctx)
    (unkeys : Unkeys keyed stop) where
  pub request-IsSafe :
      (o : TxOwner) (c : TxControl Ctx) (now : ℕ)
      → o ≢ soapy
      → o ≢ physical_mic
      → IsSafe keyed stop c
      → IsSafe keyed stop (request c o now).1
  request-IsSafe o c now h h' s = record {
    valid = request-IsValid c o now s.valid;
    quiet = request-IsQuiet keyed stop unkeys c o now s.quiet;
    known = ground (arith, request_owner c o now, s.known);
    pressed = ground (arith, request_owner c o now, request_pressed c o now, s.pressed);
  }

  pub release-IsSafe :
      (o : TxOwner) (g : Bool) (c : TxControl Ctx)
      → IsSafe keyed stop c
      → IsSafe keyed stop (release_with g c o).1
  release-IsSafe o g c s = record {
    valid = release_with-IsValid g c o s.valid;
    quiet = release_with-IsQuiet keyed stop unkeys g c o s.quiet;
    known = ground (arith, release_with_frame c g o, s.known);
    pressed = ground (arith, release_with_frame c g o, release_with_pressed c g o, s.pressed);
  }

  -- Tune and the network sessions keep the controller safe.
  pub Keeps-IsSafe_tune : Keeps (IsSafe keyed stop) tune
  Keeps-IsSafe_tune = record {
    by_request = λ c now. request-IsSafe tune c now (cc) (cc);
    by_release = release-IsSafe tune;
  }

  pub Keeps-IsSafe_http : Keeps (IsSafe keyed stop) http
  Keeps-IsSafe_http = record {
    by_request = λ c now. request-IsSafe http c now (cc) (cc);
    by_release = release-IsSafe http;
  }

  pub tick-IsSafe :
      (c : TxControl Ctx) (now : ℕ) → IsSafe keyed stop c → IsSafe keyed stop (tick c now).1
  tick-IsSafe c now s = record {
    valid = tick-IsValid c now s.valid;
    quiet = tick-IsQuiet keyed stop unkeys c now s.quiet;
    known = ground (arith, tick-owner c now, s.known);
    pressed = ground (arith, tick-owner c now, tick_pressed c now, s.pressed);
  }

  pub ptt-IsSafe :
      (c : TxControl Ctx) (b : Bool) (now : ℕ)
      → IsSafe keyed stop c
      → IsSafe keyed stop (physical_ptt c b now).1
  ptt-IsSafe c b now s = record {
    valid = physical_ptt-IsValid c b now s.valid;
    quiet = ptt-IsQuiet keyed stop unkeys c b now s.quiet;
    known = ground (arith, physical_ptt-owner c b now, s.known);
    pressed = ptt_pressed c b now s.valid s.pressed;
  }

  pub shutdown-IsSafe : (c : TxControl Ctx) → IsSafe keyed stop c → IsSafe keyed stop (shutdown c)
  shutdown-IsSafe c s = record {
    valid = shutdown-IsValid c s.valid;
    quiet = shutdown-IsQuiet keyed stop unkeys c s.quiet;
    known = ground (arith, shutdown-owner c);
    pressed = ground (arith, shutdown-owner c);
  }

  pub set_timeout-IsSafe :
      (c : TxControl Ctx) (n : ℕ)
      → IsSafe keyed stop c
      → IsSafe keyed stop (set_timeout_seconds c n).1
  unfolding set_timeout_seconds
  set_timeout-IsSafe c n s = ground arith

  -- The controller of `init`, armed if transmit is enabled.
  pub init-IsSafe :
      (enabled : Bool) (limit : ℕ) (ctx : Ctx) (start : Option (Ctx → TxOwner → ℤ × Ctx))
      → keyed ctx ≡ false
      → IsSafe keyed stop (init enabled limit ctx start (Option.some stop))
        × IsSafe keyed stop (arm_physical_ptt (init enabled limit ctx start (Option.some stop)))
  unfolding init arm_physical_ptt
  init-IsSafe enabled limit ctx start off = ground arith
