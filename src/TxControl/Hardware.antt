-- ===== src/TxControl/Hardware.antt =====
-- What src/tx_control.c promises about the radio behind its callbacks: `keyed` reads from the
-- callback context whether the radio is on the air.
use mathlib.Core.Option.{Option}
use flex1500d.Base.{ℕ, ◌≡◌, ◌≢◌, ◌⊎◌, Bool, true, false, List, [], ◌∷◌, arith}
use flex1500d.Base.Ints.{ℤ, is_zero}
use flex1500d.TxControl.{
  TxControl, TxOwner, physical_mic, transmitting, call_start, call_stop, preparing, stop_owner,
  init, arm_physical_ptt, request, key, release_with, release, release_graceful, press,
  physical_ptt, tick, shutdown, set_timeout_seconds,
}
use flex1500d.TxControl.Calls.{
  Call, arm, requests, releases, releases_graceful, ptt, ticks, shuts_down, sets_timeout, step, run,
}

-- Off the air wherever the controller does not transmit and no cleanup has failed.
pub record IsQuiet {Ctx : Type 0} (keyed : Ctx → Bool) (stop : Ctx → TxOwner → Bool → ℤ × Ctx)
    (c : TxControl Ctx) : Type 0 where
  pub hook : c.stop_callback ≡ Option.some stop
  pub quiet : c.state ≢ transmitting → c.cleanup_failed ≡ false → keyed c.callback_context ≡ false

-- A stop callback that returns 0 has unkeyed the radio.
abbrev pub Unkeys : {Ctx : Type 0} → (Ctx → Bool) → (Ctx → TxOwner → Bool → ℤ × Ctx) → Type 0
Unkeys {Ctx} keyed stop =
    (x : Ctx) (o : TxOwner) (g : Bool)
    → is_zero (stop x o g).0 ≡ true
    → keyed (stop x o g).1 ≡ false

module _ {Ctx : Type 0} (keyed : Ctx → Bool) (stop : Ctx → TxOwner → Bool → ℤ × Ctx)
    (unkeys : Unkeys keyed stop) where
  call_stop_unkeys :
      (c : TxControl Ctx) (o : TxOwner) (g : Bool)
      → c.stop_callback ≡ Option.some stop
      → is_zero (call_stop c o g).0 ≡ true
      → keyed (call_stop c o g).1 ≡ false
  unfolding call_stop
  call_stop_unkeys c o g h z = ground (arith, unkeys c.callback_context o g)

  stop_owner-IsQuiet :
      (c : TxControl Ctx) (g : Bool) → IsQuiet keyed stop c → IsQuiet keyed stop (stop_owner c g).1
  unfolding stop_owner call_stop
  stop_owner-IsQuiet c g q = ground (arith, unkeys c.callback_context c.owner g)

  pub arm-IsQuiet :
      (c : TxControl Ctx) → IsQuiet keyed stop c → IsQuiet keyed stop (arm_physical_ptt c)
  unfolding arm_physical_ptt
  arm-IsQuiet c q = ground arith

  pub request-IsQuiet :
      (c : TxControl Ctx) (o : TxOwner) (now : ℕ)
      → IsQuiet keyed stop c
      → IsQuiet keyed stop (request c o now).1
  unfolding request key call_stop
  request-IsQuiet c o now q = ground (
    arith,
    unkeys (call_start (record c { cleanup_failed = false; state = preparing }) o).1 o false,
  )

  pub release_with-IsQuiet :
      (g : Bool) (c : TxControl Ctx) (o : TxOwner)
      → IsQuiet keyed stop c
      → IsQuiet keyed stop (release_with g c o).1
  unfolding release_with
  release_with-IsQuiet g c o q = ground (arith, stop_owner-IsQuiet c g q)

  press-IsQuiet :
      (c : TxControl Ctx) (now : ℕ) → IsQuiet keyed stop c → IsQuiet keyed stop (press c now).1
  unfolding press
  press-IsQuiet c now q = ground (
    arith,
    stop_owner-IsQuiet c false q,
    request-IsQuiet c physical_mic now q,
    request-IsQuiet (stop_owner c false).1 physical_mic now (stop_owner-IsQuiet c false q),
  )

  pub ptt-IsQuiet :
      (c : TxControl Ctx) (b : Bool) (now : ℕ)
      → IsQuiet keyed stop c
      → IsQuiet keyed stop (physical_ptt c b now).1
  unfolding physical_ptt
  ptt-IsQuiet c b now q =
      let q' : IsQuiet keyed stop (record c { physical_ptt_pressed = b }) = record {
        hook = q.hook;
        quiet = q.quiet;
      } in
      ground (arith, stop_owner-IsQuiet _ true q', press-IsQuiet _ now q')

  pub tick-IsQuiet :
      (c : TxControl Ctx) (now : ℕ) → IsQuiet keyed stop c → IsQuiet keyed stop (tick c now).1
  unfolding tick
  tick-IsQuiet c now q = ground (arith, stop_owner-IsQuiet c false q)

  pub shutdown-IsQuiet :
      (c : TxControl Ctx) → IsQuiet keyed stop c → IsQuiet keyed stop (shutdown c)
  unfolding shutdown
  shutdown-IsQuiet c q = ground (arith, stop_owner-IsQuiet c false q)

  pub set_timeout-IsQuiet :
      (c : TxControl Ctx) (s : ℕ)
      → IsQuiet keyed stop c
      → IsQuiet keyed stop (set_timeout_seconds c s).1
  unfolding set_timeout_seconds
  set_timeout-IsQuiet c s q = ground arith

  step-IsQuiet :
      (c : TxControl Ctx) (k : Call) → IsQuiet keyed stop c → IsQuiet keyed stop (step c k)
  unfolding step release release_graceful
  step-IsQuiet c arm q = arm-IsQuiet c q
  step-IsQuiet c (requests o now) q = request-IsQuiet c o now q
  step-IsQuiet c (releases o) q = release_with-IsQuiet false c o q
  step-IsQuiet c (releases_graceful o) q = release_with-IsQuiet true c o q
  step-IsQuiet c (ptt b now) q = ptt-IsQuiet c b now q
  step-IsQuiet c (ticks now) q = tick-IsQuiet c now q
  step-IsQuiet c shuts_down q = shutdown-IsQuiet c q
  step-IsQuiet c (sets_timeout s) q = set_timeout-IsQuiet c s q

  run-IsQuiet :
      (c : TxControl Ctx) (ks : List Call) → IsQuiet keyed stop c → IsQuiet keyed stop (run c ks)
  unfolding run
  run-IsQuiet c [] q = q
  run-IsQuiet c (k ∷ ks) q = run-IsQuiet (step c k) ks (step-IsQuiet c k q)

  pub init-IsQuiet :
      (enabled : Bool) (limit : ℕ) (ctx : Ctx) (start : Option (Ctx → TxOwner → ℤ × Ctx))
      → keyed ctx ≡ false
      → IsQuiet keyed stop (init enabled limit ctx start (Option.some stop))
  unfolding init
  init-IsQuiet enabled limit ctx start off = ground arith

  -- Let the radio be off the air at `init`, and let a stop callback that returns 0 leave it off
  -- the air. Then after any sequence of calls the radio is on the air only if the controller
  -- transmits or a cleanup has failed, whatever the start callback does.
  pub run-unkeyed :
      (enabled : Bool) (limit : ℕ) (ctx : Ctx) (start : Option (Ctx → TxOwner → ℤ × Ctx))
      (ks : List Call)
      → keyed ctx ≡ false
      → keyed (run (init enabled limit ctx start (Option.some stop)) ks).callback_context ≡ true
      → ((run (init enabled limit ctx start (Option.some stop)) ks).state ≡ transmitting)
        ⊎ ((run (init enabled limit ctx start (Option.some stop)) ks).cleanup_failed ≡ true)
  run-unkeyed enabled limit ctx start ks off on =
      ground (arith, run-IsQuiet _ ks (init-IsQuiet enabled limit ctx start off))
