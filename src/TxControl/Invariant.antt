-- ===== src/TxControl/Invariant.antt =====
-- What holds of a controller between calls of src/tx_control.c, and that every call keeps it.
use mathlib.Core.Option.{Option}
use flex1500d.Base.{ℕ, ◌≡◌, Bool, true, false, arith, ◌⊎◌, ◌≢◌, List, [], ◌∷◌}
use flex1500d.Base.Ints.{ℤ}
use flex1500d.TxControl.{
  TxOwner, TxControl, none, physical_mic, rx, startup_inhibit, transmitting, faulted, valid_owner,
  stop_owner, init, arm_physical_ptt, request, key, release_with, release, release_graceful, press,
  physical_ptt, tick, shutdown, set_timeout_seconds,
}
use flex1500d.TxControl.Calls.{
  Call, arm, requests, releases, releases_graceful, ptt, ticks, shuts_down, sets_timeout, step, run,
}

-- Between calls the state is one of four, and someone owns the transmitter exactly while it is on.
pub record IsValid {Ctx : Type 0} (c : TxControl Ctx) : Type 0 where
  pub resting :
      (c.state ≡ startup_inhibit) ⊎ (c.state ≡ rx) ⊎ (c.state ≡ transmitting) ⊎ (c.state ≡ faulted)
  pub owned : c.state ≡ transmitting → c.owner ≢ none
  pub free : c.state ≢ transmitting → (c.owner ≡ none) × (c.started_ms ≡ 0)
  pub failed : c.cleanup_failed ≡ true → c.state ≡ faulted
  pub held : c.owner ≢ none → c.enabled ≡ true
  pub armed : c.owner ≡ physical_mic → c.physical_ptt_armed ≡ true

module _ {Ctx : Type 0} where
  pub init-IsValid :
      (enabled : Bool) (limit : ℕ) (ctx : Ctx) (start : Option (Ctx → TxOwner → ℤ × Ctx))
      (stop : Option (Ctx → TxOwner → Bool → ℤ × Ctx))
      → IsValid (init enabled limit ctx start stop)
  unfolding init
  init-IsValid enabled limit ctx start stop = ground arith

  pub stop_owner-IsValid : (c : TxControl Ctx) (g : Bool) → IsValid c → IsValid (stop_owner c g).1
  unfolding stop_owner
  stop_owner-IsValid c g v = ground arith

  pub arm-IsValid : (c : TxControl Ctx) → IsValid c → IsValid (arm_physical_ptt c)
  unfolding arm_physical_ptt
  arm-IsValid c v = ground arith

  pub request-IsValid :
      (c : TxControl Ctx) (o : TxOwner) (n : ℕ) → IsValid c → IsValid (request c o n).1
  unfolding request key valid_owner
  request-IsValid c o n v = ground arith

  pub release_with-IsValid :
      (g : Bool) (c : TxControl Ctx) (o : TxOwner) → IsValid c → IsValid (release_with g c o).1
  unfolding release_with
  release_with-IsValid g c o v = ground (arith, stop_owner-IsValid c g v)

  -- Noting the button's position touches nothing that the invariant reads.
  pressed-IsValid :
      (c : TxControl Ctx) (b : Bool) → IsValid c → IsValid (record c { physical_ptt_pressed = b })
  pressed-IsValid c b v = record {
    resting = v.resting;
    owned = v.owned;
    free = v.free;
    failed = v.failed;
    held = v.held;
    armed = v.armed;
  }

  press-IsValid : (c : TxControl Ctx) (n : ℕ) → IsValid c → IsValid (press c n).1
  unfolding press
  press-IsValid c n v = ground (
    arith,
    stop_owner-IsValid c false v,
    request-IsValid c physical_mic n v,
    request-IsValid (stop_owner c false).1 physical_mic n (stop_owner-IsValid c false v),
  )

  pub physical_ptt-IsValid :
      (c : TxControl Ctx) (b : Bool) (n : ℕ) → IsValid c → IsValid (physical_ptt c b n).1
  unfolding physical_ptt
  physical_ptt-IsValid c b n v =
      let v' = pressed-IsValid c b v in
      ground (arith, stop_owner-IsValid _ true v', press-IsValid _ n v')

  pub tick-IsValid : (c : TxControl Ctx) (n : ℕ) → IsValid c → IsValid (tick c n).1
  unfolding tick
  tick-IsValid c n v = ground (arith, stop_owner-IsValid c false v)

  pub shutdown-IsValid : (c : TxControl Ctx) → IsValid c → IsValid (shutdown c)
  unfolding shutdown
  shutdown-IsValid c v = ground (arith, stop_owner-IsValid c false v)

  pub set_timeout-IsValid :
      (c : TxControl Ctx) (s : ℕ) → IsValid c → IsValid (set_timeout_seconds c s).1
  unfolding set_timeout_seconds
  set_timeout-IsValid c s v = ground arith

  pub step-IsValid : (c : TxControl Ctx) (k : Call) → IsValid c → IsValid (step c k)
  unfolding step release release_graceful
  step-IsValid c arm v = arm-IsValid c v
  step-IsValid c (requests o now) v = request-IsValid c o now v
  step-IsValid c (releases o) v = release_with-IsValid false c o v
  step-IsValid c (releases_graceful o) v = release_with-IsValid true c o v
  step-IsValid c (ptt b now) v = physical_ptt-IsValid c b now v
  step-IsValid c (ticks now) v = tick-IsValid c now v
  step-IsValid c shuts_down v = shutdown-IsValid c v
  step-IsValid c (sets_timeout s) v = set_timeout-IsValid c s v

  run-IsValid : (c : TxControl Ctx) (ks : List Call) → IsValid c → IsValid (run c ks)
  unfolding run
  run-IsValid c [] v = v
  run-IsValid c (k ∷ ks) v = run-IsValid (step c k) ks (step-IsValid c k v)

  -- A controller fresh from `init`, after any sequence of calls of any owners at any times, rests
  -- in one of the four resting states, has an owner exactly while it transmits, has an owner only
  -- if transmit was enabled, gives the microphone the transmitter only after it was armed, and
  -- reports a failed cleanup only while faulted.
  pub run-init-IsValid :
      (enabled : Bool) (limit : ℕ) (ctx : Ctx) (start : Option (Ctx → TxOwner → ℤ × Ctx))
      (stop : Option (Ctx → TxOwner → Bool → ℤ × Ctx)) (ks : List Call)
      → IsValid (run (init enabled limit ctx start stop) ks)
  run-init-IsValid enabled limit ctx start stop ks =
      run-IsValid _ ks (init-IsValid enabled limit ctx start stop)
