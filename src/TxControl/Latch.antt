-- ===== src/TxControl/Latch.antt =====
-- The fault latch and the maximum key time of src/tx_control.c.
use flex1500d.Base.{ℕ, ◌^◌, ◌+◌, ◌≤◌, ◌<◌, ◌≡◌, ◌≢◌, ◌⊎◌, Bool, true, false, List, [], ◌∷◌, arith}
use flex1500d.TxControl.{
  TxControl, TxOwner, none, rx, faulted, ok, hardware_error, max_key, stop_owner, arm_physical_ptt,
  request, release_with, release, release_graceful, press, physical_ptt, tick, shutdown,
  set_timeout_seconds, physical_mic,
}
use flex1500d.TxControl.Calls.{
  Call, arm, requests, releases, releases_graceful, ptt, ticks, shuts_down, sets_timeout, step, run,
}
use flex1500d.TxControl.Invariant.{IsValid}

-- Faulted and unowned, with the hardware context `ctx`.
pub record IsLatched {Ctx : Type 0} (ctx : Ctx) (c : TxControl Ctx) : Type 0 where
  pub stuck : c.state ≡ faulted
  pub unowned : c.owner ≡ none
  pub untouched : c.callback_context ≡ ctx

module _ {Ctx : Type 0} (ctx : Ctx) where
  request-IsLatched :
      (c : TxControl Ctx) (o : TxOwner) (now : ℕ) → IsLatched ctx c → (request c o now).1 ≡ c
  unfolding request
  request-IsLatched c o now l = ground arith

  press-IsLatched : (c : TxControl Ctx) (now : ℕ) → IsLatched ctx c → (press c now).1 ≡ c
  unfolding press
  press-IsLatched c now l = ground (arith, request-IsLatched c physical_mic now l)

  ptt-IsLatched :
      (c : TxControl Ctx) (b : Bool) (now : ℕ)
      → IsLatched ctx c
      → IsLatched ctx (physical_ptt c b now).1
  unfolding physical_ptt
  ptt-IsLatched c b now l = ground (
    arith,
    press-IsLatched (record c { physical_ptt_pressed = b }) now
        (record { stuck = l.stuck; unowned = l.unowned; untouched = l.untouched }),
  )

  step-IsLatched : (c : TxControl Ctx) (k : Call) → IsLatched ctx c → IsLatched ctx (step c k)
  unfolding step release release_graceful arm_physical_ptt release_with stop_owner tick shutdown
      set_timeout_seconds
  step-IsLatched c arm l = ground arith
  step-IsLatched c (requests o now) l = ground (arith, request-IsLatched c o now l)
  step-IsLatched c (releases o) l = ground arith
  step-IsLatched c (releases_graceful o) l = ground arith
  step-IsLatched c (ptt b now) l = ptt-IsLatched c b now l
  step-IsLatched c (ticks now) l = ground arith
  step-IsLatched c shuts_down l = ground arith
  step-IsLatched c (sets_timeout s) l = ground arith

  -- Once a controller is faulted and unowned, no sequence of calls makes it leave the faulted
  -- state, gives anyone the transmitter, or runs a callback on the hardware context.
  pub run-IsLatched :
      (c : TxControl Ctx) (ks : List Call) → IsLatched ctx c → IsLatched ctx (run c ks)
  unfolding run
  run-IsLatched c [] l = l
  run-IsLatched c (k ∷ ks) l = run-IsLatched (step c k) ks (step-IsLatched c k l)

module _ {Ctx : Type 0} where
  stop_owner_result :
      (c : TxControl Ctx) (g : Bool)
      → c.owner ≢ none
      → ((stop_owner c g).1.owner ≡ none)
        × ((((stop_owner c g).0 ≡ ok) × ((stop_owner c g).1.state ≡ rx))
            ⊎ (((stop_owner c g).0 ≡ hardware_error) × ((stop_owner c g).1.state ≡ faulted)))
  unfolding stop_owner
  stop_owner_result c g h = ground arith

  -- While the controller is valid and enabled and a limit is set, a watchdog tick at `now`, on a clock that
  -- has not gone back and fits 64 bits, does one of three things: someone keeps the transmitter, the controller
  -- is unchanged, and less than the limit has passed; or the limit has passed and the owner is
  -- stopped, with `max_key` into receive or with `hardware_error` into the fault; or nobody
  -- owned the transmitter and nothing changes.
  pub tick_limit :
      (c : TxControl Ctx) (now : ℕ)
      → IsValid c
      → c.enabled ≡ true
      → c.maximum_key_ms ≢ 0
      → c.started_ms ≤ now
      → now < 2 ^ 64
      → ((c.owner ≢ none) × ((tick c now).1 ≡ c) × (now < c.started_ms + c.maximum_key_ms))
        ⊎ ((c.owner ≢ none)
            × (c.started_ms + c.maximum_key_ms ≤ now)
            × ((tick c now).1.owner ≡ none)
            × ((((tick c now).0 ≡ max_key) × ((tick c now).1.state ≡ rx))
                ⊎ (((tick c now).0 ≡ hardware_error) × ((tick c now).1.state ≡ faulted))))
        ⊎ ((c.owner ≡ none) × ((tick c now).1 ≡ c))
  unfolding tick
  tick_limit c now v on lim le fit = ground (arith, stop_owner_result c false)
