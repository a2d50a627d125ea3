-- ===== src/Station/OnAir.antt =====
-- The states that the transmit side of src/flex1500d.c can reach, and why the radio is on the air.
use flex1500d.Base.{◌≡◌, ◌≢◌, ◌⊎◌, Bool, true, false, arith}
use flex1500d.Base.Ints.{ℤ}
use flex1500d.TxControl
use flex1500d.TxControl.{TxControl, TxOwner, TxState}
use flex1500d.TxControl.Hardware.{Unkeys}
use flex1500d.TuneControl
use flex1500d.NetworkTx
use flex1500d.NetworkTx.{min_prebuffer_frames, valid_profile}
use flex1500d.NetworkTx.Link
use flex1500d.Station.{Station, start_up, recover}
use flex1500d.Station.Keep.{
  IsGood, tune_start-IsGood, tune_keepalive-IsGood, tune_stop-IsGood, tx_ptt_start-IsGood,
  tx_ptt_stop-IsGood, tx_release-IsGood, tx_disconnect-IsGood, quiet_net-IsGood, station-IsGood,
  tx_timeout-IsGood,
}
use flex1500d.Station.Rounds.{watchdogs-IsGood, microphone_edge-IsGood, usb_failure-IsGood}
use flex1500d.Station.Events.{
  Event, tune_start, tune_keepalive, tune_stop, tx_acquire, tx_keepalive, tx_stream, tx_ptt_start,
  tx_data, tx_ptt_stop, tx_release, tx_disconnect, owner_acquire, owner_keepalive, owner_release,
  tx_timeout, button, round, usb_fails, apply,
}

module _ {Ctx : Type 0} (keyed : Ctx → Bool) (start : Ctx → TxOwner → ℤ × Ctx)
    (stop : Ctx → TxOwner → Bool → ℤ × Ctx) where
  -- An event, or a recovery over a radio that was opened anew and is off the air.
  pub data Step (enabled : Bool) (s : Station Ctx) : Station Ctx → Type 0 where
    does : (e : Event) → Step enabled s (apply s e)
    recovers :
        (context : Ctx)
        → keyed context ≡ false
        → Step enabled s (recover s enabled context start stop)

  pub data Reach (enabled : Bool) : Station Ctx → Type 0 where
    starts :
        (context : Ctx)
        → keyed context ≡ false
        → Reach enabled (start_up enabled context start stop)
    next : {s t : Station Ctx} → Reach enabled s → Step enabled s t → Reach enabled t

module _ {Ctx : Type 0} (keyed : Ctx → Bool) (start : Ctx → TxOwner → ℤ × Ctx)
    (stop : Ctx → TxOwner → Bool → ℤ × Ctx) (unkeys : Unkeys keyed stop) where
  pub apply-IsGood :
      (s : Station Ctx) (e : Event) → IsGood keyed stop s → IsGood keyed stop (apply s e)
  unfolding apply
  apply-IsGood s (tune_start now lease) g = tune_start-IsGood keyed stop unkeys s g now lease
  apply-IsGood s (tune_keepalive now lease) g =
      tune_keepalive-IsGood keyed stop unkeys s g now lease
  apply-IsGood s (tune_stop lease) g = tune_stop-IsGood keyed stop unkeys s g lease
  apply-IsGood s (tx_acquire p lease now) g =
      quiet_net-IsGood keyed stop unkeys s g _
        (Link.acquire-IsLinked s.net s.tx p lease now g.links.networked)
  apply-IsGood s (tx_keepalive lease now) g =
      quiet_net-IsGood keyed stop unkeys s g _
        (Link.keepalive-IsLinked s.net s.tx lease now g.links.networked)
  apply-IsGood s (tx_stream lease now) g =
      quiet_net-IsGood keyed stop unkeys s g _
        (Link.attach_stream-IsLinked s.net s.tx lease now g.links.networked)
  apply-IsGood s (tx_ptt_start lease now) g = tx_ptt_start-IsGood keyed stop unkeys s g lease now
  apply-IsGood s (tx_data lease frames now) g =
      quiet_net-IsGood keyed stop unkeys s g _
        (Link.record_data-IsLinked s.net s.tx lease frames now g.links.networked)
  apply-IsGood s (tx_ptt_stop lease) g = tx_ptt_stop-IsGood keyed stop unkeys s g lease
  apply-IsGood s (tx_release lease) g = tx_release-IsGood keyed stop unkeys s g lease
  apply-IsGood s tx_disconnect g = tx_disconnect-IsGood keyed stop unkeys s g
  apply-IsGood s (owner_acquire lease now aware) g = station-IsGood keyed stop unkeys s g _
  apply-IsGood s (owner_keepalive lease now) g = station-IsGood keyed stop unkeys s g _
  apply-IsGood s (owner_release lease) g = ground (arith, station-IsGood keyed stop unkeys s g)
  apply-IsGood s (tx_timeout seconds) g = tx_timeout-IsGood keyed stop unkeys s g seconds
  apply-IsGood s (button pressed allowed now) g =
      microphone_edge-IsGood keyed stop unkeys s g pressed allowed now
  apply-IsGood s (round t₀ t₁ t₂ t₃) g = watchdogs-IsGood keyed stop unkeys s t₀ t₁ t₂ t₃ g
  apply-IsGood s usb_fails g = usb_failure-IsGood keyed stop unkeys s g

  pub start_up-IsGood :
      (enabled : Bool) (context : Ctx)
      → keyed context ≡ false
      → IsGood keyed stop (start_up enabled context start stop)
  unfolding start_up TuneControl.init NetworkTx.init TxControl.init TxControl.arm_physical_ptt
  start_up-IsGood enabled context off = ground arith

  pub recover-IsGood :
      (s : Station Ctx) (enabled : Bool) (context : Ctx)
      → keyed context ≡ false
      → IsGood keyed stop (recover s enabled context start stop)
  unfolding recover TuneControl.init NetworkTx.init TxControl.init TxControl.arm_physical_ptt
  recover-IsGood s enabled context off = ground arith

  Step-IsGood :
      {enabled : Bool} {s t : Station Ctx}
      → Step keyed start stop enabled s t
      → IsGood keyed stop s
      → IsGood keyed stop t
  Step-IsGood {s} (does e) g = apply-IsGood s e g
  Step-IsGood {enabled} {s} (recovers context off) g = recover-IsGood s enabled context off

  Reach-IsGood :
      {enabled : Bool} {s : Station Ctx} → Reach keyed start stop enabled s → IsGood keyed stop s
  Reach-IsGood {enabled} (starts context off) = start_up-IsGood enabled context off
  Reach-IsGood (next r st) = Step-IsGood st (Reach-IsGood r)

  pub IsGood-cause :
      (s : Station Ctx)
      → IsGood keyed stop s
      → keyed s.tx.callback_context ≡ true
      → ((s.tx.owner ≡ TxOwner.tune) × (s.tune.active ≡ true) × (s.tune.lease ≢ 0))
        ⊎ ((s.tx.owner ≡ TxOwner.http)
            × (s.net.keyed ≡ true)
            × (s.net.reserved ≡ true)
            × (s.net.lease ≢ 0)
            × (valid_profile s.net.profile ≡ true)
            × (s.net.stream_connected ≡ true)
            × (s.net.buffered_frames ≡ min_prebuffer_frames))
        ⊎ ((s.tx.owner ≡ TxOwner.physical_mic)
            × (s.tx.physical_ptt_armed ≡ true)
            × (s.tx.physical_ptt_pressed ≡ true))
        ⊎ ((s.tx.owner ≡ TxOwner.none)
            × (s.tx.state ≡ TxState.faulted)
            × (s.tx.cleanup_failed ≡ true))
  IsGood-cause s g on = ground arith

  -- Suppose that a stop callback which returns 0 has taken the radio off the air, and that it is
  -- off the air at the start and after each recovery. Then in every state that the daemon reaches,
  -- by any requests, button edges, watchdog rounds, USB failures and recoveries at any times, a radio on the air
  -- has one of four causes: an active Tune lease, not 0, whose owner transmits; a reserved network
  -- session with a nonzero lease, a valid profile, its stream and the whole prebuffer, whose owner transmits; the
  -- armed microphone with its button down; or a cleanup that failed, with the controller faulted
  -- and unowned.
  pub on_air_cause :
      (enabled : Bool) (s : Station Ctx)
      → Reach keyed start stop enabled s
      → keyed s.tx.callback_context ≡ true
      → ((s.tx.owner ≡ TxOwner.tune) × (s.tune.active ≡ true) × (s.tune.lease ≢ 0))
        ⊎ ((s.tx.owner ≡ TxOwner.http)
            × (s.net.keyed ≡ true)
            × (s.net.reserved ≡ true)
            × (s.net.lease ≢ 0)
            × (valid_profile s.net.profile ≡ true)
            × (s.net.stream_connected ≡ true)
            × (s.net.buffered_frames ≡ min_prebuffer_frames))
        ⊎ ((s.tx.owner ≡ TxOwner.physical_mic)
            × (s.tx.physical_ptt_armed ≡ true)
            × (s.tx.physical_ptt_pressed ≡ true))
        ⊎ ((s.tx.owner ≡ TxOwner.none)
            × (s.tx.state ≡ TxState.faulted)
            × (s.tx.cleanup_failed ≡ true))
  on_air_cause enabled s r on = IsGood-cause s (Reach-IsGood r) on
