-- ===== src/TxControl/Owner.antt =====
-- What each call of src/tx_control.c can do to the owner: the facts that its clients rely on.
use flex1500d.Base.{ℕ, ◌≡◌, ◌≢◌, ◌⊎◌, Bool, true, false, arith}
use flex1500d.TxControl.{
  TxControl, TxOwner, none, physical_mic, ok, valid_owner, stop_owner, request, key, release_with,
  press, physical_ptt, tick, shutdown,
}
use flex1500d.TxControl.Invariant.{IsValid}

module _ {Ctx : Type 0} (c : TxControl Ctx) where
  -- A request either gives `o` the transmitter or leaves the owner as it was.
  pub request_owner :
      (o : TxOwner) (now : ℕ)
      → (((request c o now).0 ≡ ok) × ((request c o now).1.owner ≡ o))
        ⊎ (((request c o now).0 ≢ ok) × ((request c o now).1.owner ≡ c.owner))
  unfolding request key
  request_owner o now = ground arith

  pub stop_owner-owner : (g : Bool) → (stop_owner c g).1.owner ≡ none
  unfolding stop_owner
  stop_owner-owner g = ground arith

  -- After a release by `o`, successful or not, `o` does not own the transmitter; another owner
  -- keeps it.
  pub release_with-owner :
      (g : Bool) (o : TxOwner)
      → IsValid c
      → o ≢ none
      → ((release_with g c o).1.owner ≢ o)
        × (((release_with g c o).1.owner ≡ c.owner) ⊎ ((release_with g c o).1.owner ≡ none))
  unfolding release_with valid_owner
  release_with-owner g o v h = ground (arith, stop_owner-owner g)

  pub release_with_frame :
      (g : Bool) (o : TxOwner)
      → ((release_with g c o).1.owner ≡ c.owner) ⊎ ((release_with g c o).1.owner ≡ none)
  unfolding release_with
  release_with_frame g o = ground (arith, stop_owner-owner g)

  pub tick-owner : (now : ℕ) → ((tick c now).1.owner ≡ c.owner) ⊎ ((tick c now).1.owner ≡ none)
  unfolding tick
  tick-owner now = ground (arith, stop_owner-owner false)

  pub shutdown-owner : (shutdown c).owner ≡ none
  unfolding shutdown
  shutdown-owner = ground (arith, stop_owner-owner false)

module _ {Ctx : Type 0} (c : TxControl Ctx) where
  press-owner :
      (now : ℕ)
      → ((press c now).1.owner ≡ c.owner)
        ⊎ ((press c now).1.owner ≡ none)
        ⊎ ((press c now).1.owner ≡ physical_mic)
  unfolding press
  press-owner now = ground (
    arith,
    stop_owner-owner c false,
    request_owner c physical_mic now,
    request_owner (stop_owner c false).1 physical_mic now,
  )

module _ {Ctx : Type 0} (c : TxControl Ctx) where
  -- The button keeps the owner, frees the transmitter, or gives it to the microphone.
  pub physical_ptt-owner :
      (b : Bool) (now : ℕ)
      → ((physical_ptt c b now).1.owner ≡ c.owner)
        ⊎ ((physical_ptt c b now).1.owner ≡ none)
        ⊎ ((physical_ptt c b now).1.owner ≡ physical_mic)
  unfolding physical_ptt
  physical_ptt-owner b now = ground (
    arith,
    stop_owner-owner (record c { physical_ptt_pressed = b }) true,
    press-owner (record c { physical_ptt_pressed = b }) now,
  )
