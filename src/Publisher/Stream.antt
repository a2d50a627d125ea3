-- ===== src/Publisher/Stream.antt =====
-- The publisher of src/publisher.c sends the bytes of a frame in order and once.
use flex1500d.Base.{
  ℕ, zero, suc, ◌+◌, ◌<◌, ◌≤◌, ◌≡◌, ◌⊎◌, inl, inr, refl, ap, sym, ◌∙◌, true, List, [], ◌∷◌, ◌++◌,
  ltb, ◌==◌, Bool-cases, arith,
}
use flex1500d.Base.Lists.{length, take, drop, take-append-drop}
use flex1500d.Publisher.{
  IqPublisher, PublishResult, ok, empty, would_block, disconnected, error, advance, settle,
  remaining, disconnect, note_would_block, note_disconnect, note_error, prepare_frame, pump,
}

drop_nil : {A : Type 0} (n : ℕ) → ◌≡◌ {A = List A} (drop n []) []
drop_nil zero = refl
drop_nil (suc n) = refl

-- What is left of a list behind `m` and then `n` elements.
drop-drop : {A : Type 0} (m n : ℕ) (xs : List A) → drop n (drop m xs) ≡ drop (m + n) xs
drop-drop zero n xs = ap (λ k. drop k xs) {x = n} {y = 0 + n} (omega arith)
drop-drop (suc m) n [] = drop_nil n ∙ sym (drop_nil (suc m + n))
drop-drop (suc m) n (x ∷ xs) =
    drop-drop m n xs ∙ ap (λ k. drop k (x ∷ xs)) {x = suc (m + n)} {y = suc m + n} (omega arith)

drop_over : {A : Type 0} (n : ℕ) (xs : List A) → length xs ≤ n → drop n xs ≡ []
drop_over n [] h = drop_nil n
drop_over zero (x ∷ xs) h = absurd (omega arith)
drop_over (suc n) (x ∷ xs) h = drop_over n xs (omega arith)

advance-remaining : (p : IqPublisher) (n : ℕ) → remaining (advance p n) ≡ drop n (remaining p)
unfolding advance remaining
advance-remaining p n = elim (Bool-cases (p.pending_offset + n == length p.pending)) [
  | inl e ↦ rw e (
      sym (
        drop-drop p.pending_offset n p.pending
        ∙ drop_over (p.pending_offset + n) p.pending (ground arith)))
  | inr e ↦ rw e (sym (drop-drop p.pending_offset n p.pending))
]

note_disconnect-remaining : (p : IqPublisher) → remaining (note_disconnect p) ≡ []
unfolding note_disconnect disconnect remaining
note_disconnect-remaining p = refl

note_error-remaining : (p : IqPublisher) → remaining (note_error p) ≡ remaining p
unfolding note_error remaining
note_error-remaining p = refl

note_would_block-remaining : (p : IqPublisher) → remaining (note_would_block p) ≡ remaining p
unfolding note_would_block remaining
note_would_block-remaining p = refl

-- What the writer's result and the bytes that it took make of the bytes that waited: the answer,
-- and what is left of them.
unfoldable pub Moves : List ℕ → PublishResult → ℕ → PublishResult → List ℕ → Type 0
Moves waited ok written answer left =
    (0 < written × written ≤ length waited × answer ≡ ok × take written waited ++ left ≡ waited)
    ⊎ ((written ≡ 0 ⊎ length waited < written) × answer ≡ error × left ≡ waited)
Moves waited would_block written answer left = answer ≡ would_block × left ≡ waited
Moves waited disconnected written answer left = answer ≡ disconnected × left ≡ []
Moves waited empty written answer left = answer ≡ error × left ≡ waited
Moves waited error written answer left = answer ≡ error × left ≡ waited

settle-Moves :
    (p : IqPublisher) (result : PublishResult) (n : ℕ)
    → Moves (remaining p) result n (settle p result n).0 (remaining (settle p result n).1)
unfolding settle Moves
settle-Moves p would_block n = (refl, note_would_block-remaining p)
settle-Moves p disconnected n = (refl, note_disconnect-remaining p)
settle-Moves p empty n = (refl, note_error-remaining p)
settle-Moves p error n = (refl, note_error-remaining p)
settle-Moves p ok n = elim (Bool-cases (n == 0)) [
  | inl e ↦ rw e (inr (inl (ground arith), refl, note_error-remaining p))
  | inr e ↦ elim (Bool-cases (ltb (length (remaining p)) n)) [
    | inl f ↦ rw (e, f) (inr (inr (ground arith), refl, note_error-remaining p))
    | inr f ↦
        rw (e, f)
          (inl (
            ground arith,
            ground arith,
            refl,
            ap (λ k. take n (remaining p) ++ k) (advance-remaining p n)
                ∙ take-append-drop n (remaining p),
          ))
  ]
]

module _ {W : Type 0} (writer : W → List ℕ → PublishResult × ℕ × W) where
  -- With a frame ready, a pump calls the writer once with the bytes that wait. Where it returns ok
  -- and took at least one byte and no more than there are, the answer is ok and the bytes behind
  -- those wait on; where it says that it took none or more than there are, the answer is an error and
  -- all of them wait on. Where it would block, the answer says so and all of them wait on; where it
  -- has lost its connection, the answer says so and the frame is dropped; any other result is an
  -- error and all of them wait on.
  pub pump-Moves :
      (p : IqPublisher) (w : W)
      → (prepare_frame p).0 ≡ true
      → let waited = remaining (prepare_frame p).1 in
        let (result, written, w') = writer w waited in
        Moves waited result written (pump writer p w).0 (remaining (pump writer p w).1)
        × (pump writer p w).2 ≡ w'
  unfolding pump
  pump-Moves p w h = rw h (
    settle-Moves (prepare_frame p).1 (writer w (remaining (prepare_frame p).1)).0
        (writer w (remaining (prepare_frame p).1)).1,
    refl,
  )
