-- ===== src/Requests/Words.antt =====
-- The mode and gain parsers of src/network.c accept exactly the words of their tables.
use mathlib.Core.Option.{some}
use flex1500d.Base.{
  ℕ, ◌≡◌, ◌↔◌, ◌⊎◌, inl, inr, refl, ap, ◌∙◌, true, List, [], ◌∷◌, ◌++◌, Bool-cases, Option-cases,
  arith,
}
use flex1500d.Requests.{
  after, first, is_word, find_word, parse_word, modes, gains, parse_rx_mode_request,
  parse_rx_gain_request, mode_prefix, gain_prefix,
}
use flex1500d.Requests.Parse.{after-append, after_sound, starts_with_space}

-- The word stands in the table.
unfoldable pub IsOneOf : List ℕ → List (List ℕ) → Type 0
IsOneOf w [] = ⊥
IsOneOf w (x ∷ xs) = (w ≡ x) ⊎ IsOneOf w xs

is_word_sound :
    (w value : List ℕ) → is_word w value ≡ true → (rest : List ℕ) × (value ≡ w ++ (32 ∷ rest))
unfolding is_word
is_word_sound w value h = elim (Option-cases (after w value)) [
  | inl e ↦ absurd (ground arith)
  | inr (rest, e) ↦
      let (tail, f) = starts_with_space rest (ground arith) in
      (tail, after_sound w value rest e ∙ ap (λ k. w ++ k) f)
]

find_word_sound :
    (ws : List (List ℕ)) (value w : List ℕ)
    → find_word ws value ≡ some w
    → IsOneOf w ws × is_word w value ≡ true
unfolding find_word IsOneOf
find_word_sound [] value w h = absurd (ground arith)
find_word_sound (x ∷ xs) value w h = elim (Bool-cases (is_word x value)) [
  | inl e ↦ (inl (ground arith), ground arith)
  | inr e ↦ let (a, b) = find_word_sound xs value w (ground arith) in (inr a, b)
]

parse_word_sound :
    (prefix : List ℕ) (ws : List (List ℕ)) (request w : List ℕ)
    → parse_word prefix ws request ≡ some w
    → IsOneOf w ws × ((rest : List ℕ) × (request ≡ prefix ++ (w ++ (32 ∷ rest))))
unfolding parse_word
parse_word_sound prefix ws request w h = elim (Option-cases (after prefix request)) [
  | inl e ↦ absurd (ground arith)
  | inr (value, e) ↦
      let (a, b) = find_word_sound ws value w (ground arith) in
      let (rest, f) = is_word_sound w value b in
      (a, (rest, after_sound prefix request value e ∙ ap (λ k. prefix ++ k) f))
]

parse_word_full :
    (prefix : List ℕ) (ws : List (List ℕ)) (request w rest : List ℕ)
    → request ≡ prefix ++ (w ++ (32 ∷ rest))
    → find_word ws (w ++ (32 ∷ rest)) ≡ some w
    → parse_word prefix ws request ≡ some w
unfolding parse_word
parse_word_full prefix ws request w rest e f =
    ground (arith, after-append prefix (w ++ (32 ∷ rest)))

mode_full : (w rest : List ℕ) → IsOneOf w modes → find_word modes (w ++ (32 ∷ rest)) ≡ some w
unfolding find_word is_word after first IsOneOf
mode_full w rest (inl e) = rw (e) refl
mode_full w rest (inr (inl e)) = rw (e) refl
mode_full w rest (inr (inr (inl e))) = rw (e) refl
mode_full w rest (inr (inr (inr (inl e)))) = rw (e) refl
mode_full w rest (inr (inr (inr (inr (inl e))))) = rw (e) refl
mode_full w rest (inr (inr (inr (inr (inr x))))) = elim x [ ]

gain_full : (w rest : List ℕ) → IsOneOf w gains → find_word gains (w ++ (32 ∷ rest)) ≡ some w
unfolding find_word is_word after first IsOneOf
gain_full w rest (inl e) = rw (e) refl
gain_full w rest (inr (inl e)) = rw (e) refl
gain_full w rest (inr (inr (inl e))) = rw (e) refl
gain_full w rest (inr (inr (inr (inl e)))) = rw (e) refl
gain_full w rest (inr (inr (inr (inr (inl e))))) = rw (e) refl
gain_full w rest (inr (inr (inr (inr (inr x))))) = elim x [ ]

-- A mode or a gain is accepted exactly if it is a word of its table and a space follows it.
pub parse_word_iff :
    (request w : List ℕ)
    → ((parse_rx_mode_request request ≡ some w)
        ↔ (IsOneOf w modes × ((rest : List ℕ) × (request ≡ mode_prefix ++ (w ++ (32 ∷ rest))))))
      × ((parse_rx_gain_request request ≡ some w)
          ↔ (IsOneOf w gains × ((rest : List ℕ) × (request ≡ gain_prefix ++ (w ++ (32 ∷ rest))))))
unfolding parse_rx_mode_request parse_rx_gain_request
parse_word_iff request w = (
  (
    parse_word_sound mode_prefix modes request w,
    λ p. parse_word_full mode_prefix modes request w p.1.0 p.1.1 (mode_full w p.1.0 p.0),
  ),
  (
    parse_word_sound gain_prefix gains request w,
    λ p. parse_word_full gain_prefix gains request w p.1.0 p.1.1 (gain_full w p.1.0 p.0),
  ),
)
