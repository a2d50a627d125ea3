-- ===== src/Api/Profile.antt =====
-- `parse_tx_profile` of src/api.c, with `sscanf` as a parameter.
use mathlib.Core.Option.{Option, some, none}
use flex1500d.Base.{ℕ, List, [], ◌∷◌, ◌&&◌, if◌then◌else◌, ◌==◌}
use flex1500d.Base.Lists.{drop}
use flex1500d.NetworkTx.{NetworkTxProfile, NetworkTxMode, NetworkTxSource}
use flex1500d.Api.Text.{codes, find}
use flex1500d.Api.{text_is}

-- `sscanf` with a literal that is followed by `%7[a-z]"`, by `%7[a-z0-9]"` and by `%u`, where it
-- reads one item.
pub record Scan : Type 0 where
  pub word : List ℕ → List ℕ → Option (List ℕ)
  pub name : List ℕ → List ℕ → Option (List ℕ)
  pub number : List ℕ → List ℕ → Option ℕ

-- The first literal has a space before the value, the second one has none.
unfoldable pub either :
    {A : Type 0} → (List ℕ → List ℕ → Option A) → List ℕ → List ℕ → List ℕ → Option A
either scan spaced tight cursor = elim (scan spaced cursor) [
  | none ↦ scan tight cursor
  | some value ↦ some value
]

unfoldable pub field :
    {A : Type 0} → (List ℕ → List ℕ → Option A) → (key spaced tight body : List ℕ) → Option A
field scan key spaced tight body = elim (find key body) [
  | none ↦ none
  | some cursor ↦ either scan spaced tight cursor
]

unfoldable pub profile_mode : List ℕ → Option NetworkTxMode
profile_mode text =
    if text_is text (codes "usb")
    then some NetworkTxMode.usb
    else if text_is text (codes "lsb")
    then some NetworkTxMode.lsb
    else if text_is text (codes "am")
    then some NetworkTxMode.am
    else if text_is text (codes "iq")
    then some NetworkTxMode.iq_mode
    else none

-- The source, with its format and its one channel.
unfoldable pub profile_source : (source format : List ℕ) → (channels : ℕ) → Option NetworkTxSource
profile_source source format channels =
    if text_is source (codes "audio") && text_is format (codes "s16le") && channels == 1
    then some NetworkTxSource.audio
    else if text_is source (codes "iq") && text_is format (codes "cs16le") && channels == 1
    then some NetworkTxSource.iq
    else none

unfoldable pub make_profile :
    (mode source format : List ℕ) → (drive rate channels : ℕ) → Option NetworkTxProfile
make_profile mode source format drive rate channels = elim (profile_mode mode) [
  | none ↦ none
  | some m ↦ elim (profile_source source format channels) [
    | none ↦ none
    | some s ↦ some (record { mode = m; source = s; drive_percent = drive; sample_rate = rate })
  ]
]

infixl 5 ◌>>=◌
abbrev ◌>>=◌ : {A B : Type 0} → Option A → (A → Option B) → Option B
none >>= k = none
some a >>= k = k a

module _ (scan : Scan) where
  -- The body's fields, and a profile of them.
  unfoldable pub body_profile : List ℕ → Option NetworkTxProfile
  body_profile body = do
    mode ← field scan.word (codes "\"mode\":") (codes "\"mode\": \"") (codes "\"mode\":\"") body
    source ←
        field scan.word (codes "\"source\":") (codes "\"source\": \"") (codes "\"source\":\"") body
    drive ←
        field scan.number (codes "\"drive_percent\":") (codes "\"drive_percent\": ")
          (codes "\"drive_percent\":") body
    rate ←
        field scan.number (codes "\"sample_rate\":") (codes "\"sample_rate\": ")
          (codes "\"sample_rate\":") body
    format ←
        field scan.name (codes "\"sample_format\":") (codes "\"sample_format\": \"")
          (codes "\"sample_format\":\"") body
    channels ←
        field scan.number (codes "\"channels\":") (codes "\"channels\": ") (codes "\"channels\":")
          body
    make_profile mode source format drive rate channels

  unfoldable pub parse_tx_profile : List ℕ → Option NetworkTxProfile
  parse_tx_profile request = elim (find (13 ∷ 10 ∷ 13 ∷ 10 ∷ []) request) [
    | none ↦ none
    | some body ↦ body_profile (drop 4 body)
  ]
