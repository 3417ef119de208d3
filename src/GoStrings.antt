-- ===== src/GoStrings.antt =====
-- `strings.TrimSpace` and `strings.IndexByte` of the Go library, on UTF-8, for internal/api.
pub mod Trimming
pub mod Backwards
pub mod Rounds
use golang_videoencoder_api.Prelude.{
  ℕ, zero, suc, Bytes, bytes, leb, ◌==◌, if◌then◌else◌, [], ◌∷◌, Bool, false, ◌&&◌, ◌||◌, length,
  ◌≡◌, refl,
}

abbrev range : ℕ → ℕ → ℕ → Bool
range low high c = leb low c && leb c high

-- `unicode.IsSpace`, by the length of the rune in bytes.
abbrev is_space1 : ℕ → Bool
is_space1 c = range 9 13 c || c == 32

abbrev is_space2 : ℕ → ℕ → Bool
is_space2 c d = c == 0xC2 && (d == 0x85 || d == 0xA0)

abbrev is_space3 : ℕ → ℕ → ℕ → Bool
is_space3 c d e =
    (c == 0xE1 && (d == 0x9A && e == 0x80))
    || ((c == 0xE2
          && ((d == 0x80 && (range 0x80 0x8A e || (e == 0xA8 || (e == 0xA9 || e == 0xAF))))
              || (d == 0x81 && e == 0x9F)))
        || (c == 0xE3 && (d == 0x80 && e == 0x80)))

-- Without the spaces in front. Each step takes one rune, so the length is enough fuel.
unfoldable pub trim_left : ℕ → Bytes → Bytes
trim_left zero s = s
trim_left (suc fuel) [] = []
trim_left (suc fuel) (c ∷ []) = if is_space1 c then [] else c ∷ []
trim_left (suc fuel) (c ∷ d ∷ []) =
    let next1 = trim_left fuel (d ∷ []) in
    if is_space1 c then next1 else if is_space2 c d then [] else c ∷ d ∷ []
trim_left (suc fuel) (c ∷ d ∷ e ∷ s) =
    let next1 = trim_left fuel (d ∷ e ∷ s) in
    let next2 = trim_left fuel (e ∷ s) in
    let next3 = trim_left fuel s in
    if is_space1 c
    then next1
    else if is_space2 c d
    then next2
    else if is_space3 c d e
    then next3
    else c ∷ d ∷ e ∷ s

-- The same on a reversed text.
unfoldable pub trim_left_reversed : ℕ → Bytes → Bytes
trim_left_reversed zero s = s
trim_left_reversed (suc fuel) [] = []
trim_left_reversed (suc fuel) (c ∷ []) = if is_space1 c then [] else c ∷ []
trim_left_reversed (suc fuel) (d ∷ c ∷ []) =
    let next1 = trim_left_reversed fuel (c ∷ []) in
    if is_space1 d then next1 else if is_space2 c d then [] else d ∷ c ∷ []
trim_left_reversed (suc fuel) (e ∷ d ∷ c ∷ s) =
    let next1 = trim_left_reversed fuel (d ∷ c ∷ s) in
    let next2 = trim_left_reversed fuel (c ∷ s) in
    let next3 = trim_left_reversed fuel s in
    if is_space1 e
    then next1
    else if is_space2 d e
    then next2
    else if is_space3 c d e
    then next3
    else e ∷ d ∷ c ∷ s

unfoldable pub reversed : Bytes → Bytes → Bytes
reversed [] done = done
reversed (c ∷ s) done = reversed s (c ∷ done)

-- `strings.TrimSpace`
unfoldable pub trim_space : Bytes → Bytes
unfolding trim_left trim_left_reversed reversed
trim_space s =
    let front = trim_left (length s) s in
    reversed (trim_left_reversed (length front) (reversed front [])) []

-- `strings.IndexByte(s, b) >= 0`
unfoldable pub has_byte : ℕ → Bytes → Bool
has_byte b [] = false
has_byte b (c ∷ s) = c == b || has_byte b s

trim_both : trim_space (bytes " \ta b\n ") ≡ bytes "a b"
unfolding trim_space bytes
trim_both = refl

trim_wide :
    (trim_space (0xE3 ∷ 0x80 ∷ 0x80 ∷ 0x61 ∷ 0xC2 ∷ 0xA0 ∷ []) ≡ 0x61 ∷ [])
    × (trim_space (0x20 ∷ 0xC2 ∷ 0x85 ∷ []) ≡ [])
unfolding trim_space
trim_wide = (refl, refl)
