-- ===== src/Json/Utf8.antt =====
-- UTF-8, as Go's package `unicode/utf8` reads and writes it.
use golang_videoencoder_api.Prelude.{
  ℕ, ◌+◌, Bytes, ltb, leb, if◌then◌else◌, [], ◌∷◌, Bool, ◌&&◌, ◌||◌,
}
use Prim.Native.Nat.{◌/◌, ◌%◌}

abbrev pub between : ℕ → ℕ → ℕ → Bool
between lo hi c = leb lo c && leb c hi

abbrev pub is_tail : ℕ → Bool
is_tail c = between 0x80 0xBF c

-- The first two bytes of a rune of so many bytes.
abbrev pub starts_two : ℕ → ℕ → Bool
starts_two c d = between 0xC2 0xDF c && is_tail d

abbrev pub starts_three : ℕ → ℕ → Bool
starts_three c d =
    (between 0xE0 0xE0 c && between 0xA0 0xBF d)
    || ((between 0xE1 0xEC c && is_tail d)
        || ((between 0xED 0xED c && between 0x80 0x9F d) || (between 0xEE 0xEF c && is_tail d)))

abbrev pub starts_four : ℕ → ℕ → Bool
starts_four c d =
    (between 0xF0 0xF0 c && between 0x90 0xBF d)
    || ((between 0xF1 0xF3 c && is_tail d) || (between 0xF4 0xF4 c && between 0x80 0x8F d))

-- The number of bytes behind the first byte of a rune, and 0 if they do not form a rune with it.
unfoldable pub tail_width : ℕ → Bytes → ℕ
tail_width c [] = 0
tail_width c (d ∷ []) = if starts_two c d then 1 else 0
tail_width c (d ∷ e ∷ []) =
    if starts_two c d then 1 else if starts_three c d && is_tail e then 2 else 0
tail_width c (d ∷ e ∷ f ∷ _) =
    if starts_two c d
    then 1
    else if starts_three c d && is_tail e
    then 2
    else if starts_four c d && (is_tail e && is_tail f)
    then 3
    else 0

-- The bytes of U+FFFD, the replacement character.
abbrev pub replacement : Bytes
replacement = 0xEF ∷ 0xBF ∷ 0xBD ∷ []

abbrev pub is_surrogate : ℕ → Bool
is_surrogate r = between 0xD800 0xDFFF r

-- `utf8.AppendRune`
unfoldable pub encode_rune : ℕ → Bytes
encode_rune r =
    if ltb r 0x80
    then r ∷ []
    else if ltb r 0x800
    then (0xC0 + r / 64) ∷ (0x80 + r % 64) ∷ []
    else if is_surrogate r || ltb 0x10FFFF r
    then replacement
    else if ltb r 0x10000
    then (0xE0 + r / 4096) ∷ (0x80 + r / 64 % 64) ∷ (0x80 + r % 64) ∷ []
    else (0xF0 + r / 262144) ∷ (0x80 + r / 4096 % 64) ∷ (0x80 + r / 64 % 64) ∷ (0x80 + r % 64) ∷ []
