-- ===== src/Json/Beginnings.antt =====
-- The runes that `tail_width` and `encode_rune` give, which are those of `unicode/utf8`.
use golang_videoencoder_api.Prelude.{
  ℕ, Bytes, ltb, [], ◌∷◌, true, ◌&&◌, ◌||◌, ◌≡◌, refl, arith, inl, inr, Bool-cases,
}
use golang_videoencoder_api.Json.Utf8.{
  is_tail, starts_two, starts_three, starts_four, tail_width, is_surrogate, encode_rune,
}
use golang_videoencoder_api.Json.Runes.{IsRune, one, two, three, four}

-- Behind the byte come so many bytes that form a rune with it.
pub data Begins (c : ℕ) : Bytes → ℕ → Type 0 where
  alone : {s : Bytes} → Begins c s 0
  with_one : (d : ℕ) {s : Bytes} → starts_two c d ≡ true → Begins c (d ∷ s) 1
  with_two :
      (d e : ℕ) {s : Bytes} → starts_three c d ≡ true → is_tail e ≡ true → Begins c (d ∷ e ∷ s) 2
  with_three :
      (d e f : ℕ) {s : Bytes}
      → starts_four c d ≡ true
      → is_tail e ≡ true
      → is_tail f ≡ true
      → Begins c (d ∷ e ∷ f ∷ s) 3

pub tail_width-Begins : (c : ℕ) (s : Bytes) → Begins c s (tail_width c s)
unfolding tail_width
tail_width-Begins c [] = alone
tail_width-Begins c (d ∷ []) = elim (Bool-cases (starts_two c d)) [
  | inl h ↦ rw h (with_one d h)
  | inr h ↦ rw h alone
]
tail_width-Begins c (d ∷ e ∷ []) = elim (Bool-cases (starts_two c d)) [
  | inl h ↦ rw h (with_one d h)
  | inr h ↦ elim (Bool-cases (starts_three c d && is_tail e)) [
    | inl h2 ↦ rw (h, h2) (with_two d e (ground arith) (ground arith))
    | inr h2 ↦ rw (h, h2) alone
  ]
]
tail_width-Begins c (d ∷ e ∷ f ∷ s) = elim (Bool-cases (starts_two c d)) [
  | inl h ↦ rw h (with_one d h)
  | inr h ↦ elim (Bool-cases (starts_three c d && is_tail e)) [
    | inl h2 ↦ rw (h, h2) (with_two d e (ground arith) (ground arith))
    | inr h2 ↦ elim (Bool-cases (starts_four c d && (is_tail e && is_tail f))) [
      | inl h3 ↦ rw (h, h2, h3) (with_three d e f (ground arith) (ground arith) (ground arith))
      | inr h3 ↦ rw (h, h2, h3) alone
    ]
  ]
]

pub replacement-IsRune : IsRune (0xEF ∷ 0xBF ∷ 0xBD ∷ [])
replacement-IsRune = three 0xEF 0xBF 0xBD refl refl

pub encode_rune-IsRune : (r : ℕ) → IsRune (encode_rune r)
unfolding encode_rune
encode_rune-IsRune r = elim (Bool-cases (ltb r 0x80)) [
  | inl h ↦ rw h (one r h)
  | inr h1 ↦ elim (Bool-cases (ltb r 0x800)) [
    | inl h ↦ rw (h1, h) (two _ _ (ground arith))
    | inr h2 ↦ elim (Bool-cases (is_surrogate r || ltb 0x10FFFF r)) [
      | inl h ↦ rw (h1, h2, h) replacement-IsRune
      | inr h3 ↦ elim (Bool-cases (ltb r 0x10000)) [
        | inl h ↦ rw (h1, h2, h3, h) (three _ _ _ (ground arith) (ground arith))
        | inr h4 ↦ rw (h1, h2, h3, h4) (four _ _ _ _ (ground arith) (ground arith) (ground arith))
      ]
    ]
  ]
]
