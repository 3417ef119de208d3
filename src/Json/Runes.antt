-- ===== src/Json/Runes.antt =====
-- Valid UTF-8, as encoding/json and `unicode/utf8` of the Go library see it.
use golang_videoencoder_api.Prelude.{
  ℕ, Bytes, ltb, [], ◌∷◌, ◌++◌, append_assoc, All, true, false, ◌≡◌, refl, arith, subst, sym,
}
use golang_videoencoder_api.Json.Utf8.{is_tail, starts_two, starts_three, starts_four, tail_width}

abbrev pub IsAscii : Bytes → Type 0
IsAscii = All (λ (c : ℕ). ltb c 0x80 ≡ true)

-- The bytes of one rune.
pub data IsRune : Bytes → Type 0 where
  one : (c : ℕ) → ltb c 0x80 ≡ true → IsRune (c ∷ [])
  two : (c d : ℕ) → starts_two c d ≡ true → IsRune (c ∷ d ∷ [])
  three : (c d e : ℕ) → starts_three c d ≡ true → is_tail e ≡ true → IsRune (c ∷ d ∷ e ∷ [])
  four :
      (c d e f : ℕ)
      → starts_four c d ≡ true
      → is_tail e ≡ true
      → is_tail f ≡ true
      → IsRune (c ∷ d ∷ e ∷ f ∷ [])

-- One rune after the other.
pub data IsUtf8 : Bytes → Type 0 where
  end : IsUtf8 []
  rune : {r s : Bytes} → IsRune r → IsUtf8 s → IsUtf8 (r ++ s)

pub IsAscii-IsUtf8 : (s : Bytes) → IsAscii s → IsUtf8 s
IsAscii-IsUtf8 [] ascii = end
IsAscii-IsUtf8 (c ∷ s) (first, ascii) = rune (one c first) (IsAscii-IsUtf8 s ascii)

pub append-IsUtf8 : {s t : Bytes} → IsUtf8 s → IsUtf8 t → IsUtf8 (s ++ t)
append-IsUtf8 end v = v
append-IsUtf8 {t = t} (rune {r} {s} c u) v =
    subst IsUtf8 (sym (append_assoc r s t)) (rune c (append-IsUtf8 u v))

pub tail_width_one : (c : ℕ) (s : Bytes) → ltb c 0x80 ≡ true → tail_width c s ≡ 0
unfolding tail_width
tail_width_one c [] h = refl
tail_width_one c (d ∷ []) h = ground arith
tail_width_one c (d ∷ e ∷ []) h = ground arith
tail_width_one c (d ∷ e ∷ f ∷ s) h = ground arith

pub tail_width_two : (c d : ℕ) (s : Bytes) → starts_two c d ≡ true → tail_width c (d ∷ s) ≡ 1
unfolding tail_width
tail_width_two c d [] h = rw h refl
tail_width_two c d (e ∷ []) h = rw h refl
tail_width_two c d (e ∷ f ∷ s) h = rw h refl

three_not_two : (c d : ℕ) → starts_three c d ≡ true → starts_two c d ≡ false
three_not_two c d h = ground arith

four_not_two : (c d : ℕ) → starts_four c d ≡ true → starts_two c d ≡ false
four_not_two c d h = ground arith

four_not_three : (c d : ℕ) → starts_four c d ≡ true → starts_three c d ≡ false
four_not_three c d h = ground arith

pub tail_width_three :
    (c d e : ℕ) (s : Bytes)
    → starts_three c d ≡ true
    → is_tail e ≡ true
    → tail_width c (d ∷ e ∷ s) ≡ 2
unfolding tail_width
tail_width_three c d e [] h t = rw (three_not_two c d h, h, t) refl
tail_width_three c d e (f ∷ s) h t = rw (three_not_two c d h, h, t) refl

pub tail_width_four :
    (c d e f : ℕ) (s : Bytes)
    → starts_four c d ≡ true
    → is_tail e ≡ true
    → is_tail f ≡ true
    → tail_width c (d ∷ e ∷ f ∷ s) ≡ 3
unfolding tail_width
tail_width_four c d e f s h t1 t2 = rw (four_not_two c d h, four_not_three c d h, h, t1, t2) refl
