-- ===== src/Json/Rounds.antt =====
-- The rounds of the reader and the writer of strings of encoding/json.
use golang_videoencoder_api.Prelude.{
  ℕ, zero, suc, ◌≤◌, Bytes, ltb, ◌==◌, ◌&&◌, [], ◌∷◌, ◌++◌, length, drop, Option, none, some, ◌≡◌,
  refl, ap, arith, inl, inr, Bool-cases,
}
use golang_videoencoder_api.Json.Utf8.{between, is_surrogate, tail_width}
use golang_videoencoder_api.Json.Strings.{
  backslash, is_hex, unicode_escape, join_surrogates, read_escape, read_rune, write_rune, escape_of,
  read_char, unquote, is_line_separator, write_char, quote_body,
}

-- What follows an escape is no longer than the text.
abbrev Shrinks : ℕ → Option (ℕ × Bytes) → Type 0
Shrinks n none = Unit
Shrinks n (some (_, rest)) = length rest ≤ n

drop_shorter : (n : ℕ) (s : Bytes) → length (drop n s) ≤ length s
drop_shorter zero s = omega arith
drop_shorter (suc n) [] = omega arith
drop_shorter (suc n) (c ∷ s) = omega (arith, drop_shorter n s)

unicode_escape-Shrinks :
    (c : ℕ) (s : Bytes) → Shrinks (length s) (unicode_escape (backslash ∷ c ∷ s))
unfolding unicode_escape
unicode_escape-Shrinks c [] = tt
unicode_escape-Shrinks c (x ∷ []) = tt
unicode_escape-Shrinks c (x ∷ y ∷ []) = tt
unicode_escape-Shrinks c (x ∷ y ∷ z ∷ []) = tt
unicode_escape-Shrinks c (x ∷ y ∷ z ∷ u ∷ s) =
    elim (Bool-cases (c == b'u' && (is_hex x && (is_hex y && (is_hex z && is_hex u))))) [
      | inl h ↦ rw h (omega arith)
      | inr h ↦ rw h tt
    ]

any_unicode_escape-Shrinks : (s : Bytes) → Shrinks (length s) (unicode_escape s)
unfolding unicode_escape
any_unicode_escape-Shrinks [] = tt
any_unicode_escape-Shrinks (c0 ∷ []) = tt
any_unicode_escape-Shrinks (c0 ∷ c1 ∷ []) = tt
any_unicode_escape-Shrinks (c0 ∷ c1 ∷ a ∷ []) = tt
any_unicode_escape-Shrinks (c0 ∷ c1 ∷ a ∷ b ∷ []) = tt
any_unicode_escape-Shrinks (c0 ∷ c1 ∷ a ∷ b ∷ c ∷ []) = tt
any_unicode_escape-Shrinks (c0 ∷ c1 ∷ a ∷ b ∷ c ∷ d ∷ s) =
    elim (Bool-cases
      (c0 == backslash && (c1 == b'u' && (is_hex a && (is_hex b && (is_hex c && is_hex d)))))) [
        | inl h ↦ rw h (omega arith)
        | inr h ↦ rw h tt
      ]

join_surrogates-shorter :
    (r n : ℕ) (s : Bytes) (o : Option (ℕ × Bytes))
    → length s ≤ n
    → Shrinks (length s) o
    → length (join_surrogates r s o).1 ≤ n
join_surrogates-shorter r n s none h k = h
join_surrogates-shorter r n s (some (r', t)) h k =
    elim (Bool-cases (between 0xD800 0xDBFF r && between 0xDC00 0xDFFF r')) [
      | inl e ↦ rw e (omega arith)
      | inr e ↦ rw e h
    ]

read_escape-shorter :
    (c n : ℕ) (s : Bytes) (o : Option (ℕ × Bytes))
    → length s ≤ n
    → Shrinks (length s) o
    → length (read_escape c s o).1 ≤ n
read_escape-shorter c n s none h k = h
read_escape-shorter c n s (some (r, t)) h k = elim (Bool-cases (is_surrogate r)) [
  | inl e ↦ rw e (
      join_surrogates-shorter r n t (unicode_escape t) (omega arith) (any_unicode_escape-Shrinks t))
  | inr e ↦ rw e (omega arith)
]

escape_of-shorter : (s : Bytes) → length (escape_of s).1 ≤ length s
escape_of-shorter [] = omega arith
escape_of-shorter (c ∷ s) =
    read_escape-shorter c (suc (length s)) s (unicode_escape (backslash ∷ c ∷ s)) (omega arith)
      (unicode_escape-Shrinks c s)

read_rune-shorter : (c : ℕ) (s : Bytes) (n : ℕ) → length (read_rune c s n).1 ≤ length s
read_rune-shorter c s zero = elim (Bool-cases (ltb c 0x80)) [
  | inl e ↦ rw e (omega arith)
  | inr e ↦ rw e (omega arith)
]
read_rune-shorter c s (suc k) = drop_shorter (suc k) s

read_char-shorter : (c : ℕ) (s : Bytes) → length (read_char c s).1 ≤ length s
unfolding read_char
read_char-shorter c s = elim (Bool-cases (c == backslash)) [
  | inl e ↦ rw e (escape_of-shorter s)
  | inr e ↦ rw e (read_rune-shorter c s (tail_width c s))
]

-- A round more than there are bytes changes nothing, so the number of the bytes is fuel enough.
pub unquote_enough : (n : ℕ) (s : Bytes) → length s ≤ n → unquote (suc n) s ≡ unquote n s
unfolding unquote
unquote_enough zero [] h = refl
unquote_enough zero (c ∷ s) h = absurd (omega arith)
unquote_enough (suc n) [] h = refl
unquote_enough (suc n) (c ∷ s) h =
    ap (λ (l : Bytes). (read_char c s).0 ++ l)
      (unquote_enough n (read_char c s).1 (omega (arith, read_char-shorter c s)))

write_rune-shorter : (c : ℕ) (s : Bytes) (n : ℕ) → length (write_rune c s n).1 ≤ length s
write_rune-shorter c s zero = omega arith
write_rune-shorter c s (suc k) = elim (Bool-cases (is_line_separator (c ∷ s))) [
  | inl e ↦ rw e (drop_shorter 2 s)
  | inr e ↦ rw e (drop_shorter (suc k) s)
]

write_char-shorter : (c : ℕ) (s : Bytes) → length (write_char c s).1 ≤ length s
unfolding write_char
write_char-shorter c s = elim (Bool-cases (ltb c 0x80)) [
  | inl e ↦ rw e (omega arith)
  | inr e ↦ rw e (write_rune-shorter c s (tail_width c s))
]

-- The same of the writer.
pub quote_body_enough : (n : ℕ) (s : Bytes) → length s ≤ n → quote_body (suc n) s ≡ quote_body n s
unfolding quote_body
quote_body_enough zero [] h = refl
quote_body_enough zero (c ∷ s) h = absurd (omega arith)
quote_body_enough (suc n) [] h = refl
quote_body_enough (suc n) (c ∷ s) h =
    ap (λ (l : Bytes). (write_char c s).0 ++ l)
      (quote_body_enough n (write_char c s).1 (omega (arith, write_char-shorter c s)))
