-- ===== src/Json/Unquoting.antt =====
-- What encoding/json reads as a string is valid UTF-8, whatever bytes it is given.
use golang_videoencoder_api.Prelude.{
  ℕ, zero, suc, ◌+◌, ◌*◌, Bytes, ltb, ◌==◌, ◌&&◌, [], ◌∷◌, length, true, false, Option, none, some,
  ◌≡◌, refl, arith, subst, inl, inr, Bool-cases,
}
use golang_videoencoder_api.Json.Utf8.{between, is_surrogate, tail_width}
use golang_videoencoder_api.Json.Strings.{
  backslash, is_hex, is_simple_escape, plain, scan_string, hex_value, unicode_escape, simple_escape,
  join_surrogates, read_rune, escape_of, read_char, unquote, unquoted, read_string,
}
use golang_videoencoder_api.Json.Runes.{IsRune, one, two, three, four, IsUtf8, end, rune}
use golang_videoencoder_api.Json.Escapes.{unicode_escape_other}
use golang_videoencoder_api.Json.Beginnings.{
  Begins, alone, with_one, with_two, with_three, tail_width-Begins, replacement-IsRune,
  encode_rune-IsRune,
}
use golang_videoencoder_api.Json.Scanned.{
  Scans, Scans-plain, Scans-slash, scan_string-Scans, digits, Escape, simple, numbered,
  Scans-Escape,
}

-- One rune was read, and the raw text behind it is one that the scanner lets through.
record IsGood (r : Bytes × Bytes) : Type 0 where
  valid : IsRune r.0
  onward : Scans plain r.1

good : {out rest : Bytes} → IsRune out → Scans plain rest → IsGood (out, rest)
good r u = record { valid = r; onward = u }

wide_plain : (c : ℕ) (s : Bytes) → ltb c 0x80 ≡ false → Scans plain (c ∷ s) → Scans plain s
wide_plain c s large u = Scans-plain c s (ground arith) u

read_rune-IsGood :
    (c : ℕ) (s : Bytes) (n : ℕ)
    → (c == backslash) ≡ false
    → Begins c s n
    → Scans plain (c ∷ s)
    → IsGood (read_rune c s n)
read_rune-IsGood c s n no_slash alone u = elim (Bool-cases (ltb c 0x80)) [
  | inl h ↦ rw h (good (one c h) (Scans-plain c s no_slash u))
  | inr h ↦ rw h (good replacement-IsRune (Scans-plain c s no_slash u))
]
read_rune-IsGood c s n no_slash (with_one d {s = t} h) u =
    good (two c d h) (wide_plain d t (ground arith) (Scans-plain c (d ∷ t) no_slash u))
read_rune-IsGood c s n no_slash (with_two d e {s = t} h tail) u = good (three c d e h tail) (
    wide_plain e t (ground arith)
      (wide_plain d (e ∷ t) (ground arith) (Scans-plain c (d ∷ e ∷ t) no_slash u)))
read_rune-IsGood c s n no_slash (with_three d e f {s = t} h tail1 tail2) u =
    good (four c d e f h tail1 tail2) (
      wide_plain f t (ground arith) (
        wide_plain e (f ∷ t) (ground arith)
          (wide_plain d (e ∷ f ∷ t) (ground arith) (Scans-plain c (d ∷ e ∷ f ∷ t) no_slash u))))

simple_escape-IsRune : (x : ℕ) → is_simple_escape x ≡ true → IsRune (simple_escape x ∷ [])
unfolding simple_escape
simple_escape-IsRune x h = one _ (ground arith)

-- What `unicode_escape` gives stands in front of raw text.
abbrev Continues : Option (ℕ × Bytes) → Type 0
Continues none = Unit
Continues (some (_, rest)) = Scans plain rest

escape-Continues :
    (x a b c d : ℕ) (s : Bytes)
    → (x == b'u') ≡ true
    → Escape (x ∷ a ∷ b ∷ c ∷ d ∷ s)
    → Scans plain s
escape-Continues x a b c d s is_u (simple y t is u) = absurd (ground arith)
escape-Continues x a b c d s is_u (numbered t (digits a1 b1 c1 d1 s1 ha hb hc hd u)) = u

unicode_escape-Continues : (s : Bytes) → Scans plain s → Continues (unicode_escape s)
unfolding unicode_escape
unicode_escape-Continues [] u = tt
unicode_escape-Continues (c0 ∷ []) u = tt
unicode_escape-Continues (c0 ∷ c1 ∷ []) u = tt
unicode_escape-Continues (c0 ∷ c1 ∷ a ∷ []) u = tt
unicode_escape-Continues (c0 ∷ c1 ∷ a ∷ b ∷ []) u = tt
unicode_escape-Continues (c0 ∷ c1 ∷ a ∷ b ∷ c ∷ []) u = tt
unicode_escape-Continues (c0 ∷ c1 ∷ a ∷ b ∷ c ∷ d ∷ s) u =
    elim (Bool-cases
      (c0 == backslash && (c1 == b'u' && (is_hex a && (is_hex b && (is_hex c && is_hex d)))))) [
        | inr h ↦ rw h tt
        | inl h ↦
            let slash : c0 ≡ backslash = ground arith in
            let tail = c1 ∷ a ∷ b ∷ c ∷ d ∷ s in
            rw h (
              escape-Continues c1 a b c d s (ground arith) (
                Scans-Escape tail (Scans-slash tail (subst (λ x. Scans plain (x ∷ tail)) slash u))))
      ]

join_surrogates-IsGood :
    (r : ℕ) (s : Bytes) (o : Option (ℕ × Bytes))
    → Scans plain s
    → Continues o
    → IsGood (join_surrogates r s o)
join_surrogates-IsGood r s none u v = good replacement-IsRune u
join_surrogates-IsGood r s (some (r', t)) u v =
    elim (Bool-cases (between 0xD800 0xDBFF r && between 0xDC00 0xDFFF r')) [
      | inl h ↦ rw h (good (encode_rune-IsRune _) v)
      | inr h ↦ rw h (good replacement-IsRune u)
    ]

escape_of-IsGood : (s : Bytes) → Escape s → IsGood (escape_of s)
unfolding unicode_escape
escape_of-IsGood s (simple x t is u) =
    rw (unicode_escape_other x t (ground arith)) (good (simple_escape-IsRune x is) u)
escape_of-IsGood s (numbered t (digits a b c d rest ha hb hc hd u)) =
    let r = hex_value a * 4096 + hex_value b * 256 + hex_value c * 16 + hex_value d in
    elim (Bool-cases (is_surrogate r)) [
      | inl h ↦
          rw (ha, hb, hc, hd, h)
            (join_surrogates-IsGood r rest (unicode_escape rest) u
              (unicode_escape-Continues rest u))
      | inr h ↦ rw (ha, hb, hc, hd, h) (good (encode_rune-IsRune r) u)
    ]

read_char-IsGood : (c : ℕ) (s : Bytes) → Scans plain (c ∷ s) → IsGood (read_char c s)
unfolding read_char
read_char-IsGood c s u = elim (Bool-cases (c == backslash)) [
  | inl h ↦
      let slash : c ≡ backslash = ground arith in
      rw h (
        escape_of-IsGood s
          (Scans-Escape s (Scans-slash s (subst (λ x. Scans plain (x ∷ s)) slash u))))
  | inr h ↦ rw h (read_rune-IsGood c s (tail_width c s) h (tail_width-Begins c s) u)
]

unquote-IsUtf8 : (n : ℕ) (s : Bytes) → Scans plain s → IsUtf8 (unquote n s)
unfolding unquote
unquote-IsUtf8 zero s u = end
unquote-IsUtf8 (suc n) [] u = end
unquote-IsUtf8 (suc n) (c ∷ s) u =
    let read = read_char-IsGood c s u in
    rune read.valid (unquote-IsUtf8 n (read_char c s).1 read.onward)

-- The text of a string that was read.
abbrev pub HasText : Option (Bytes × Bytes) → Type 0
HasText none = Unit
HasText (some (s, _)) = IsUtf8 s

unquoted-HasText :
    (o : Option (Bytes × Bytes))
    → ((raw rest : Bytes) → o ≡ some (raw, rest) → Scans plain raw)
    → HasText (unquoted o)
unquoted-HasText none scans = tt
unquoted-HasText (some (raw, rest)) scans = unquote-IsUtf8 (length raw) raw (scans raw rest refl)

pub read_string-HasText : (s : Bytes) → HasText (read_string s)
unfolding read_string
read_string-HasText s = unquoted-HasText (scan_string plain s) (scan_string-Scans plain s)
