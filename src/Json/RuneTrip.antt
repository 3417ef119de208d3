-- ===== src/Json/RuneTrip.antt =====
-- What encoding/json writes for one rune, and reads as the rune again.
use golang_videoencoder_api.Prelude.{
  ℕ, suc, ◌<◌, Bytes, ltb, ◌==◌, [], ◌∷◌, ◌++◌, true, false, ◌&&◌, some, length, ◌≡◌, refl, arith,
  Bool-cases, inl, inr, ◌⊎◌, subst, sym,
}
use golang_videoencoder_api.Json.Utf8.{
  between, starts_two, starts_three, starts_four, is_tail, tail_width, encode_rune,
}
use golang_videoencoder_api.Json.Strings.{
  backslash, plain, goes, string_step, scan_string, read_char, unquote, hex_digit, write_char,
  quote_body, unicode_escape, hex_value, is_line_separator,
}
use golang_videoencoder_api.Json.Runes.{
  IsRune, one, two, three, four, tail_width_two, tail_width_three, tail_width_four,
}
use golang_videoencoder_api.Json.Escapes.{
  written, written-Form, scan_goes, scan_written, read_written, written_given,
}
use Prim.Native.Nat.{◌%◌}

-- What is written for a rune, and read as the rune again.
pub record IsWritten (r w : Bytes) : Type 0 where
  pub writes : (n : ℕ) (s : Bytes) → quote_body (suc n) (r ++ s) ≡ w ++ quote_body n s
  pub scans :
      (t raw rest : Bytes)
      → scan_string plain t ≡ some (raw, rest)
      → scan_string plain (w ++ t) ≡ some (w ++ raw, rest)
  pub reads : (f : ℕ) (t : Bytes) → unquote (suc f) (w ++ t) ≡ r ++ unquote f t
  pub given : 0 < length w
  pub taken : 0 < length r

one-IsWritten : (c : ℕ) → ltb c 0x80 ≡ true → IsWritten (c ∷ []) (written c)
unfolding quote_body write_char
one-IsWritten c h =
    let form = written-Form c h in
    record {
      writes = λ n s. rw h refl;
      scans = λ t raw rest. scan_written c t raw rest form;
      reads = λ f t. read_written c t f h form;
      given = written_given c form;
      taken = omega arith;
    }

-- A byte that is not ASCII is plain text, and not the start of an escape.
record IsWide (c : ℕ) : Type 0 where
  large : ltb c 0x80 ≡ false
  no_slash : (c == backslash) ≡ false
  steps : string_step plain c ≡ goes plain

wide : (c : ℕ) → ltb c 0x80 ≡ false → IsWide c
unfolding string_step
wide c h = record { large = h; no_slash = ground arith; steps = ground arith }

no_separator : (c d : ℕ) (s : Bytes) → (c == 0xE2) ≡ false → is_line_separator (c ∷ d ∷ s) ≡ false
no_separator c d [] h = refl
no_separator c d (e ∷ s) h = rw h refl

two-IsWritten : (c d : ℕ) → starts_two c d ≡ true → IsWritten (c ∷ d ∷ []) (c ∷ d ∷ [])
unfolding quote_body write_char unquote read_char
two-IsWritten c d h =
    let first = wide c (ground arith) in
    let second = wide d (ground arith) in
    record {
      writes =
          λ n s. rw (first.large, tail_width_two c d s h, no_separator c d s (ground arith)) refl;
      scans = λ t raw rest e.
          scan_goes plain plain c _ _ rest first.steps
            (scan_goes plain plain d t raw rest second.steps e);
      reads = λ f t. rw (first.no_slash, tail_width_two c d t h) refl;
      given = omega arith;
      taken = omega arith;
    }

plain_three-IsWritten :
    (c d e : ℕ)
    → starts_three c d ≡ true
    → is_tail e ≡ true
    → (c == 0xE2 && (d == 0x80 && between 0xA8 0xA9 e)) ≡ false
    → IsWritten (c ∷ d ∷ e ∷ []) (c ∷ d ∷ e ∷ [])
unfolding quote_body write_char unquote read_char
plain_three-IsWritten c d e h tail apart =
    let first = wide c (ground arith) in
    let second = wide d (ground arith) in
    let third = wide e (ground arith) in
    record {
      writes = λ n s. rw (first.large, tail_width_three c d e s h tail, apart) refl;
      scans = λ t raw rest found. scan_goes plain plain c _ _ rest first.steps (
          scan_goes plain plain d _ _ rest second.steps
            (scan_goes plain plain e t raw rest third.steps found));
      reads = λ f t. rw (first.no_slash, tail_width_three c d e t h tail) refl;
      given = omega arith;
      taken = omega arith;
    }

-- U+2028 and U+2029 are escaped.
abbrev escaped_separator : ℕ → Bytes
escaped_separator x = backslash ∷ b'u' ∷ b'2' ∷ b'0' ∷ b'2' ∷ x ∷ []

separator-IsWritten :
    (e : ℕ)
    → (e ≡ 0xA8) ⊎ (e ≡ 0xA9)
    → IsWritten (0xE2 ∷ 0x80 ∷ e ∷ []) (escaped_separator (hex_digit (e % 16)))
unfolding quote_body write_char unquote read_char scan_string string_step unicode_escape encode_rune
    hex_value hex_digit tail_width
separator-IsWritten e (inl is) =
    subst (λ e. IsWritten (0xE2 ∷ 0x80 ∷ e ∷ []) (escaped_separator (hex_digit (e % 16)))) (sym is)
      (record {
        writes = λ n s. rw (tail_width_three 0xE2 0x80 0xA8 s refl refl) refl;
        scans = λ t raw rest found. rw found refl;
        reads = λ f t. refl;
        given = omega arith;
        taken = omega arith;
      })
separator-IsWritten e (inr is) =
    subst (λ e. IsWritten (0xE2 ∷ 0x80 ∷ e ∷ []) (escaped_separator (hex_digit (e % 16)))) (sym is)
      (record {
        writes = λ n s. rw (tail_width_three 0xE2 0x80 0xA9 s refl refl) refl;
        scans = λ t raw rest found. rw found refl;
        reads = λ f t. refl;
        given = omega arith;
        taken = omega arith;
      })

four-IsWritten :
    (c d e f : ℕ)
    → starts_four c d ≡ true
    → is_tail e ≡ true
    → is_tail f ≡ true
    → IsWritten (c ∷ d ∷ e ∷ f ∷ []) (c ∷ d ∷ e ∷ f ∷ [])
unfolding quote_body write_char unquote read_char
four-IsWritten c d e f h tail1 tail2 =
    let first = wide c (ground arith) in
    let second = wide d (ground arith) in
    let third = wide e (ground arith) in
    let fourth = wide f (ground arith) in
    record {
      writes = λ n s.
          rw
            (
              first.large,
              tail_width_four c d e f s h tail1 tail2,
              no_separator c d (e ∷ f ∷ s) (ground arith),
            )
            refl;
      scans = λ t raw rest found. scan_goes plain plain c _ _ rest first.steps (
          scan_goes plain plain d _ _ rest second.steps (
            scan_goes plain plain e _ _ rest third.steps
              (scan_goes plain plain f t raw rest fourth.steps found)));
      reads = λ n t. rw (first.no_slash, tail_width_four c d e f t h tail1 tail2) refl;
      given = omega arith;
      taken = omega arith;
    }

abbrev pub Writable : Bytes → Type 0
Writable r = (w : Bytes) × IsWritten r w

three-Writable :
    (c d e : ℕ) → starts_three c d ≡ true → is_tail e ≡ true → Writable (c ∷ d ∷ e ∷ [])
three-Writable c d e h tail = elim (Bool-cases (c == 0xE2 && (d == 0x80 && between 0xA8 0xA9 e))) [
  | inr apart ↦ (_, plain_three-IsWritten c d e h tail apart)
  | inl is ↦
      let c_is : c ≡ 0xE2 = ground arith in
      let d_is : d ≡ 0x80 = ground arith in
      let e_is : (e ≡ 0xA8) ⊎ (e ≡ 0xA9) = ground arith in
      subst (λ c. Writable (c ∷ d ∷ e ∷ [])) (sym c_is)
        (subst (λ d. Writable (0xE2 ∷ d ∷ e ∷ [])) (sym d_is) (_, separator-IsWritten e e_is))
]

pub IsRune-Writable : {r : Bytes} → IsRune r → Writable r
IsRune-Writable (one c h) = (_, one-IsWritten c h)
IsRune-Writable (two c d h) = (_, two-IsWritten c d h)
IsRune-Writable (three c d e h tail) = three-Writable c d e h tail
IsRune-Writable (four c d e f h tail1 tail2) = (_, four-IsWritten c d e f h tail1 tail2)
