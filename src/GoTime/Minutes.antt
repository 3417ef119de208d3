-- ===== src/GoTime/Minutes.antt =====
-- `time.ParseDuration` on a whole number of minutes.
use golang_videoencoder_api.Prelude.{
  ℕ, zero, suc, ◌+◌, ◌-◌, ◌*◌, ◌/◌, ◌%◌, ◌^◌, ◌≤◌, ◌<◌, ltb, ◌==◌, pos, Bytes, bytes, bytes_eq,
  digits_before, decimal, is_empty, length, true, false, ◌||◌, [], ◌∷◌, ◌++◌, some, Bool-cases, inl,
  inr, ◌≡◌, refl, subst, ◌∙◌, arith,
}
use golang_videoencoder_api.GoTime.{
  is_digit, period, leading_int, unit_of, nanoseconds, term, sum_terms, with_sign, parse_duration,
}

leading_int_digit :
    (x d n : ℕ) (rest : Bytes)
    → d < 10
    → x ≤ 2 ^ 63 / 10
    → x * 10 + d ≡ n
    → n ≤ 2 ^ 63
    → leading_int x ((b'0' + d) ∷ rest) ≡ leading_int n rest
unfolding leading_int
leading_int_digit x d n rest small fits made bound =
    let back : b'0' + d - 48 ≡ d = omega arith in
    let digit : is_digit (b'0' + d) ≡ true = ground arith in
    let low : ltb (2 ^ 63 / 10) x ≡ false = ground arith in
    let high : ltb (2 ^ 63) n ≡ false = ground arith in rw (digit, back, made, low, high) refl

leading_int-digits_before :
    (fuel n : ℕ) (rest : Bytes)
    → n < fuel
    → n ≤ 2 ^ 63
    → leading_int 0 (digits_before fuel n rest) ≡ leading_int n rest
unfolding digits_before
leading_int-digits_before zero n rest h k = elim h [ ]
leading_int-digits_before (suc fuel) n rest h k = elim (Bool-cases (n / 10 == 0)) [
  | inl e ↦ rw e (leading_int_digit 0 (n % 10) n rest (omega arith) (omega arith) (ground arith) k)
  | inr e ↦ rw e (
      leading_int-digits_before fuel (n / 10) ((b'0' + n % 10) ∷ rest) (ground arith) (omega arith)
      ∙ leading_int_digit (n / 10) (n % 10) n rest (omega arith) (omega arith) (omega arith) k)
]

-- The digits of a number are not empty, and in front of what follows.
record Digits (text rest : Bytes) : Type 0 where
  first : ℕ
  others : Bytes
  made : text ≡ first ∷ others
  digit : is_digit first ≡ true
  longer : length rest ≤ length others

digits_before-Digits : (fuel n : ℕ) (rest : Bytes) → Digits (digits_before (suc fuel) n rest) rest
unfolding digits_before
digits_before-Digits zero n rest = record {
  first = b'0' + n % 10;
  others = rest;
  made = ground arith;
  digit = ground arith;
  longer = omega arith;
}
digits_before-Digits (suc fuel) n rest = elim (Bool-cases (n / 10 == 0)) [
  | inl e ↦ rw e (record {
    first = b'0' + n % 10;
    others = rest;
    made = refl;
    digit = ground arith;
    longer = omega arith;
  })
  | inr e ↦
      let d = digits_before-Digits fuel (n / 10) ((b'0' + n % 10) ∷ rest) in
      rw e (record {
        first = d.first;
        others = d.others;
        made = d.made;
        digit = d.digit;
        longer = omega (arith, d.longer);
      })
]

digits_before-append :
    (fuel n : ℕ) (rest more : Bytes)
    → digits_before fuel n rest ++ more ≡ digits_before fuel n (rest ++ more)
unfolding digits_before
digits_before-append zero n rest more = refl
digits_before-append (suc fuel) n rest more =
    ground (arith, digits_before-append fuel (n / 10) ((b'0' + n % 10) ∷ rest) more)

abbrev pub minute : ℕ
minute = 60 * 10 ^ 9

bytes_eq_nil : (s : Bytes) → 1 ≤ length s → bytes_eq s [] ≡ false
unfolding bytes_eq
bytes_eq_nil [] h = absurd (omega arith)
bytes_eq_nil (_ ∷ _) h = refl

leading_m : (n : ℕ) → leading_int n (bytes "m") ≡ some (n, bytes "m")
unfolding leading_int bytes
leading_m n = refl

module _ (fraction : ℕ → ℕ → ℕ → ℕ) where
  -- One round on digits in front of the unit.
  term_minutes :
      (c n : ℕ) (others : Bytes)
      → is_digit c ≡ true
      → 1 ≤ length others
      → leading_int 0 (c ∷ others) ≡ some (n, bytes "m")
      → n * minute < 2 ^ 63
      → term fraction (c ∷ others) ≡ some (n * minute, [])
  unfolding bytes nanoseconds unit_of term
  term_minutes c n others digit more e h =
      let begins : (c == period || is_digit c) ≡ true = ground arith in
      let pre : (1 == suc (length others)) ≡ false = ground arith in
      let fits : ltb (2 ^ 63 / minute) n ≡ false = ground arith in
      rw (term, begins, e, pre, fits) refl

  sum_minutes :
      (c n fuel : ℕ) (others : Bytes)
      → term fraction (c ∷ others) ≡ some (n * minute, [])
      → n * minute < 2 ^ 63
      → sum_terms fraction (suc fuel) 0 (c ∷ others) ≡ some (n * minute)
  unfolding sum_terms
  sum_minutes c n fuel others e h =
      let whole : (0 + n * minute) % 2 ^ 64 ≡ n * minute = omega arith in
      let fits : ltb (2 ^ 63) (n * minute) ≡ false = ground arith in
      rw (sum_terms, e, whole, fits) refl

  read_minutes :
      (text : Bytes) (n : ℕ)
      → Digits text (bytes "m")
      → leading_int 0 text ≡ some (n, bytes "m")
      → n * minute < 2 ^ 63
      → parse_duration fraction text ≡ some (pos (n * minute))
  unfolding bytes bytes_eq with_sign parse_duration
  read_minutes text n d e h =
      let read = subst (λ (t : Bytes). leading_int 0 t ≡ some (n, bytes "m")) d.made e in
      let one = term_minutes d.first n d.others d.digit d.longer read h in
      let sum = sum_minutes d.first n (length d.others) d.others one h in
      let minus : (d.first == 45) ≡ false = ground (arith, d.digit) in
      let plus : (d.first == 43) ≡ false = ground (arith, d.digit) in
      let fits : ltb (2 ^ 63 - 1) (n * minute) ≡ false = ground arith in
      let not_zero : bytes_eq (d.first ∷ d.others) (bytes "0") ≡ false =
        ground (arith, bytes_eq_nil d.others d.longer) in
      rw (d.made, minus, plus, not_zero, sum, fits) refl

  -- A number of minutes, as decimal digits and an `m`, that fits into 64 bits with a sign is read
  -- back.
  pub parse_duration-minutes :
      (n : ℕ)
      → n * minute < 2 ^ 63
      → parse_duration fraction (decimal n ++ bytes "m") ≡ some (pos (n * minute))
  unfolding decimal
  parse_duration-minutes n h = rw (digits_before-append (suc n) n [] (bytes "m")) (
      read_minutes (digits_before (suc n) n (bytes "m")) n (digits_before-Digits n n (bytes "m"))
        (leading_int-digits_before (suc n) n (bytes "m") (omega arith) (omega arith) ∙ leading_m n)
        h)

pub minutes_given : (n : ℕ) → is_empty (decimal n ++ bytes "m") ≡ false
unfolding decimal
minutes_given n =
    let d = digits_before-Digits n n (bytes "m") in
    rw (digits_before-append (suc n) n [] (bytes "m"), d.made) refl
