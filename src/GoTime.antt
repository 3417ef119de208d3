-- ===== src/GoTime.antt =====
-- `time.ParseDuration` of the Go library, which internal/job/processor.go calls. A duration is a
-- number of nanoseconds, in 64 bits with a sign.
pub mod Rounds
pub mod Minutes
use golang_videoencoder_api.Prelude.{
  ℕ, zero, suc, ◌+◌, ◌-◌, ◌*◌, ◌/◌, ◌%◌, ◌^◌, ◌≤◌, ltb, leb, ◌==◌, ℤ, pos, negsuc, Bytes, bytes,
  bytes_eq, is_empty, length, Bool, true, false, not, ◌&&◌, ◌||◌, [], ◌∷◌, Option, none, some,
  Bool-cases, inl, inr, if◌then◌else◌, ◌≡◌, refl, arith,
}

abbrev pub is_digit : ℕ → Bool
is_digit c = leb 48 c && leb c 57

abbrev pub period : ℕ
period = 46

-- `leadingInt`: the digits in front of a text, and the rest; `none` for an overflow.
unfoldable pub leading_int : ℕ → Bytes → Option (ℕ × Bytes)
leading_int x [] = some (x, [])
leading_int x (c ∷ rest) =
    let value = x * 10 + (c - 48) in
    let more = leading_int value rest in
    if not (is_digit c)
    then some (x, c ∷ rest)
    else if ltb (2 ^ 63 / 10) x || ltb (2 ^ 63) value
    then none
    else more

-- `leadingFraction`: the digits in front of a text as a number over a power of ten, and the rest;
-- the digits behind an overflow are dropped.
unfoldable pub leading_fraction : Bool → ℕ → ℕ → Bytes → ℕ × ℕ × Bytes
leading_fraction overflow x scale [] = (x, scale, [])
leading_fraction overflow x scale (c ∷ rest) =
    let value = x * 10 + (c - 48) in
    let over = overflow || ltb ((2 ^ 63 - 1) / 10) x || ltb (2 ^ 63) value in
    let more =
      leading_fraction over (if over then x else value) (if over then scale else scale * 10) rest in
    if is_digit c then more else (x, scale, c ∷ rest)

-- `(\.[0-9]*)?`: the fraction, its scale, the rest, and whether it has a digit.
abbrev pub fraction_of : Bytes → ℕ × ℕ × Bytes × Bool
fraction_of [] = (0, 1, [], false)
fraction_of (c ∷ rest) =
    let (f, scale, behind) = leading_fraction false 0 1 rest in
    if c == period
    then (f, scale, behind, not (length behind == length rest))
    else (0, 1, c ∷ rest, false)

-- The unit in front of a text, and the rest.
unfoldable pub unit_of : Bytes → Bytes × Bytes
unit_of [] = ([], [])
unit_of (c ∷ rest) =
    let (u, behind) = unit_of rest in
    if c == period || is_digit c then ([], c ∷ rest) else (c ∷ u, behind)

-- `unitMap`; two characters stand for micro.
unfoldable pub nanoseconds : Bytes → Option ℕ
unfolding bytes_eq bytes
nanoseconds u =
    if bytes_eq u (bytes "ns")
    then some 1
    else if bytes_eq u (bytes "us")
        || bytes_eq u (0xc2 ∷ 0xb5 ∷ bytes "s")
        || bytes_eq u (0xce ∷ 0xbc ∷ bytes "s")
    then some (10 ^ 3)
    else if bytes_eq u (bytes "ms")
    then some (10 ^ 6)
    else if bytes_eq u (bytes "s")
    then some (10 ^ 9)
    else if bytes_eq u (bytes "m")
    then some (60 * 10 ^ 9)
    else if bytes_eq u (bytes "h")
    then some (3600 * 10 ^ 9)
    else none

abbrev pub sign_split : Bytes → Bool × Bytes
sign_split [] = (false, [])
sign_split (c ∷ rest) =
    if c == 45 then (true, rest) else if c == 43 then (false, rest) else (false, c ∷ rest)

abbrev pub negative : ℕ → ℤ
negative zero = pos 0
negative (suc n) = negsuc n

unfoldable pub with_sign : Bool → Option ℕ → Option ℤ
with_sign neg none = none
with_sign true (some d) = some (negative d)
with_sign false (some d) = if ltb (2 ^ 63 - 1) d then none else some (pos d)

-- Over the arithmetic of `float64`: `uint64(float64(f) * (float64(unit) / scale))`, of which Go says
-- that it is at most the number of nanoseconds of an hour.
module _ (fraction : ℕ → ℕ → ℕ → ℕ) where
  abbrev pub scaled : ℕ → ℕ → ℕ → ℕ → Bytes → Option (ℕ × Bytes)
  scaled value f scale unit rest =
      if ltb (2 ^ 63 / unit) value
      then none
      else if f == 0
      then some (value * unit, rest)
      else if ltb (2 ^ 63) (value * unit + fraction f unit scale)
      then none
      else some (value * unit + fraction f unit scale, rest)

  abbrev pub in_unit : ℕ → ℕ → ℕ → Option ℕ → Bytes → Option (ℕ × Bytes)
  in_unit value f scale none rest = none
  in_unit value f scale (some unit) rest = scaled value f scale unit rest

  abbrev pub with_unit : Bool → ℕ → ℕ × ℕ × Bytes × Bool → Option (ℕ × Bytes)
  with_unit pre value (f, scale, rest, post) =
      let (u, behind) = unit_of rest in
      if not pre && not post
      then none
      else if is_empty u
      then none
      else in_unit value f scale (nanoseconds u) behind

  abbrev pub valued : Bytes → Option (ℕ × Bytes) → Option (ℕ × Bytes)
  valued s none = none
  valued s (some (value, rest)) = with_unit (not (length rest == length s)) value (fraction_of rest)

  -- One round of the loop: a number with a unit in front of a text that is not empty.
  unfoldable pub term : Bytes → Option (ℕ × Bytes)
  unfolding leading_int leading_fraction unit_of nanoseconds
  term [] = none
  term (c ∷ rest) =
      if c == period || is_digit c then valued (c ∷ rest) (leading_int 0 (c ∷ rest)) else none

  -- The loop, with the sum so far; each round takes at least one byte.
  unfoldable pub sum_terms : ℕ → ℕ → Bytes → Option ℕ
  unfolding term
  sum_terms fuel d [] = some d
  sum_terms zero d (_ ∷ _) = none
  sum_terms (suc fuel) d (c ∷ rest) = elim (term (c ∷ rest)) [
    | none ↦ none
    | some (value, behind) ↦
        let sum = (d + value) % 2 ^ 64 in
        let later = sum_terms fuel sum behind in if ltb (2 ^ 63) sum then none else later
  ]

  -- `time.ParseDuration`; `none` for any error.
  unfoldable pub parse_duration : Bytes → Option ℤ
  unfolding sum_terms with_sign bytes_eq bytes
  parse_duration text =
      let (neg, s) = sign_split text in
      if bytes_eq s (bytes "0")
      then some (pos 0)
      else if is_empty s
      then none
      else with_sign neg (sum_terms (length s) 0 s)

-- The exact quotient, rounded down.
abbrev exact : ℕ → ℕ → ℕ → ℕ
exact f unit scale = f * unit / scale

parse_duration_plain :
    (parse_duration exact (bytes "45m") ≡ some (pos (45 * 60 * 10 ^ 9)))
    × (parse_duration exact (bytes "1h30m") ≡ some (pos (90 * 60 * 10 ^ 9)))
    × (parse_duration exact (bytes "-1.5s") ≡ some (negsuc 1499999999))
    × (parse_duration exact (bytes "+.5us") ≡ some (pos 500))
    × (parse_duration exact (bytes "0") ≡ some (pos 0))
unfolding parse_duration bytes
parse_duration_plain = (refl, refl, refl, refl, refl)

parse_duration_errors :
    (parse_duration exact (bytes "") ≡ none)
    × (parse_duration exact (bytes "45") ≡ none)
    × (parse_duration exact (bytes ".m") ≡ none)
    × (parse_duration exact (bytes "m") ≡ none)
    × (parse_duration exact (bytes "4 m") ≡ none)
    × (parse_duration exact (bytes "9223372036854775808ns") ≡ none)
unfolding parse_duration bytes
parse_duration_errors = (refl, refl, refl, refl, refl, refl)
