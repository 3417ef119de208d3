-- ===== src/GoTime/Rounds.antt =====
-- The rounds of the loop of `time.ParseDuration`.
use golang_videoencoder_api.Prelude.{
  ℕ, zero, suc, ◌+◌, ◌-◌, ◌*◌, ◌/◌, ◌%◌, ◌^◌, ◌≤◌, ltb, ◌==◌, Bytes, is_empty, length, Bool, true,
  false, not, ◌&&◌, ◌||◌, [], ◌∷◌, Option, none, some, Bool-cases, inl, inr, if◌then◌else◌, ◌≡◌,
  refl, ap, arith,
}
use golang_videoencoder_api.GoTime.{
  is_digit, period, leading_int, leading_fraction, fraction_of, unit_of, nanoseconds, scaled,
  in_unit, with_unit, valued, term, sum_terms,
}

-- What is left is at most so long.
abbrev LeavesAtMost : ℕ → Option (ℕ × Bytes) → Type 0
LeavesAtMost n none = Unit
LeavesAtMost n (some (_, rest)) = length rest ≤ n

LeavesAtMost-if :
    (n : ℕ) (b : Bool) (o p : Option (ℕ × Bytes))
    → LeavesAtMost n o
    → LeavesAtMost n p
    → LeavesAtMost n (if b then o else p)
LeavesAtMost-if n true o p h k = h
LeavesAtMost-if n false o p h k = k

LeavesAtMost-mono : (n m : ℕ) (o : Option (ℕ × Bytes)) → n ≤ m → LeavesAtMost n o → LeavesAtMost m o
LeavesAtMost-mono n m none le h = tt
LeavesAtMost-mono n m (some (_, rest)) le h = omega arith

leading_int-LeavesAtMost : (x : ℕ) (s : Bytes) → LeavesAtMost (length s) (leading_int x s)
unfolding leading_int
leading_int-LeavesAtMost x [] = omega arith
leading_int-LeavesAtMost x (c ∷ rest) = LeavesAtMost-if _ (not (is_digit c)) _ _ (omega arith) (
    LeavesAtMost-if _ _ none _ tt (
      LeavesAtMost-mono _ _ (leading_int (x * 10 + (c - 48)) rest) (omega arith)
        (leading_int-LeavesAtMost (x * 10 + (c - 48)) rest)))

length-leading_fraction :
    (over : Bool) (x scale : ℕ) (s : Bytes) → length (leading_fraction over x scale s).2 ≤ length s
unfolding leading_fraction
length-leading_fraction over x scale [] = omega arith
length-leading_fraction over x scale (c ∷ rest) =
    let value = x * 10 + (c - 48) in
    let over' = over || ltb ((2 ^ 63 - 1) / 10) x || ltb (2 ^ 63) value in
    let ih =
      length-leading_fraction over' (if over' then x else value)
        (if over' then scale else scale * 10) rest in
    elim (Bool-cases (is_digit c)) [ inl e ↦ rw e (omega arith) | inr e ↦ rw e (omega arith) ]

length-fraction_of : (s : Bytes) → length (fraction_of s).2 ≤ length s
length-fraction_of [] = omega arith
length-fraction_of (c ∷ rest) = elim (Bool-cases (c == period)) [
  | inl e ↦ rw e (omega (arith, length-leading_fraction false 0 1 rest))
  | inr e ↦ rw e (omega arith)
]

length-unit_of : (s : Bytes) → length (unit_of s).0 + length (unit_of s).1 ≡ length s
unfolding unit_of
length-unit_of [] = omega arith
length-unit_of (c ∷ rest) = ground (arith, length-unit_of rest)

shorter : (u : Bytes) (b n : ℕ) → is_empty u ≡ false → length u + b ≤ suc n → b ≤ n
shorter [] b n h le = cc
shorter (_ ∷ u) b n h le = omega arith

module _ (fraction : ℕ → ℕ → ℕ → ℕ) where
  scaled-LeavesAtMost :
      (value f scale unit : ℕ) (rest : Bytes)
      → LeavesAtMost (length rest) (scaled fraction value f scale unit rest)
  scaled-LeavesAtMost value f scale unit rest = elim (Bool-cases (ltb (2 ^ 63 / unit) value)) [
    | inl e ↦ rw e tt
    | inr e ↦ rw e (
        LeavesAtMost-if (length rest) (f == 0) (some (value * unit, rest)) _ (omega arith) (
          LeavesAtMost-if (length rest) (ltb (2 ^ 63) (value * unit + fraction f unit scale)) none
            (some (value * unit + fraction f unit scale, rest)) tt (omega arith)))
  ]

  in_unit-LeavesAtMost :
      (value f scale : ℕ) (o : Option ℕ) (rest : Bytes)
      → LeavesAtMost (length rest) (in_unit fraction value f scale o rest)
  in_unit-LeavesAtMost value f scale none rest = tt
  in_unit-LeavesAtMost value f scale (some unit) rest = scaled-LeavesAtMost value f scale unit rest

  with_unit-LeavesAtMost :
      (pre : Bool) (value : ℕ) (p : ℕ × ℕ × Bytes × Bool) (n : ℕ)
      → length p.2 ≤ suc n
      → LeavesAtMost n (with_unit fraction pre value p)
  with_unit-LeavesAtMost pre value (f, scale, rest, post) n h =
      let (u, behind) = unit_of rest in
      elim (Bool-cases (not pre && not post)) [
        | inl e ↦ rw e tt
        | inr e ↦ rw e (elim (Bool-cases (is_empty u)) [
          | inl g ↦ rw g tt
          | inr g ↦ rw g (
              LeavesAtMost-mono (length behind) n _
                (shorter u (length behind) n g (omega (arith, length-unit_of rest)))
                (in_unit-LeavesAtMost value f scale (nanoseconds u) behind))
        ])
      ]

  valued-LeavesAtMost :
      (s : Bytes) (o : Option (ℕ × Bytes)) (n : ℕ)
      → LeavesAtMost (suc n) o
      → LeavesAtMost n (valued fraction s o)
  valued-LeavesAtMost s none n h = tt
  valued-LeavesAtMost s (some (value, rest)) n h =
      with_unit-LeavesAtMost (not (length rest == length s)) value (fraction_of rest) n
        (omega (arith, length-fraction_of rest))

  term-LeavesAtMost : (c : ℕ) (rest : Bytes) → LeavesAtMost (length rest) (term fraction (c ∷ rest))
  unfolding term
  term-LeavesAtMost c rest = elim (Bool-cases (c == period || is_digit c)) [
    | inl e ↦ rw e (
        valued-LeavesAtMost (c ∷ rest) (leading_int 0 (c ∷ rest)) (length rest)
          (leading_int-LeavesAtMost 0 (c ∷ rest)))
    | inr e ↦ rw e tt
  ]

  later-same :
      (f g : ℕ) (c d : ℕ) (rest : Bytes) (o : Option (ℕ × Bytes))
      → term fraction (c ∷ rest) ≡ o
      → LeavesAtMost (length rest) o
      → ((sum : ℕ) (behind : Bytes)
          → length behind ≤ length rest
          → sum_terms fraction f sum behind ≡ sum_terms fraction g sum behind)
      → sum_terms fraction (suc f) d (c ∷ rest) ≡ sum_terms fraction (suc g) d (c ∷ rest)
  unfolding sum_terms
  later-same f g c d rest none e h same = rw (e, sum_terms) refl
  later-same f g c d rest (some (value, behind)) e h same =
      let sum = (d + value) % 2 ^ 64 in
      rw (e, sum_terms)
        (ap (λ (later : Option ℕ). if ltb (2 ^ 63) sum then none else later) (same sum behind h))

  -- The loop takes no more rounds than the text has bytes: with at least that much fuel, the sum
  -- does not depend on the fuel.
  pub sum_terms_enough :
      (f g d : ℕ) (s : Bytes)
      → length s ≤ f
      → length s ≤ g
      → sum_terms fraction f d s ≡ sum_terms fraction g d s
  unfolding sum_terms
  sum_terms_enough zero zero d s h k = refl
  sum_terms_enough (suc f) zero d [] h k = refl
  sum_terms_enough zero (suc g) d [] h k = refl
  sum_terms_enough (suc f) (suc g) d [] h k = refl
  sum_terms_enough (suc f) zero d (c ∷ rest) h k = absurd (omega arith)
  sum_terms_enough zero (suc g) d (c ∷ rest) h k = absurd (omega arith)
  sum_terms_enough (suc f) (suc g) d (c ∷ rest) h k =
      later-same f g c d rest (term fraction (c ∷ rest)) refl (term-LeavesAtMost c rest)
        (λ sum behind le. sum_terms_enough f g sum behind (omega arith) (omega arith))
