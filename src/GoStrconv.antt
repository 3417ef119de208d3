-- ===== src/GoStrconv.antt =====
-- `strconv.Atoi` of the Go library for 64-bit integers, which internal/job/manager.go calls, and
-- `strconv.ParseBool`, which cmd/main.go calls.
use golang_videoencoder_api.Prelude.{
  ℕ, zero, suc, ◌+◌, ◌-◌, ◌*◌, ◌^◌, ltb, leb, ◌==◌, ℤ, pos, negsuc, Bytes, bytes, bytes_eq, Bool,
  true, false, ◌&&◌, ◌||◌, List, [], ◌∷◌, Option, none, some, if◌then◌else◌, ◌≡◌, refl,
}
use Prim.Native.String.{String}

abbrev is_digit : ℕ → Bool
is_digit c = leb 48 c && leb c 57

-- The value of the digits, behind `value`; any other character is an error.
unfoldable pub digits_value : ℕ → Bytes → Option ℕ
digits_value value [] = some value
digits_value value (c ∷ rest) =
    let later = digits_value (value * 10 + (c - 48)) rest in if is_digit c then later else none

abbrev unsigned : Bytes → Option ℕ
unsigned [] = none
unsigned (c ∷ rest) = digits_value 0 (c ∷ rest)

abbrev negative : ℕ → ℤ
negative zero = pos 0
negative (suc n) = negsuc n

abbrev within : ℕ → (ℕ → ℤ) → Option ℕ → Option ℤ
within bound f none = none
within bound f (some n) = if ltb bound n then none else some (f n)

-- `none` for any error: no digit, another character, or a number out of range.
unfoldable pub atoi : Bytes → Option ℤ
unfolding digits_value
atoi [] = none
atoi (c ∷ rest) =
    if c == 45
    then within (2 ^ 63) negative (unsigned rest)
    else within (2 ^ 63 - 1) pos (if c == 43 then unsigned rest else unsigned (c ∷ rest))

atoi_plain : atoi (bytes "12") ≡ some (pos 12)
unfolding atoi bytes
atoi_plain = refl

atoi_signs :
    (atoi (bytes "-3") ≡ some (negsuc 2))
    × (atoi (bytes "+7") ≡ some (pos 7))
    × (atoi (bytes "-0") ≡ some (pos 0))
    × (atoi (bytes "+-7") ≡ none)
unfolding atoi bytes
atoi_signs = (refl, refl, refl, refl)

atoi_errors :
    (atoi (bytes "") ≡ none)
    × (atoi (bytes "4x") ≡ none)
    × (atoi (bytes "9223372036854775807") ≡ some (pos (2 ^ 63 - 1)))
    × (atoi (bytes "9223372036854775808") ≡ none)
unfolding atoi bytes
atoi_errors = (refl, refl, refl, refl)

abbrev one_of : List String → Bytes → Bool
one_of [] s = false
one_of (t ∷ ts) s = bytes_eq s (bytes t) || one_of ts s

-- `strconv.ParseBool`; `none` for an error, beside which Go returns `false`.
unfoldable pub parse_bool : Bytes → Option Bool
unfolding bytes_eq bytes
parse_bool s =
    if one_of ("1" ∷ "t" ∷ "T" ∷ "true" ∷ "TRUE" ∷ "True" ∷ []) s
    then some true
    else if one_of ("0" ∷ "f" ∷ "F" ∷ "false" ∷ "FALSE" ∷ "False" ∷ []) s
    then some false
    else none

parse_bool_values :
    (parse_bool (bytes "True") ≡ some true)
    × (parse_bool (bytes "f") ≡ some false)
    × (parse_bool (bytes "yes") ≡ none)
    × (parse_bool (bytes "") ≡ none)
unfolding parse_bool bytes
parse_bool_values = (refl, refl, refl, refl)
