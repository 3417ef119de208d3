-- ===== src/Json/Scanned.antt =====
-- The raw texts that the scanner of encoding/json lets through as strings.
use golang_videoencoder_api.Prelude.{
  ℕ, zero, suc, Bytes, ◌==◌, [], ◌∷◌, true, false, Option, none, some, ◌≡◌, ◌⊎◌, refl, arith, ap,
  subst, sym, inl, inr,
}
use golang_videoencoder_api.Json.Strings.{
  backslash, is_hex, is_simple_escape, StringState, plain, escaped, hex, StringStep, ends, fails,
  goes, string_step, keep, scan_string,
}

-- From this state, the whole text is inside the string, and ends behind a whole character.
pub data Scans : StringState → Bytes → Type 0 where
  done : Scans plain []
  step :
      {state next : StringState} {c : ℕ} {s : Bytes}
      → string_step state c ≡ goes next
      → Scans next s
      → Scans state (c ∷ s)

only_plain_ends : (state : StringState) (c : ℕ) → string_step state c ≡ ends → state ≡ plain
unfolding string_step
only_plain_ends plain c e = refl
only_plain_ends escaped c e = ground arith
only_plain_ends (hex zero) c e = ground arith
only_plain_ends (hex (suc k)) c e = ground arith

abbrev first_part : Option (Bytes × Bytes) → Bytes
first_part none = []
first_part (some (raw, _)) = raw

-- The induction hypothesis for the text behind a byte.
abbrev Behind : Bytes → Type 0
Behind s =
    (next : StringState) (raw rest : Bytes) → scan_string next s ≡ some (raw, rest) → Scans next raw

kept :
    (state next : StringState) (c : ℕ) (s : Bytes)
    → string_step state c ≡ goes next
    → Behind s
    → (o : Option (Bytes × Bytes)) → scan_string next s ≡ o
    → (raw rest : Bytes) → keep c o ≡ some (raw, rest)
    → Scans state raw
kept state next c s at behind none scanned raw rest e = cc
kept state next c s at behind (some (raw', rest')) scanned raw rest e =
    let same : c ∷ raw' ≡ raw = ap first_part e in
    subst (Scans state) same (step at (behind next raw' rest' scanned))

abbrev after_step : ℕ → Bytes → StringStep → Option (Bytes × Bytes)
after_step c s ends = some ([], s)
after_step c s fails = none
after_step c s (goes next) = keep c (scan_string next s)

stepped :
    (state : StringState) (c : ℕ) (s : Bytes) (r : StringStep)
    → string_step state c ≡ r
    → Behind s
    → (raw rest : Bytes) → after_step c s r ≡ some (raw, rest)
    → Scans state raw
stepped state c s ends at behind raw rest e =
    let same : [] ≡ raw = ap first_part e in
    subst (Scans state) same (subst (λ x. Scans x []) (sym (only_plain_ends state c at)) done)
stepped state c s fails at behind raw rest e = cc
stepped state c s (goes next) at behind raw rest e =
    kept state next c s at behind (scan_string next s) refl raw rest e

pub scan_string-Scans :
    (state : StringState) (s raw rest : Bytes)
    → scan_string state s ≡ some (raw, rest)
    → Scans state raw
unfolding scan_string
scan_string-Scans state [] raw rest e = cc
scan_string-Scans state (c ∷ s) raw rest e =
    stepped state c s (string_step state c) refl (λ next. scan_string-Scans next s) raw rest e

plain_goes :
    (c : ℕ) (next : StringState)
    → (c == backslash) ≡ false
    → string_step plain c ≡ goes next
    → next ≡ plain
unfolding string_step
plain_goes c next no_slash e = ground arith

-- A byte other than a backslash is a character of its own.
pub Scans-plain :
    (c : ℕ) (s : Bytes) → (c == backslash) ≡ false → Scans plain (c ∷ s) → Scans plain s
Scans-plain c s no_slash (step {next = next} e u) =
    subst (λ x. Scans x s) (plain_goes c next no_slash e) u

pub Scans-slash : (s : Bytes) → Scans plain (backslash ∷ s) → Scans escaped s
unfolding string_step
Scans-slash s (step {next = next} e u) =
    let same : escaped ≡ next = cc in subst (λ x. Scans x s) (sym same) u

-- Four hexadecimal digits.
pub data HasDigits : Bytes → Type 0 where
  digits :
      (a b c d : ℕ) (s : Bytes)
      → is_hex a ≡ true
      → is_hex b ≡ true
      → is_hex c ≡ true
      → is_hex d ≡ true
      → Scans plain s
      → HasDigits (a ∷ b ∷ c ∷ d ∷ s)

hex_goes :
    (k c : ℕ) (next : StringState)
    → string_step (hex (suc k)) c ≡ goes next
    → (is_hex c ≡ true) × (next ≡ hex k)
unfolding string_step
hex_goes k c next e = ground arith

last_hex_goes :
    (c : ℕ) (next : StringState)
    → string_step (hex 0) c ≡ goes next
    → (is_hex c ≡ true) × (next ≡ plain)
unfolding string_step
last_hex_goes c next e = ground arith

escaped_goes :
    (c : ℕ) (next : StringState)
    → string_step escaped c ≡ goes next
    → ((is_simple_escape c ≡ true) × (next ≡ plain)) ⊎ ((c ≡ b'u') × (next ≡ hex 3))
unfolding string_step
escaped_goes c next e = ground arith

fourth_digit :
    (a b c : ℕ) (s : Bytes)
    → is_hex a ≡ true
    → is_hex b ≡ true
    → is_hex c ≡ true
    → Scans (hex 0) s
    → HasDigits (a ∷ b ∷ c ∷ s)
fourth_digit a b c s ha hb hc (step {next = next} {c = d} {s = t} e u) =
    let (hd, same) = last_hex_goes d next e in
    digits a b c d t ha hb hc hd (subst (λ x. Scans x t) same u)

third_digit :
    (a b : ℕ) (s : Bytes)
    → is_hex a ≡ true
    → is_hex b ≡ true
    → Scans (hex 1) s
    → HasDigits (a ∷ b ∷ s)
third_digit a b s ha hb (step {next = next} {c = c} {s = t} e u) =
    let (hc, same) = hex_goes 0 c next e in
    fourth_digit a b c t ha hb hc (subst (λ x. Scans x t) same u)

second_digit : (a : ℕ) (s : Bytes) → is_hex a ≡ true → Scans (hex 2) s → HasDigits (a ∷ s)
second_digit a s ha (step {next = next} {c = b} {s = t} e u) =
    let (hb, same) = hex_goes 1 b next e in third_digit a b t ha hb (subst (λ x. Scans x t) same u)

Scans-HasDigits : (s : Bytes) → Scans (hex 3) s → HasDigits s
Scans-HasDigits s (step {next = next} {c = a} {s = t} e u) =
    let (ha, same) = hex_goes 2 a next e in second_digit a t ha (subst (λ x. Scans x t) same u)

-- What follows a backslash.
pub data Escape : Bytes → Type 0 where
  simple : (x : ℕ) (s : Bytes) → is_simple_escape x ≡ true → Scans plain s → Escape (x ∷ s)
  numbered : (s : Bytes) → HasDigits s → Escape (b'u' ∷ s)

pub Scans-Escape : (s : Bytes) → Scans escaped s → Escape s
Scans-Escape s (step {next = next} {c = x} {s = t} e u) = elim (escaped_goes x next e) [
  | inl (is, same) ↦ simple x t is (subst (λ n. Scans n t) same u)
  | inr (is, same) ↦
      subst (λ c. Escape (c ∷ t)) (sym is)
        (numbered t (Scans-HasDigits t (subst (λ n. Scans n t) same u)))
]
