-- ===== src/Json/Escapes.antt =====
-- How encoding/json writes one ASCII character, and what it reads for that.
use golang_videoencoder_api.Prelude.{
  ℕ, suc, ◌+◌, ◌*◌, ◌<◌, Bytes, ltb, ◌==◌, if◌then◌else◌, [], ◌∷◌, ◌++◌, true, false, ◌||◌, none,
  some, length, ◌≡◌, refl, arith, Bool-cases, inl, inr,
}
use golang_videoencoder_api.Json.Utf8.{is_surrogate}
use golang_videoencoder_api.Json.Strings.{
  quote, backslash, is_hex, is_simple_escape, StringState, plain, escaped, hex, goes, string_step,
  scan_string, hex_value, unicode_escape, simple_escape, read_char, unquote, hex_digit, escape_byte,
  is_safe,
}
use golang_videoencoder_api.Json.Runes.{tail_width_one}
use Prim.Native.Nat.{◌/◌, ◌%◌}

-- What stands for one ASCII character.
abbrev pub written : ℕ → Bytes
written c = if is_safe c then c ∷ [] else escape_byte c

hex_digit-is_hex : (n : ℕ) → n < 16 → is_hex (hex_digit n) ≡ true
unfolding hex_digit
hex_digit-is_hex n h = ground arith

hex_value-hex_digit : (n : ℕ) → n < 16 → hex_value (hex_digit n) ≡ n
unfolding hex_digit hex_value
hex_value-hex_digit n h = ground arith

-- How `write_char` writes a character: as it is, behind a backslash, or by two hexadecimal digits.
pub data Form (c : ℕ) : Type 0 where
  as_is :
      (written c ≡ c ∷ []) → string_step plain c ≡ goes plain → (c == backslash) ≡ false → Form c
  short :
      (x : ℕ)
      → written c ≡ backslash ∷ x ∷ []
      → is_simple_escape x ≡ true
      → (x == b'u') ≡ false
      → simple_escape x ≡ c
      → Form c
  long :
      written c ≡ backslash ∷ b'u' ∷ b'0' ∷ b'0' ∷ hex_digit (c / 16) ∷ hex_digit (c % 16) ∷ []
      → c < 0x80
      → Form c

pub written-Form : (c : ℕ) → ltb c 0x80 ≡ true → Form c
unfolding escape_byte string_step simple_escape
written-Form c h = elim (Bool-cases (is_safe c)) [
  | inl safe ↦ as_is (rw safe refl) (ground arith) (ground arith)
  | inr unsafe ↦ elim (Bool-cases (c == quote || c == backslash)) [
    | inl is ↦ short c (rw (unsafe, is) refl) (ground arith) (ground arith) (ground arith)
    | inr no1 ↦ elim (Bool-cases (c == 0x08)) [
      | inl is ↦ short b'b' (rw (unsafe, no1, is) refl) refl refl (ground arith)
      | inr no2 ↦ elim (Bool-cases (c == 0x0C)) [
        | inl is ↦ short b'f' (rw (unsafe, no1, no2, is) refl) refl refl (ground arith)
        | inr no3 ↦ elim (Bool-cases (c == 0x0A)) [
          | inl is ↦ short b'n' (rw (unsafe, no1, no2, no3, is) refl) refl refl (ground arith)
          | inr no4 ↦ elim (Bool-cases (c == 0x0D)) [
            | inl is ↦
                short b'r' (rw (unsafe, no1, no2, no3, no4, is) refl) refl refl (ground arith)
            | inr no5 ↦ elim (Bool-cases (c == 0x09)) [
              | inl is ↦
                  short b't' (rw (unsafe, no1, no2, no3, no4, no5, is) refl) refl refl
                    (ground arith)
              | inr no6 ↦ long (rw (unsafe, no1, no2, no3, no4, no5, no6) refl) (ground arith)
            ]
          ]
        ]
      ]
    ]
  ]
]

pub scan_goes :
    (state state' : StringState) (c : ℕ) (t raw rest : Bytes)
    → string_step state c ≡ goes state'
    → scan_string state' t ≡ some (raw, rest)
    → scan_string state (c ∷ t) ≡ some (c ∷ raw, rest)
unfolding scan_string
scan_goes state state' c t raw rest step h = rw (scan_string, step, h) refl

pub step_escaped : (x : ℕ) → is_simple_escape x ≡ true → string_step escaped x ≡ goes plain
unfolding string_step
step_escaped x h = rw h refl

pub step_hex : (k c : ℕ) → is_hex c ≡ true → string_step (hex (suc k)) c ≡ goes (hex k)
unfolding string_step
step_hex k c h = rw h refl

pub step_last_hex : (c : ℕ) → is_hex c ≡ true → string_step (hex 0) c ≡ goes plain
unfolding string_step
step_last_hex c h = rw h refl

pub step_backslash : string_step plain backslash ≡ goes escaped
unfolding string_step
step_backslash = refl

pub step_u : string_step escaped b'u' ≡ goes (hex 3)
unfolding string_step
step_u = refl

pub scan_written :
    (c : ℕ) (t raw rest : Bytes)
    → Form c
    → scan_string plain t ≡ some (raw, rest)
    → scan_string plain (written c ++ t) ≡ some (written c ++ raw, rest)
scan_written c t raw rest (as_is w step slash) h = rw w (scan_goes plain plain c t raw rest step h)
scan_written c t raw rest (short x w simple no_u stands) h = rw w (
    scan_goes plain escaped backslash _ _ rest step_backslash
      (scan_goes escaped plain x t raw rest (step_escaped x simple) h))
scan_written c t raw rest (long w small) h =
    let high = hex_digit-is_hex (c / 16) (omega arith) in
    let low = hex_digit-is_hex (c % 16) (omega arith) in
    rw w (
      scan_goes plain escaped backslash _ _ rest step_backslash (
        scan_goes escaped (hex 3) b'u' _ _ rest step_u (
          scan_goes (hex 3) (hex 2) b'0' _ _ rest (step_hex 2 b'0' refl) (
            scan_goes (hex 2) (hex 1) b'0' _ _ rest (step_hex 1 b'0' refl) (
              scan_goes (hex 1) (hex 0) _ _ _ rest (step_hex 0 _ high)
                (scan_goes (hex 0) plain _ t raw rest (step_last_hex _ low) h))))))

pub unicode_escape_other :
    (x : ℕ) (t : Bytes) → (x == b'u') ≡ false → unicode_escape (backslash ∷ x ∷ t) ≡ none
unfolding unicode_escape
unicode_escape_other x [] h = refl
unicode_escape_other x (a ∷ []) h = refl
unicode_escape_other x (a ∷ b ∷ []) h = refl
unicode_escape_other x (a ∷ b ∷ c ∷ []) h = refl
unicode_escape_other x (a ∷ b ∷ c ∷ d ∷ t) h = rw h refl

-- What a written character is read as.
pub read_written :
    (c : ℕ) (t : Bytes) (f : ℕ)
    → ltb c 0x80 ≡ true
    → Form c
    → unquote (suc f) (written c ++ t) ≡ c ∷ unquote f t
unfolding unquote read_char
read_written c t f h (as_is w step slash) = rw (w, slash, tail_width_one c t h, h) refl
read_written c t f h (short x w simple no_u stands) =
    rw (w, unicode_escape_other x t no_u, stands) refl
read_written c t f h (long w small) =
    let value : 0 + c / 16 * 16 + c % 16 ≡ c = omega arith in
    let apart : is_surrogate c ≡ false = ground arith in
    rw
      (
        w,
        hex_digit-is_hex (c / 16) (omega arith),
        hex_digit-is_hex (c % 16) (omega arith),
        hex_value-hex_digit (c / 16) (omega arith),
        hex_value-hex_digit (c % 16) (omega arith),
        value,
        apart,
        h,
      )
      refl

pub written_given : (c : ℕ) → Form c → 0 < length (written c)
written_given c (as_is w step slash) = rw w (omega arith)
written_given c (short x w simple no_u stands) = rw w (omega arith)
written_given c (long w small) = rw w (omega arith)
