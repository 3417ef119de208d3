-- ===== src/Json/Scanner.antt =====
-- The scanner of encoding/json of the Go library, as `(*Decoder).readValue` drives it: where a value
-- ends in a stream of bytes that may end before it.
use golang_videoencoder_api.Prelude.{
  ℕ, zero, suc, Bytes, bytes, ltb, leb, ◌==◌, if◌then◌else◌, List, [], ◌∷◌, Bool, true, false, ◌||◌,
  length, ◌≡◌, refl,
}
use golang_videoencoder_api.Json.Utf8.{between}
use golang_videoencoder_api.Json.Strings.{quote, backslash, is_hex, is_simple_escape}
use golang_videoencoder_api.Json.Values.{is_space, max_nesting_depth}

-- `parseState`: inside an object before a colon, inside an object behind one, inside an array.
pub data Frame : Type 0 where
  object_key object_value array_value : Frame

-- The scanner's `step`, one constructor for each function of the package.
pub data State : Type 0 where
  begin_value begin_value_or_empty begin_string begin_string_or_empty end_value : State
  in_string in_string_escape : State
  in_string_unicode : (left : ℕ) → State
  number_minus number_zero number_digits number_dot number_fraction : State
  number_e number_e_sign number_exponent : State
  in_literal : (left : Bytes) → State

-- What one byte does: the scan goes on, the value ended before the byte or with it, or an error.
pub data Move : Type 0 where
  goes : (state : State) (stack : List Frame) → Move
  ended_before ended_with bad : Move

abbrev close : List Frame → Move
close [] = ended_with
close (f ∷ stack) = goes end_value (f ∷ stack)

abbrev push : State → Frame → List Frame → Move
push state frame stack =
    if leb (suc (length stack)) max_nesting_depth then goes state (frame ∷ stack) else bad

-- `stateEndValue`
unfoldable pub after_value : List Frame → ℕ → Move
after_value [] c = ended_before
after_value (object_key ∷ stack) c =
    if is_space c
    then goes end_value (object_key ∷ stack)
    else if c == b':'
    then goes begin_value (object_value ∷ stack)
    else bad
after_value (object_value ∷ stack) c =
    if is_space c
    then goes end_value (object_value ∷ stack)
    else if c == b','
    then goes begin_string (object_key ∷ stack)
    else if c == b'}'
    then close stack
    else bad
after_value (array_value ∷ stack) c =
    if is_space c
    then goes end_value (array_value ∷ stack)
    else if c == b','
    then goes begin_value (array_value ∷ stack)
    else if c == b']'
    then close stack
    else bad

abbrev is_digit : ℕ → Bool
is_digit c = between b'0' b'9' c

-- `stateBeginValue`
unfoldable pub at_value : List Frame → ℕ → Move
at_value stack c =
    if is_space c
    then goes begin_value stack
    else if c == b'{'
    then push begin_string_or_empty object_key stack
    else if c == b'['
    then push begin_value_or_empty array_value stack
    else if c == quote
    then goes in_string stack
    else if c == b'-'
    then goes number_minus stack
    else if c == b'0'
    then goes number_zero stack
    else if c == b't'
    then goes (in_literal (b'r' ∷ b'u' ∷ b'e' ∷ [])) stack
    else if c == b'f'
    then goes (in_literal (b'a' ∷ b'l' ∷ b's' ∷ b'e' ∷ [])) stack
    else if c == b'n'
    then goes (in_literal (b'u' ∷ b'l' ∷ b'l' ∷ [])) stack
    else if is_digit c
    then goes number_digits stack
    else bad

-- `stateBeginString`
abbrev at_string : List Frame → ℕ → Move
at_string stack c =
    if is_space c then goes begin_string stack else if c == quote then goes in_string stack else bad

-- `state0`
unfoldable pub after_integer : List Frame → ℕ → Move
unfolding after_value
after_integer stack c =
    if c == b'.'
    then goes number_dot stack
    else if c == b'e' || c == b'E'
    then goes number_e stack
    else after_value stack c

abbrev exponent_digit : List Frame → ℕ → Move
exponent_digit stack c = if is_digit c then goes number_exponent stack else bad

-- One step of the scanner.
unfoldable pub scan_step : State → List Frame → ℕ → Move
unfolding at_value after_value after_integer
scan_step begin_value stack c = at_value stack c
scan_step begin_value_or_empty stack c =
    if is_space c
    then goes begin_value_or_empty stack
    else if c == b']'
    then after_value stack c
    else at_value stack c
scan_step begin_string stack c = at_string stack c
scan_step begin_string_or_empty [] c = bad
scan_step begin_string_or_empty (f ∷ stack) c =
    if is_space c
    then goes begin_string_or_empty (f ∷ stack)
    else if c == b'}'
    then after_value (object_value ∷ stack) c
    else at_string (f ∷ stack) c
scan_step end_value stack c = after_value stack c
scan_step in_string stack c =
    if c == quote
    then goes end_value stack
    else if c == backslash
    then goes in_string_escape stack
    else if ltb c 0x20
    then bad
    else goes in_string stack
scan_step in_string_escape stack c =
    if is_simple_escape c
    then goes in_string stack
    else if c == b'u'
    then goes (in_string_unicode 3) stack
    else bad
scan_step (in_string_unicode zero) stack c = if is_hex c then goes in_string stack else bad
scan_step (in_string_unicode (suc n)) stack c =
    if is_hex c then goes (in_string_unicode n) stack else bad
scan_step number_minus stack c =
    if c == b'0'
    then goes number_zero stack
    else if is_digit c
    then goes number_digits stack
    else bad
scan_step number_zero stack c = after_integer stack c
scan_step number_digits stack c =
    if is_digit c then goes number_digits stack else after_integer stack c
scan_step number_dot stack c = if is_digit c then goes number_fraction stack else bad
scan_step number_fraction stack c =
    if is_digit c
    then goes number_fraction stack
    else if c == b'e' || c == b'E'
    then goes number_e stack
    else after_value stack c
scan_step number_e stack c =
    if c == b'+' || c == b'-' then goes number_e_sign stack else exponent_digit stack c
scan_step number_e_sign stack c = exponent_digit stack c
scan_step number_exponent stack c =
    if is_digit c then goes number_exponent stack else after_value stack c
scan_step (in_literal []) stack c = after_value stack c
scan_step (in_literal (l ∷ [])) stack c = if c == l then goes end_value stack else bad
scan_step (in_literal (l ∷ m ∷ left)) stack c =
    if c == l then goes (in_literal (m ∷ left)) stack else bad

-- The end of a scan: the value ended, and these bytes follow it; an error; or the bytes ran out, with
-- whether a space would end the value.
pub data ScanEnd : Type 0 where
  ends : (rest : Bytes) → ScanEnd
  invalid : ScanEnd
  starved : (complete : Bool) → ScanEnd

abbrev would_end : Move → Bool
would_end ended_before = true
would_end _ = false

unfoldable pub scan : State → List Frame → Bytes → ScanEnd
unfolding scan_step
scan state stack [] = starved (would_end (scan_step state stack 0x20))
scan state stack (c ∷ s) = elim (scan_step state stack c) [
  | goes state' stack' ↦ scan state' stack' s
  | ended_before ↦ ends (c ∷ s)
  | ended_with ↦ ends s
  | bad ↦ invalid
]

-- `readValue` of a fresh decoder.
unfoldable pub scan_value : Bytes → ScanEnd
unfolding scan
scan_value s = scan begin_value [] s

scan_object : scan_value (bytes " {\"a\" : [1, -2.5e+3, {}, []], \"b\":null}x") ≡ ends (bytes "x")
unfolding scan_value bytes
scan_object = refl

scan_partial :
    (scan_value (bytes "{\"a\":tr") ≡ starved false) × (scan_value (bytes "12") ≡ starved true)
unfolding scan_value bytes
scan_partial = (refl, refl)

scan_bad : (scan_value (bytes "{a") ≡ invalid) × (scan_value (bytes "nullx") ≡ ends (bytes "x"))
unfolding scan_value bytes
scan_bad = (refl, refl)
