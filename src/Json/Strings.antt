-- ===== src/Json/Strings.antt =====
-- JSON strings: their syntax, what they stand for, and how Go writes them.
use golang_videoencoder_api.Prelude.{
  ℕ, zero, suc, ◌+◌, ◌-◌, ◌*◌, Bytes, ltb, leb, ◌==◌, if◌then◌else◌, [], ◌∷◌, ◌++◌, Bool, false,
  not, ◌&&◌, ◌||◌, Option, none, some, length, take, drop, get_or,
}
use golang_videoencoder_api.Json.Utf8.{between, tail_width, replacement, is_surrogate, encode_rune}
use Prim.Native.Nat.{◌/◌, ◌%◌}

abbrev pub quote : ℕ
quote = 0x22

abbrev pub backslash : ℕ
backslash = 0x5C

-- Inside a string: plain text, behind a backslash, or in `\u` with so many digits to come.
pub data StringState : Type 0 where
  plain escaped : StringState
  hex : ℕ → StringState

pub data StringStep : Type 0 where
  ends fails : StringStep
  goes : StringState → StringStep

abbrev pub is_hex : ℕ → Bool
is_hex c = between b'0' b'9' c || (between b'a' b'f' c || between b'A' b'F' c)

abbrev pub is_simple_escape : ℕ → Bool
is_simple_escape c =
    c == b'b'
    || (c == b'f'
        || (c == b'n'
            || (c == b'r' || (c == b't' || (c == backslash || (c == b'/' || c == quote))))))

-- `stateInString`, `stateInStringEsc` and `stateInStringEscU…` of the scanner
unfoldable pub string_step : StringState → ℕ → StringStep
string_step plain c =
    if c == quote
    then ends
    else if c == backslash
    then goes escaped
    else if ltb c 0x20
    then fails
    else goes plain
string_step escaped c =
    if is_simple_escape c then goes plain else if c == b'u' then goes (hex 3) else fails
string_step (hex zero) c = if is_hex c then goes plain else fails
string_step (hex (suc k)) c = if is_hex c then goes (hex k) else fails

abbrev pub keep : ℕ → Option (Bytes × Bytes) → Option (Bytes × Bytes)
keep c none = none
keep c (some (raw, rest)) = some (c ∷ raw, rest)

-- The text up to the closing quote, as it is written, and what stands behind the quote.
unfoldable pub scan_string : StringState → Bytes → Option (Bytes × Bytes)
unfolding string_step
scan_string state [] = none
scan_string state (c ∷ s) = elim (string_step state c) [
  | ends ↦ some ([], s)
  | fails ↦ none
  | goes state' ↦ keep c (scan_string state' s)
]

unfoldable pub hex_value : ℕ → ℕ
hex_value c = if leb c b'9' then c - b'0' else if leb c b'F' then c - b'A' + 10 else c - b'a' + 10

-- `getu4`: the number of `\uXXXX`, and what stands behind it.
unfoldable pub unicode_escape : Bytes → Option (ℕ × Bytes)
unfolding hex_value
unicode_escape (c0 ∷ c1 ∷ a ∷ b ∷ c ∷ d ∷ rest) =
    if c0 == backslash && (c1 == b'u' && (is_hex a && (is_hex b && (is_hex c && is_hex d))))
    then some (hex_value a * 4096 + hex_value b * 256 + hex_value c * 16 + hex_value d, rest)
    else none
unicode_escape _ = none

unfoldable pub simple_escape : ℕ → ℕ
simple_escape c =
    if c == b'b'
    then 0x08
    else if c == b'f'
    then 0x0C
    else if c == b'n'
    then 0x0A
    else if c == b'r'
    then 0x0D
    else if c == b't'
    then 0x09
    else c

-- Behind a first half of a surrogate pair: the pair, or a half alone, which is replaced.
abbrev pub join_surrogates : ℕ → Bytes → Option (ℕ × Bytes) → Bytes × Bytes
join_surrogates r rest none = (replacement, rest)
join_surrogates r rest (some (r', rest')) =
    if between 0xD800 0xDBFF r && between 0xDC00 0xDFFF r'
    then (encode_rune (0x10000 + (r - 0xD800) * 1024 + (r' - 0xDC00)), rest')
    else (replacement, rest)

abbrev pub read_escape : ℕ → Bytes → Option (ℕ × Bytes) → Bytes × Bytes
read_escape c s none = (simple_escape c ∷ [], s)
read_escape c s (some (r, rest)) =
    if is_surrogate r then join_surrogates r rest (unicode_escape rest) else (encode_rune r, rest)

abbrev pub read_rune : ℕ → Bytes → ℕ → Bytes × Bytes
read_rune c s zero = if ltb c 0x80 then (c ∷ [], s) else (replacement, s)
read_rune c s (suc k) = (c ∷ take (suc k) s, drop (suc k) s)

abbrev pub escape_of : Bytes → Bytes × Bytes
escape_of [] = ([], [])
escape_of (c ∷ s) = read_escape c s (unicode_escape (backslash ∷ c ∷ s))

-- The bytes that the first character of a raw text stands for, and the text behind it.
unfoldable pub read_char : ℕ → Bytes → Bytes × Bytes
unfolding unicode_escape simple_escape tail_width encode_rune
read_char c s = if c == backslash then escape_of s else read_rune c s (tail_width c s)

-- `unquote`; each round takes at least one byte, so the length of the text is fuel enough.
unfoldable pub unquote : ℕ → Bytes → Bytes
unfolding read_char
unquote zero s = []
unquote (suc fuel) [] = []
unquote (suc fuel) (c ∷ s) = let (out, rest) = read_char c s in out ++ unquote fuel rest

unfoldable pub hex_digit : ℕ → ℕ
hex_digit n = if ltb n 10 then b'0' + n else b'a' + (n - 10)

-- `\u00XX`, and the short escapes
unfoldable pub escape_byte : ℕ → Bytes
unfolding hex_digit
escape_byte c =
    if c == quote || c == backslash
    then backslash ∷ c ∷ []
    else if c == 0x08
    then backslash ∷ b'b' ∷ []
    else if c == 0x0C
    then backslash ∷ b'f' ∷ []
    else if c == 0x0A
    then backslash ∷ b'n' ∷ []
    else if c == 0x0D
    then backslash ∷ b'r' ∷ []
    else if c == 0x09
    then backslash ∷ b't' ∷ []
    else backslash ∷ b'u' ∷ b'0' ∷ b'0' ∷ hex_digit (c / 16) ∷ hex_digit (c % 16) ∷ []

-- `htmlSafeSet`
abbrev pub is_safe : ℕ → Bool
is_safe c =
    between 0x20 0x7F c
    && not (c == quote || (c == backslash || (c == b'<' || (c == b'>' || c == b'&'))))

-- U+2028 and U+2029 are E2 80 A8 and E2 80 A9.
abbrev pub is_line_separator : Bytes → Bool
is_line_separator (c ∷ d ∷ e ∷ _) = c == 0xE2 && (d == 0x80 && between 0xA8 0xA9 e)
is_line_separator _ = false

abbrev pub write_rune : ℕ → Bytes → ℕ → Bytes × Bytes
write_rune c s zero = (backslash ∷ b'u' ∷ b'f' ∷ b'f' ∷ b'f' ∷ b'd' ∷ [], s)
write_rune c s (suc k) =
    if is_line_separator (c ∷ s)
    then (backslash ∷ b'u' ∷ b'2' ∷ b'0' ∷ b'2' ∷ hex_digit (get_or s 1 0 % 16) ∷ [], drop 2 s)
    else (c ∷ take (suc k) s, drop (suc k) s)

-- What stands for the first character of a text, and the text behind it.
unfoldable pub write_char : ℕ → Bytes → Bytes × Bytes
unfolding escape_byte tail_width
write_char c s =
    if ltb c 0x80
    then (if is_safe c then c ∷ [] else escape_byte c, s)
    else write_rune c s (tail_width c s)

-- `appendString` without the quotes, with HTML characters escaped; the length is fuel enough.
unfoldable pub quote_body : ℕ → Bytes → Bytes
unfolding write_char
quote_body zero s = []
quote_body (suc fuel) [] = []
quote_body (suc fuel) (c ∷ s) = let (out, rest) = write_char c s in out ++ quote_body fuel rest

unfoldable pub write_string : Bytes → Bytes
unfolding quote_body
write_string s = quote ∷ (quote_body (length s) s ++ (quote ∷ []))

-- A string behind its opening quote: what it stands for, and what follows its closing quote.
abbrev pub unquoted : Option (Bytes × Bytes) → Option (Bytes × Bytes)
unquoted none = none
unquoted (some (raw, rest)) = some (unquote (length raw) raw, rest)

unfoldable pub read_string : Bytes → Option (Bytes × Bytes)
unfolding scan_string unquote
read_string s = unquoted (scan_string plain s)
