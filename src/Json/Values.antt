-- ===== src/Json/Values.antt =====
-- JSON values and their syntax.
use golang_videoencoder_api.Prelude.{
  ℕ, zero, suc, Bytes, bytes, ◌==◌, if◌then◌else◌, [], ◌∷◌, Bool, ◌||◌, Option, none, some, length,
}
use golang_videoencoder_api.GoPath.{strip_prefix}
use golang_videoencoder_api.Json.Utf8.{between}
use golang_videoencoder_api.Json.Strings.{quote, read_string}

-- The program reads no number, Boolean or array, so these keep no content.
mutual
  pub data Json : Type 0 where
    null scalar : Json
    string : Bytes → Json
    array : Items → Json
    object : Members → Json

  pub data Items : Type 0 where
    no_items : Items
    item : Json → Items → Items

  pub data Members : Type 0 where
    no_members : Members
    member : Bytes → Json → Members → Members

infixl 5 ◌>>=◌
abbrev pub ◌>>=◌ : {A B : Type 0} → Option A → (A → Option B) → Option B
none >>= f = none
some a >>= f = f a

abbrev pub is_space : ℕ → Bool
is_space c = c == 0x20 || (c == 0x09 || (c == 0x0D || c == 0x0A))

unfoldable pub skip_space : Bytes → Bytes
skip_space [] = []
skip_space (c ∷ s) = let rest = skip_space s in if is_space c then rest else c ∷ s

abbrev is_digit : ℕ → Bool
is_digit c = between b'0' b'9' c

unfoldable pub skip_digits : Bytes → Bytes
skip_digits [] = []
skip_digits (c ∷ s) = let rest = skip_digits s in if is_digit c then rest else c ∷ s

-- At least one digit
abbrev some_digits : Bytes → Option Bytes
some_digits [] = none
some_digits (c ∷ s) = if is_digit c then some (skip_digits s) else none

abbrev fraction : Bytes → Option Bytes
fraction [] = some []
fraction (c ∷ s) = if c == b'.' then some_digits s else some (c ∷ s)

abbrev exponent_digits : Bytes → Option Bytes
exponent_digits [] = none
exponent_digits (c ∷ s) = if c == b'+' || c == b'-' then some_digits s else some_digits (c ∷ s)

abbrev exponent : Bytes → Option Bytes
exponent [] = some []
exponent (c ∷ s) = if c == b'e' || c == b'E' then exponent_digits s else some (c ∷ s)

abbrev unsigned : Bytes → Option Bytes
unsigned [] = none
unsigned (c ∷ s) =
    (if c == b'0' then some s else some_digits (c ∷ s)) >>= λ rest. fraction rest >>= exponent

-- What stands behind a number.
unfoldable pub skip_number : Bytes → Option Bytes
unfolding skip_digits
skip_number [] = none
skip_number (c ∷ s) = if c == b'-' then unsigned s else unsigned (c ∷ s)

abbrev pub as_value : Json → Option Bytes → Option (Json × Bytes)
as_value v none = none
as_value v (some rest) = some (v, rest)

abbrev pub as_string : Option (Bytes × Bytes) → Option (Json × Bytes)
as_string none = none
as_string (some (text, rest)) = some (string text, rest)

-- How a value begins.
pub data Start : Type 0 where
  opens_string opens_array opens_object other : Start

abbrev pub start : ℕ → Start
start c =
    if c == quote
    then opens_string
    else if c == b'['
    then opens_array
    else if c == b'{'
    then opens_object
    else other

-- Values that do not nest.
unfoldable pub read_scalar : Bytes → Option (Json × Bytes)
unfolding bytes strip_prefix skip_number
read_scalar [] = none
read_scalar (c ∷ s) =
    if c == b'n'
    then as_value null (strip_prefix (c ∷ s) (bytes "null"))
    else if c == b't'
    then as_value scalar (strip_prefix (c ∷ s) (bytes "true"))
    else if c == b'f'
    then as_value scalar (strip_prefix (c ∷ s) (bytes "false"))
    else as_value scalar (skip_number (c ∷ s))

abbrev pub Reader : Type 0
Reader = Bytes → Option (Json × Bytes)

abbrev more_items : Json → Option (Items × Bytes) → Option (Items × Bytes)
more_items v none = none
more_items v (some (rest_items, rest)) = some (item v rest_items, rest)

unfoldable after_item : (Bytes → Option (Items × Bytes)) → Json → Bytes → Option (Items × Bytes)
after_item more v [] = none
after_item more v (c ∷ s) =
    if c == b','
    then more_items v (more s)
    else if c == b']'
    then some (item v no_items, s)
    else none

-- Array elements up to the closing bracket; each takes at least one byte.
unfoldable pub read_items : ℕ → Reader → Bytes → Option (Items × Bytes)
unfolding after_item skip_space
read_items zero read s = none
read_items (suc fuel) read s =
    read s >>= λ (v, rest). after_item (read_items fuel read) v (skip_space rest)

abbrev pub more_members : Bytes → Json → Option (Members × Bytes) → Option (Members × Bytes)
more_members key v none = none
more_members key v (some (others, rest)) = some (member key v others, rest)

unfoldable pub after_member :
    (Bytes → Option (Members × Bytes)) → Bytes → Json → Bytes → Option (Members × Bytes)
after_member more key v [] = none
after_member more key v (c ∷ s) =
    if c == b','
    then more_members key v (more s)
    else if c == b'}'
    then some (member key v no_members, s)
    else none

unfoldable pub read_key : Bytes → Option (Bytes × Bytes)
unfolding read_string
read_key [] = none
read_key (c ∷ s) = if c == quote then read_string s else none

unfoldable pub read_colon : Bytes → Option Bytes
read_colon [] = none
read_colon (c ∷ s) = if c == b':' then some s else none

-- Object members up to the closing brace.
unfoldable pub read_members : ℕ → Reader → Bytes → Option (Members × Bytes)
unfolding after_member read_key read_colon skip_space
read_members zero read s = none
read_members (suc fuel) read s = read_key (skip_space s) >>= λ (key, s1).
    read_colon (skip_space s1) >>= λ s2.
    read s2 >>= λ (v, s3). after_member (read_members fuel read) key v (skip_space s3)

abbrev pub as_array : Option (Items × Bytes) → Option (Json × Bytes)
as_array none = none
as_array (some (items, rest)) = some (array items, rest)

abbrev pub as_object : Option (Members × Bytes) → Option (Json × Bytes)
as_object none = none
as_object (some (members, rest)) = some (object members, rest)

unfoldable pub read_array : Reader → Bytes → Option (Json × Bytes)
unfolding read_items
read_array read [] = none
read_array read (c ∷ s) =
    if c == b']'
    then some (array no_items, s)
    else as_array (read_items (length (c ∷ s)) read (c ∷ s))

unfoldable pub read_object : Reader → Bytes → Option (Json × Bytes)
unfolding read_members
read_object read [] = none
read_object read (c ∷ s) =
    if c == b'}'
    then some (object no_members, s)
    else as_object (read_members (length (c ∷ s)) read (c ∷ s))

-- A value, with a reader for the values inside it, or none where no deeper nesting is allowed.
unfoldable pub read_start : Option Reader → Bytes → Option (Json × Bytes)
unfolding read_array read_object read_string read_scalar skip_space
read_start inner [] = none
read_start none (c ∷ s) = elim (start c) [
  | opens_string ↦ as_string (read_string s)
  | opens_array ↦ none
  | opens_object ↦ none
  | other ↦ read_scalar (c ∷ s)
]
read_start (some read) (c ∷ s) = elim (start c) [
  | opens_string ↦ as_string (read_string s)
  | opens_array ↦ read_array read (skip_space s)
  | opens_object ↦ read_object read (skip_space s)
  | other ↦ read_scalar (c ∷ s)
]

-- `maxNestingDepth`
abbrev pub max_nesting_depth : ℕ
max_nesting_depth = 10000

-- A value behind space, with at most so many arrays and objects inside one another.
unfoldable pub read_value : ℕ → Bytes → Option (Json × Bytes)
unfolding read_start
read_value zero s = read_start none (skip_space s)
read_value (suc room) s = read_start (some (read_value room)) (skip_space s)
