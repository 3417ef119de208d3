-- ===== src/Json/Structs.antt =====
-- Structs of two string fields: `json.Unmarshal`, `json.NewDecoder`, and `json.Marshal`.
use golang_videoencoder_api.Prelude.{
  ℕ, zero, suc, ◌-◌, Bytes, bytes, bytes_eq, ◌==◌, if◌then◌else◌, [], ◌∷◌, ◌++◌, Bool, true, false,
  ◌&&◌, ◌||◌, Option, none, some, length,
}
use golang_videoencoder_api.Result.{Error, Result, ok, err, text}
use golang_videoencoder_api.Json.Utf8.{between}
use golang_videoencoder_api.Json.Strings.{write_string}
use golang_videoencoder_api.Json.Values.{
  Json, null, string, object, Members, no_members, member, max_nesting_depth, skip_space,
  read_value,
}

-- `foldName`, as far as an ASCII name can tell: letters in upper case, and the two runes beside
-- ASCII that fold into it, U+212A (a k) and U+017F (an s).
unfoldable pub fold_name : ℕ → Bytes → Bytes
fold_name zero s = []
fold_name (suc fuel) [] = []
fold_name (suc fuel) (c ∷ []) = (if between b'a' b'z' c then c - 32 else c) ∷ []
fold_name (suc fuel) (c ∷ d ∷ []) =
    if c == 0xC5 && d == 0xBF
    then b'S' ∷ []
    else (if between b'a' b'z' c then c - 32 else c) ∷ fold_name fuel (d ∷ [])
fold_name (suc fuel) (c ∷ d ∷ e ∷ s) =
    let as_s = b'S' ∷ fold_name fuel (e ∷ s) in
    let as_k = b'K' ∷ fold_name fuel s in
    let as_is = (if between b'a' b'z' c then c - 32 else c) ∷ fold_name fuel (d ∷ e ∷ s) in
    if c == 0xC5 && d == 0xBF
    then as_s
    else if c == 0xE2 && (d == 0x84 && e == 0xAA)
    then as_k
    else as_is

unfoldable pub names : Bytes → Bytes → Bool
unfolding fold_name bytes_eq
names name key = bytes_eq (fold_name (length name) name) (fold_name (length key) key)

-- Two string fields under construction, and whether an error was met on the way; reading goes on
-- behind such an error.
pub record Fields : Type 0 where
  pub first : Bytes
  pub second : Bytes
  pub failed : Bool

abbrev pub no_fields : Fields
no_fields = record { first = []; second = []; failed = false }

-- `literalStore` and its like for a string: a string is stored, null changes nothing, and any
-- other value is an error.
unfoldable pub store_first : Json → Fields → Fields
store_first (string s) f = record f { first = s }
store_first null f = f
store_first _ f = record f { failed = true }

unfoldable pub store_second : Json → Fields → Fields
store_second (string s) f = record f { second = s }
store_second null f = f
store_second _ f = record f { failed = true }

module _ (strict : Bool) (first_name second_name : Bytes) where
  -- One member: a key that names no field is skipped, and an error where unknown fields are
  -- disallowed.
  unfoldable pub store_member : Bytes → Json → Fields → Fields
  unfolding store_first store_second names
  store_member key v f =
      if names first_name key
      then store_first v f
      else if names second_name key
      then store_second v f
      else record f { failed = f.failed || strict }

  unfoldable pub store_members : Members → Fields → Fields
  unfolding store_member
  store_members no_members f = f
  store_members (member key v rest) f = store_members rest (store_member key v f)

  -- `(*decodeState).value` for such a struct.
  unfoldable pub store_value : Json → Fields
  unfolding store_members
  store_value (object members) = store_members members no_fields
  store_value null = no_fields
  store_value _ = record no_fields { failed = true }

-- The texts of the package's errors are long and are not modelled, except that they are not empty.
abbrev pub syntax_error : Error
syntax_error = text (bytes "invalid JSON")

abbrev pub type_error : Error
type_error = text (bytes "json: cannot unmarshal")

abbrev checked : Fields → Result (Bytes × Bytes)
checked f = if f.failed then err type_error else ok (f.first, f.second)

-- Nothing but space may follow the value.
unfoldable pub unmarshal_read : Bytes → Bytes → Option (Json × Bytes) → Result (Bytes × Bytes)
unfolding store_value skip_space
unmarshal_read first_name second_name none = err syntax_error
unmarshal_read first_name second_name (some (v, rest)) = elim (skip_space rest) [
  | [] ↦ checked (store_value false first_name second_name v)
  | _ ∷ _ ↦ err syntax_error
]

-- `json.Unmarshal(payload, &s)`, for the struct with these two field names
unfoldable pub unmarshal : Bytes → Bytes → Bytes → Result (Bytes × Bytes)
unfolding read_value unmarshal_read
unmarshal first_name second_name payload =
    unmarshal_read first_name second_name (read_value max_nesting_depth payload)

-- `json.Marshal(s)`
unfoldable pub marshal : Bytes → Bytes → Bytes → Bytes → Bytes
unfolding write_string
marshal first_name second_name first second =
    b'{'
    ∷ (write_string first_name
        ++ (b':'
            ∷ (write_string first
                ++ (b','
                    ∷ (write_string second_name
                        ++ (b':' ∷ (write_string second ++ (b'}' ∷ []))))))))
