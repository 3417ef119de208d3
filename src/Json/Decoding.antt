-- ===== src/Json/Decoding.antt =====
-- The texts in what encoding/json decodes.
use golang_videoencoder_api.Prelude.{
  ℕ, zero, suc, Bytes, bytes, ◌==◌, [], ◌∷◌, if◌then◌else◌, Bool, true, false, Option, none, some,
  length, ◌≡◌, refl, inl, inr, Bool-cases, subst,
}
use golang_videoencoder_api.GoPath.{strip_prefix}
use golang_videoencoder_api.Json.Strings.{read_string}
use golang_videoencoder_api.Json.Values.{
  Json, null, scalar, string, array, object, Items, Members, no_members, member, ◌>>=◌, skip_space,
  as_value, as_string, Reader, read_scalar, skip_number, more_members, after_member, read_key,
  read_colon, read_members, as_array, as_object, read_array, read_items, read_object, read_start,
  read_value, Start, opens_string, opens_array, opens_object, other, start,
}
use golang_videoencoder_api.Json.Runes.{IsUtf8}
use golang_videoencoder_api.Json.Unquoting.{HasText, read_string-HasText}

-- A value that is a string is valid UTF-8.
abbrev pub IsText : Json → Type 0
IsText (string s) = IsUtf8 s
IsText _ = Unit

abbrev pub AllTexts : Members → Type 0
AllTexts no_members = Unit
AllTexts (member key v rest) = IsText v × AllTexts rest

-- So are the strings right inside an object.
abbrev pub IsSound : Json → Type 0
IsSound (string s) = IsUtf8 s
IsSound (object all) = AllTexts all
IsSound _ = Unit

abbrev pub HasValue : Option (Json × Bytes) → Type 0
HasValue none = Unit
HasValue (some (v, _)) = IsSound v

abbrev HasMembers : Option (Members × Bytes) → Type 0
HasMembers none = Unit
HasMembers (some (others, _)) = AllTexts others

IsSound-IsText : (v : Json) → IsSound v → IsText v
IsSound-IsText null h = tt
IsSound-IsText scalar h = tt
IsSound-IsText (string s) h = h
IsSound-IsText (array items) h = tt
IsSound-IsText (object all) h = tt

bind-HasMembers :
    {A : Type 0} (o : Option A) (f : A → Option (Members × Bytes))
    → ((a : A) → o ≡ some a → HasMembers (f a))
    → HasMembers (o >>= f)
bind-HasMembers none f h = tt
bind-HasMembers (some a) f h = h a refl

more_members-HasMembers :
    (key : Bytes) (v : Json) (o : Option (Members × Bytes))
    → IsText v
    → HasMembers o
    → HasMembers (more_members key v o)
more_members-HasMembers key v none text h = tt
more_members-HasMembers key v (some (others, rest)) text h = (text, h)

after_member-HasMembers :
    (more : Bytes → Option (Members × Bytes)) (key : Bytes) (v : Json) (s : Bytes)
    → IsText v
    → ((s : Bytes) → HasMembers (more s))
    → HasMembers (after_member more key v s)
unfolding after_member
after_member-HasMembers more key v [] text h = tt
after_member-HasMembers more key v (c ∷ s) text h = elim (Bool-cases (c == b',')) [
  | inl e ↦ rw e (more_members-HasMembers key v (more s) text (h s))
  | inr e1 ↦ elim (Bool-cases (c == b'}')) [ inl e ↦ rw (e1, e) (text, tt) | inr e ↦ rw (e1, e) tt ]
]

read_members-HasMembers :
    (fuel : ℕ) (read : Reader)
    → ((s : Bytes) → HasValue (read s))
    → (s : Bytes) → HasMembers (read_members fuel read s)
unfolding read_members
read_members-HasMembers zero read sound s = tt
read_members-HasMembers (suc fuel) read sound s =
    bind-HasMembers (read_key (skip_space s)) _ (λ key found.
      bind-HasMembers (read_colon (skip_space key.1)) _ (λ s2 colon.
        bind-HasMembers (read s2) _ (λ value given.
          after_member-HasMembers (read_members fuel read) key.0 value.0 (skip_space value.1)
            (IsSound-IsText value.0 (subst HasValue given (sound s2)))
            (read_members-HasMembers fuel read sound))))

as_object-HasValue : (o : Option (Members × Bytes)) → HasMembers o → HasValue (as_object o)
as_object-HasValue none h = tt
as_object-HasValue (some (others, rest)) h = h

as_array-HasValue : (o : Option (Items × Bytes)) → HasValue (as_array o)
as_array-HasValue none = tt
as_array-HasValue (some (items, rest)) = tt

as_string-HasValue : (o : Option (Bytes × Bytes)) → HasText o → HasValue (as_string o)
as_string-HasValue none h = tt
as_string-HasValue (some (s, rest)) h = h

as_value-HasValue : (v : Json) (o : Option Bytes) → IsSound v → HasValue (as_value v o)
as_value-HasValue v none h = tt
as_value-HasValue v (some rest) h = h

read_array-HasValue : (read : Reader) (s : Bytes) → HasValue (read_array read s)
unfolding read_array
read_array-HasValue read [] = tt
read_array-HasValue read (c ∷ s) = elim (Bool-cases (c == b']')) [
  | inl e ↦ rw e tt
  | inr e ↦ rw e (as_array-HasValue (read_items (length (c ∷ s)) read (c ∷ s)))
]

read_object-HasValue :
    (read : Reader)
    → ((s : Bytes) → HasValue (read s))
    → (s : Bytes) → HasValue (read_object read s)
unfolding read_object
read_object-HasValue read sound [] = tt
read_object-HasValue read sound (c ∷ s) = elim (Bool-cases (c == b'}')) [
  | inl e ↦ rw e tt
  | inr e ↦ rw e (
      as_object-HasValue (read_members (length (c ∷ s)) read (c ∷ s))
        (read_members-HasMembers (length (c ∷ s)) read sound (c ∷ s)))
]

if-HasValue :
    (b : Bool) (x y : Option (Json × Bytes))
    → HasValue x
    → HasValue y
    → HasValue (if b then x else y)
if-HasValue true x y hx hy = hx
if-HasValue false x y hx hy = hy

read_scalar-HasValue : (s : Bytes) → HasValue (read_scalar s)
unfolding read_scalar
read_scalar-HasValue [] = tt
read_scalar-HasValue (c ∷ s) =
    if-HasValue (c == b'n') _ _ (as_value-HasValue null (strip_prefix (c ∷ s) (bytes "null")) tt) (
      if-HasValue (c == b't') _ _
        (as_value-HasValue scalar (strip_prefix (c ∷ s) (bytes "true")) tt)
        (if-HasValue (c == b'f') _ _
          (as_value-HasValue scalar (strip_prefix (c ∷ s) (bytes "false")) tt)
          (as_value-HasValue scalar (skip_number (c ∷ s)) tt)))

-- A value by how it begins, with a reader for the values inside it.
abbrev deep : Reader → ℕ → Bytes → Start → Option (Json × Bytes)
deep read c s opens_string = as_string (read_string s)
deep read c s opens_array = read_array read (skip_space s)
deep read c s opens_object = read_object read (skip_space s)
deep read c s other = read_scalar (c ∷ s)

deep-HasValue :
    (read : Reader)
    → ((s : Bytes) → HasValue (read s))
    → (c : ℕ) (s : Bytes) (begin : Start) → HasValue (deep read c s begin)
deep-HasValue read sound c s opens_string =
    as_string-HasValue (read_string s) (read_string-HasText s)
deep-HasValue read sound c s opens_array = read_array-HasValue read (skip_space s)
deep-HasValue read sound c s opens_object = read_object-HasValue read sound (skip_space s)
deep-HasValue read sound c s other = read_scalar-HasValue (c ∷ s)

started-HasValue :
    (read : Reader)
    → ((s : Bytes) → HasValue (read s))
    → (s : Bytes) → HasValue (read_start (some read) s)
unfolding read_start
started-HasValue read sound [] = tt
started-HasValue read sound (c ∷ s) = deep-HasValue read sound c s (start c)

abbrev flat : ℕ → Bytes → Start → Option (Json × Bytes)
flat c s opens_string = as_string (read_string s)
flat c s opens_array = none
flat c s opens_object = none
flat c s other = read_scalar (c ∷ s)

flat-HasValue : (c : ℕ) (s : Bytes) (begin : Start) → HasValue (flat c s begin)
flat-HasValue c s opens_string = as_string-HasValue (read_string s) (read_string-HasText s)
flat-HasValue c s opens_array = tt
flat-HasValue c s opens_object = tt
flat-HasValue c s other = read_scalar-HasValue (c ∷ s)

unnested-HasValue : (s : Bytes) → HasValue (read_start none s)
unfolding read_start
unnested-HasValue [] = tt
unnested-HasValue (c ∷ s) = flat-HasValue c s (start c)

pub read_value-HasValue : (room : ℕ) (s : Bytes) → HasValue (read_value room s)
unfolding read_value
read_value-HasValue zero s = unnested-HasValue (skip_space s)
read_value-HasValue (suc room) s =
    started-HasValue (read_value room) (read_value-HasValue room) (skip_space s)
