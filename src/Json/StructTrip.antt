-- ===== src/Json/StructTrip.antt =====
-- Structs of two texts in UTF-8, marshalled and unmarshalled by encoding/json.
use golang_videoencoder_api.Prelude.{
  ℕ, zero, suc, Bytes, [], ◌∷◌, ◌++◌, append_assoc, true, false, Option, some, length, ◌≡◌, refl,
  ap, ◌∙◌,
}
use golang_videoencoder_api.Result.{ok}
use golang_videoencoder_api.Json.Strings.{quote, write_string}
use golang_videoencoder_api.Json.Values.{
  Json, string, object, no_members, member, skip_space, as_string, as_object, more_members,
  after_member, read_members, read_object, read_value,
}
use golang_videoencoder_api.Json.Structs.{unmarshal, unmarshal_read, marshal, store_value, names}
use golang_videoencoder_api.Json.Runes.{IsUtf8}
use golang_videoencoder_api.Json.RoundTrip.{body, read_string-write_string}

-- A written text in front of others.
abbrev quoted : Bytes → Bytes → Bytes
quoted s rest = quote ∷ (body s ++ (quote ∷ rest))

write_string-append : (s rest : Bytes) → write_string s ++ rest ≡ quoted s rest
unfolding write_string
write_string-append s rest = ap (λ (l : Bytes). quote ∷ l) (append_assoc (body s) (quote ∷ []) rest)

read_value_text :
    (room : ℕ) (s rest : Bytes) → IsUtf8 s → read_value room (quoted s rest) ≡ some (string s, rest)
unfolding read_value
read_value_text zero s rest valid = ap as_string (read_string-write_string s rest valid)
read_value_text (suc room) s rest valid = ap as_string (read_string-write_string s rest valid)

read_members_one :
    (fuel : ℕ) (read : Bytes → Option (Json × Bytes)) (n s rest : Bytes)
    → IsUtf8 n
    → read (quoted s rest) ≡ some (string s, rest)
    → read_members (suc fuel) read (quoted n (b':' ∷ quoted s rest))
      ≡ after_member (read_members fuel read) n (string s) (skip_space rest)
unfolding read_members
read_members_one fuel read n s rest valid h =
    rw (read_string-write_string n (b':' ∷ quoted s rest) valid, h) refl

marshal-quoted :
    (n1 n2 a b : Bytes)
    → marshal n1 n2 a b
      ≡ b'{' ∷ quoted n1 (b':' ∷ quoted a (b',' ∷ quoted n2 (b':' ∷ quoted b (b'}' ∷ []))))
unfolding marshal
marshal-quoted n1 n2 a b =
    rw
      (
        write_string-append b (b'}' ∷ []),
        write_string-append n2 (b':' ∷ quoted b (b'}' ∷ [])),
        write_string-append a (b',' ∷ quoted n2 (b':' ∷ quoted b (b'}' ∷ []))),
        write_string-append n1 (b':' ∷ quoted a (b',' ∷ quoted n2 (b':' ∷ quoted b (b'}' ∷ [])))),
      )
      refl

read_members_two :
    (fuel : ℕ) (read : Bytes → Option (Json × Bytes)) (n1 n2 a b rest : Bytes)
    → IsUtf8 n1
    → IsUtf8 n2
    → ((s t : Bytes) → IsUtf8 s → read (quoted s t) ≡ some (string s, t))
    → IsUtf8 a
    → IsUtf8 b
    → read_members
        (suc (suc fuel))
        read
        (quoted n1 (b':' ∷ quoted a (b',' ∷ quoted n2 (b':' ∷ quoted b (b'}' ∷ rest)))))
      ≡ some (member n1 (string a) (member n2 (string b) no_members), rest)
read_members_two fuel read n1 n2 a b rest valid1 valid2 reads valid_a valid_b =
    let later = b',' ∷ quoted n2 (b':' ∷ quoted b (b'}' ∷ rest)) in
    read_members_one (suc fuel) read n1 a later valid1 (reads a later valid_a)
    ∙ unfold after_member skip_space read_members in
      ap (more_members n1 (string a))
        (read_members_one fuel read n2 b (b'}' ∷ rest) valid2 (reads b (b'}' ∷ rest) valid_b))

two_more : (xs ys : Bytes) (x y : ℕ) → (k : ℕ) × (length (xs ++ (x ∷ y ∷ ys)) ≡ suc (suc k))
two_more [] ys x y = (length ys, refl)
two_more (z ∷ xs) ys x y = let (k, e) = two_more xs ys x y in (suc k, ap suc e)

read_value_struct :
    (room : ℕ) (n1 n2 a b : Bytes)
    → IsUtf8 n1
    → IsUtf8 n2
    → IsUtf8 a
    → IsUtf8 b
    → read_value (suc room) (marshal n1 n2 a b)
      ≡ some (object (member n1 (string a) (member n2 (string b) no_members)), [])
unfolding read_value read_object
read_value_struct room n1 n2 a b valid1 valid2 valid_a valid_b =
    let tail = quoted a (b',' ∷ quoted n2 (b':' ∷ quoted b (b'}' ∷ []))) in
    let (k, e) = two_more (body n1) tail quote b':' in
    rw (marshal-quoted n1 n2 a b) (
      ap (λ (f : ℕ). as_object (read_members (suc f) (read_value room) (quoted n1 (b':' ∷ tail)))) e
      ∙ ap as_object (
          read_members_two (suc k) (read_value room) n1 n2 a b [] valid1 valid2
            (read_value_text room) valid_a valid_b))

-- Two texts in UTF-8 that are marshalled under two names and unmarshalled under the same names come back,
-- where the names are UTF-8 too and different to the decoder.
pub unmarshal-marshal :
    (n1 n2 a b : Bytes)
    → IsUtf8 n1
    → IsUtf8 n2
    → names n1 n1 ≡ true
    → names n2 n2 ≡ true
    → names n1 n2 ≡ false
    → IsUtf8 a
    → IsUtf8 b
    → unmarshal n1 n2 (marshal n1 n2 a b) ≡ ok (a, b)
unfolding unmarshal
unmarshal-marshal n1 n2 a b valid1 valid2 same1 same2 apart valid_a valid_b =
    ap (unmarshal_read n1 n2) (read_value_struct 9999 n1 n2 a b valid1 valid2 valid_a valid_b)
    ∙ unfold unmarshal_read store_value skip_space in rw (same1, same2, apart) refl
