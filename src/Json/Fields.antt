-- ===== src/Json/Fields.antt =====
-- The texts in the structs that encoding/json decodes.
use golang_videoencoder_api.Prelude.{Bytes, Bool, inl, inr, Bool-cases}
use golang_videoencoder_api.Json.Values.{
  Json, null, scalar, string, array, object, Members, no_members, member,
}
use golang_videoencoder_api.Json.Structs.{
  Fields, no_fields, names, store_first, store_second, store_member, store_members, store_value,
}
use golang_videoencoder_api.Json.Runes.{IsUtf8, end}
use golang_videoencoder_api.Json.Decoding.{IsText, AllTexts, IsSound}

-- Both fields of a struct are valid UTF-8.
pub record AreTexts (f : Fields) : Type 0 where
  pub first_text : IsUtf8 f.first
  pub second_text : IsUtf8 f.second

store_first-AreTexts : (v : Json) (f : Fields) → IsText v → AreTexts f → AreTexts (store_first v f)
unfolding store_first
store_first-AreTexts null f text t = t
store_first-AreTexts scalar f text t = record {
  first_text = t.first_text;
  second_text = t.second_text;
}
store_first-AreTexts (string s) f text t = record { first_text = text; second_text = t.second_text }
store_first-AreTexts (array items) f text t = record {
  first_text = t.first_text;
  second_text = t.second_text;
}
store_first-AreTexts (object all) f text t = record {
  first_text = t.first_text;
  second_text = t.second_text;
}

store_second-AreTexts :
    (v : Json) (f : Fields) → IsText v → AreTexts f → AreTexts (store_second v f)
unfolding store_second
store_second-AreTexts null f text t = t
store_second-AreTexts scalar f text t = record {
  first_text = t.first_text;
  second_text = t.second_text;
}
store_second-AreTexts (string s) f text t = record { first_text = t.first_text; second_text = text }
store_second-AreTexts (array items) f text t = record {
  first_text = t.first_text;
  second_text = t.second_text;
}
store_second-AreTexts (object all) f text t = record {
  first_text = t.first_text;
  second_text = t.second_text;
}

module _ (strict : Bool) (first_name second_name : Bytes) where
  store_member-AreTexts :
      (key : Bytes) (v : Json) (f : Fields)
      → IsText v
      → AreTexts f
      → AreTexts (store_member strict first_name second_name key v f)
  unfolding store_member
  store_member-AreTexts key v f text t = elim (Bool-cases (names first_name key)) [
    | inl e ↦ rw e (store_first-AreTexts v f text t)
    | inr e1 ↦ elim (Bool-cases (names second_name key)) [
      | inl e ↦ rw (e1, e) (store_second-AreTexts v f text t)
      | inr e ↦ rw (e1, e) (record { first_text = t.first_text; second_text = t.second_text })
    ]
  ]

  store_members-AreTexts :
      (members : Members) (f : Fields)
      → AllTexts members
      → AreTexts f
      → AreTexts (store_members strict first_name second_name members f)
  unfolding store_members
  store_members-AreTexts no_members f texts t = t
  store_members-AreTexts (member key v rest) f (text, texts) t =
      store_members-AreTexts rest _ texts (store_member-AreTexts key v f text t)

  pub store_value-AreTexts :
      (v : Json) → IsSound v → AreTexts (store_value strict first_name second_name v)
  unfolding store_value
  store_value-AreTexts (object all) sound =
      store_members-AreTexts all no_fields sound (record { first_text = end; second_text = end })
  store_value-AreTexts null sound = record { first_text = end; second_text = end }
  store_value-AreTexts scalar sound = record { first_text = end; second_text = end }
  store_value-AreTexts (string s) sound = record { first_text = end; second_text = end }
  store_value-AreTexts (array items) sound = record { first_text = end; second_text = end }
