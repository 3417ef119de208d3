-- ===== src/Api/Texts.antt =====
-- The texts that `readJSON` of internal/api/handlers.go gives to the handlers.
use golang_videoencoder_api.Prelude.{
  Bytes, bytes, [], Bool, true, false, Bool-cases, Option, none, some, take, length, ltb, inl, inr,
  subst, sym,
}
use golang_videoencoder_api.GoStrings.Backwards.{trim_space-IsUtf8}
use golang_videoencoder_api.Json.Runes.{IsUtf8}
use golang_videoencoder_api.Json.Values.{Json, skip_space, max_nesting_depth}
use golang_videoencoder_api.Json.Structs.{Fields}
use golang_videoencoder_api.Json.Decoding.{HasValue, read_value-HasValue}
use golang_videoencoder_api.Json.Fields.{AreTexts, store_value-AreTexts}
use golang_videoencoder_api.Json.Scanner.{ScanEnd, ends, invalid, starved, scan_value}
use golang_videoencoder_api.Worker.{JobWorkerMessage}
use golang_videoencoder_api.Api.{Server}
use golang_videoencoder_api.Api.Body.{
  max_body_bytes, Read, refused, read, more, after_decode, decode_value, decode_scanned, read_json,
}
use golang_videoencoder_api.Api.JobRequests.{Asks}

-- What was read is valid UTF-8.
abbrev HasTexts : Read → Type 0
HasTexts (refused r) = Unit
HasTexts (read a b) = IsUtf8 a × IsUtf8 b

after_decode-HasTexts : (f : Fields) (rest : Bytes) → AreTexts f → HasTexts (after_decode f rest)
after_decode-HasTexts f rest texts = elim (Bool-cases f.failed) [
  | inl e ↦ rw e tt
  | inr e1 ↦ elim (Bool-cases (more (skip_space rest))) [
    | inl e ↦ rw (e1, e) tt
    | inr e ↦ rw (e1, e) (texts.first_text, texts.second_text)
  ]
]

module _ (first_name second_name : Bytes) where
  decode_value-HasTexts :
      (o : Option (Json × Bytes)) (rest : Bytes)
      → HasValue o
      → HasTexts (decode_value first_name second_name o rest)
  unfolding decode_value
  decode_value-HasTexts none rest h = tt
  decode_value-HasTexts (some (v, _)) rest h =
      after_decode-HasTexts _ rest (store_value-AreTexts true first_name second_name v h)

  decode_scanned-HasTexts :
      (e : ScanEnd) (s : Bytes) (limited : Bool)
      → HasTexts (decode_scanned first_name second_name e s limited)
  unfolding decode_scanned
  decode_scanned-HasTexts invalid s limited = tt
  decode_scanned-HasTexts (ends rest) s limited =
      decode_value-HasTexts _ rest (read_value-HasValue max_nesting_depth s)
  decode_scanned-HasTexts (starved complete) s true = tt
  decode_scanned-HasTexts (starved false) s false = tt
  decode_scanned-HasTexts (starved true) s false =
      decode_value-HasTexts _ [] (read_value-HasValue max_nesting_depth s)

  read_json-HasTexts : (body : Bytes) → HasTexts (read_json first_name second_name body)
  unfolding read_json
  read_json-HasTexts body =
      let s = take max_body_bytes body in
      decode_scanned-HasTexts (scan_value s) s (ltb max_body_bytes (length body))

module _ {W : Type 0} (server : Server W) (valid_uuid : Bytes → Bool) where
  -- The message that a request asks for.
  pub Asks-IsUtf8 :
      (body : Bytes) (m : JobWorkerMessage)
      → Asks server valid_uuid body m
      → IsUtf8 m.video_id × IsUtf8 m.output_bucket_path
  Asks-IsUtf8 body m asks =
      let (first, second) =
        subst HasTexts asks.decoded
          (read_json-HasTexts (bytes "video_id") (bytes "output_bucket_path") body) in
      (
        subst IsUtf8 (sym asks.id_trimmed) (trim_space-IsUtf8 asks.first first),
        subst IsUtf8 (sym asks.path_trimmed) (trim_space-IsUtf8 asks.second second),
      )
