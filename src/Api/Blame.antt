-- ===== src/Api/Blame.antt =====
-- The refusals of `readJSON` in internal/api/handlers.go.
use golang_videoencoder_api.Prelude.{
  take, [], Bytes, ltb, Bool, true, false, Option, none, some, length, ◌≡◌, ◌⊎◌, inl, inr, refl,
  arith,
}
use golang_videoencoder_api.Json.Values.{Json, read_value, max_nesting_depth}
use golang_videoencoder_api.Json.Structs.{Fields}
use golang_videoencoder_api.Json.Scanner.{ScanEnd, ends, invalid, starved, scan_value}
use golang_videoencoder_api.Api.{Response}
use golang_videoencoder_api.Api.Body.{
  max_body_bytes, Read, refused, read, after_decode, decode_value, decode_scanned, read_json,
}

-- A refusal that blames the request.
abbrev pub BlamesRequest : Response → Type 0
BlamesRequest r = (r.code ≡ 400) ⊎ (r.code ≡ 413)

abbrev pub Blames : Read → Type 0
Blames (refused r) = BlamesRequest r
Blames (read first second) = Unit

after_decode-Blames : (f : Fields) (rest : Bytes) → Blames (after_decode f rest)
after_decode-Blames f rest = ground arith

decode_value-Blames :
    (first_name second_name : Bytes) (v : Option (Json × Bytes)) (rest : Bytes)
    → Blames (decode_value first_name second_name v rest)
unfolding decode_value
decode_value-Blames first_name second_name none rest = inl refl
decode_value-Blames first_name second_name (some (v, _)) rest = after_decode-Blames _ rest

decode_scanned-Blames :
    (first_name second_name : Bytes) (e : ScanEnd) (s : Bytes) (limited : Bool)
    → Blames (decode_scanned first_name second_name e s limited)
unfolding decode_scanned
decode_scanned-Blames first_name second_name invalid s limited = inl refl
decode_scanned-Blames first_name second_name (ends rest) s limited =
    decode_value-Blames first_name second_name (read_value max_nesting_depth s) rest
decode_scanned-Blames first_name second_name (starved complete) s true = inr refl
decode_scanned-Blames first_name second_name (starved false) s false = inl refl
decode_scanned-Blames first_name second_name (starved true) s false =
    decode_value-Blames first_name second_name (read_value max_nesting_depth s) []

pub read_json-Blames :
    (first_name second_name body : Bytes) → Blames (read_json first_name second_name body)
unfolding read_json
read_json-Blames first_name second_name body =
    let s = take max_body_bytes body in
    decode_scanned-Blames first_name second_name (scan_value s) s (ltb max_body_bytes (length body))
