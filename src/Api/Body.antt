-- ===== src/Api/Body.antt =====
-- `readJSON` of internal/api/handlers.go, with `http.MaxBytesReader` and the decoder of
-- encoding/json. The two request bodies have two string fields each.
use golang_videoencoder_api.Prelude.{
  ℕ, ◌^◌, Bytes, bytes, ltb, ◌==◌, if◌then◌else◌, [], ◌∷◌, Bool, true, false, not, ◌&&◌, Option,
  none, some, length, take, ◌≡◌, refl,
}
use golang_videoencoder_api.Json.Values.{Json, skip_space, read_value, max_nesting_depth}
use golang_videoencoder_api.Json.Structs.{Fields, store_value}
use golang_videoencoder_api.Json.Scanner.{ScanEnd, ends, invalid, starved, scan_value}
use golang_videoencoder_api.Api.{Response, write_error}

-- `maxBodyBytes`
abbrev pub max_body_bytes : ℕ
max_body_bytes = 2 ^ 20

abbrev too_large : Response
too_large = write_error 413 (bytes "request body too large")

abbrev invalid_body : Response
invalid_body = write_error 400 (bytes "invalid request body")

abbrev trailing_data : Response
trailing_data = write_error 400 (bytes "unexpected data after JSON body")

-- What a handler gets: the two fields, or the response that was written.
pub data Read : Type 0 where
  refused : (r : Response) → Read
  read : (first second : Bytes) → Read

-- `dec.More()`: a byte other than a closing bracket follows.
unfoldable pub more : Bytes → Bool
more [] = false
more (c ∷ s) = not (c == b']') && not (c == b'}')

-- The body was decoded, and `rest` follows the value.
abbrev pub after_decode : Fields → Bytes → Read
after_decode f rest =
    if f.failed
    then refused invalid_body
    else if more (skip_space rest)
    then refused trailing_data
    else read f.first f.second

module _ (first_name second_name : Bytes) where
  unfoldable pub decode_value : Option (Json × Bytes) → Bytes → Read
  unfolding more store_value skip_space
  decode_value none rest = refused invalid_body
  decode_value (some (v, _)) rest = after_decode (store_value true first_name second_name v) rest

  -- The bytes that the reader gives, and whether it fails behind them because of the limit.
  unfoldable pub decode_scanned : ScanEnd → Bytes → Bool → Read
  unfolding decode_value
  decode_scanned invalid s limited = refused invalid_body
  decode_scanned (ends rest) s limited = decode_value (read_value max_nesting_depth s) rest
  decode_scanned (starved complete) s true = refused too_large
  decode_scanned (starved false) s false = refused invalid_body
  decode_scanned (starved true) s false = decode_value (read_value max_nesting_depth s) []

  -- `readJSON`
  unfoldable pub read_json : Bytes → Read
  unfolding decode_scanned scan_value read_value
  read_json body =
      let s = take max_body_bytes body in
      decode_scanned (scan_value s) s (ltb max_body_bytes (length body))

read_video :
    read_json
      (bytes "resource_id")
      (bytes "file_path")
      (bytes "{\"resource_id\":\"r\",\"file_path\":\"f\"} ")
    ≡ read (bytes "r") (bytes "f")
unfolding read_json bytes
read_video = refl

read_unknown_field :
    read_json (bytes "a") (bytes "b") (bytes "{\"a\":\"r\",\"c\":1}") ≡ refused invalid_body
unfolding read_json bytes
read_unknown_field = refl

read_twice :
    read_json (bytes "a") (bytes "b") (bytes "{\"a\":\"r\"} {\"a\":\"r\"}") ≡ refused trailing_data
unfolding read_json bytes
read_twice = refl

-- A closing bracket behind the body is not seen as trailing data.
read_bracket :
    read_json (bytes "a") (bytes "b") (bytes "{\"a\":\"r\"}}{\"a\":\"s\"}") ≡ read (bytes "r") []
unfolding read_json bytes
read_bracket = refl
