-- ===== src/Json/Tests.antt =====
-- Runs of the JSON reader and writer on small texts.
use golang_videoencoder_api.Prelude.{bytes, ◌≡◌, refl, [], ◌∷◌}
use golang_videoencoder_api.Result.{ok, err}
use golang_videoencoder_api.Json.Structs.{syntax_error, type_error, unmarshal, marshal}

unmarshal_message :
    unmarshal
      (bytes "video_id")
      (bytes "output_bucket_path")
      (bytes "{\"video_id\":\"v1\",\"output_bucket_path\":\"out/\"}")
    ≡ ok (bytes "v1", bytes "out/")
unfolding unmarshal bytes
unmarshal_message = refl

unmarshal_nested :
    unmarshal (bytes "a") (bytes "b") (
      bytes
        " { \"x\" : [1, -2.5e+3, {}, {\"q\":null}], \"A\":\"\\u0041\\n\\ud83d\\ude00\" , \"b\":null } ")
    ≡ ok (0x41 ∷ 0x0A ∷ 0xF0 ∷ 0x9F ∷ 0x98 ∷ 0x80 ∷ [], [])
unfolding unmarshal bytes
unmarshal_nested = refl

unmarshal_number : unmarshal (bytes "a") (bytes "b") (bytes "{\"a\":1}") ≡ err type_error
unfolding unmarshal bytes
unmarshal_number = refl

unmarshal_truncated : unmarshal (bytes "a") (bytes "b") (bytes "{") ≡ err syntax_error
unfolding unmarshal bytes
unmarshal_truncated = refl

unmarshal_trailing : unmarshal (bytes "a") (bytes "b") (bytes "{\"a\":\"1\"} x") ≡ err syntax_error
unfolding unmarshal bytes
unmarshal_trailing = refl

marshal_escapes :
    marshal (bytes "a") (bytes "b") (bytes "<\"") (0x01 ∷ 0xFF ∷ [])
    ≡ bytes "{\"a\":\"\\u003c\\\"\",\"b\":\"\\u0001\\ufffd\"}"
unfolding marshal bytes
marshal_escapes = refl

unmarshal_null : unmarshal (bytes "a") (bytes "b") (bytes "null") ≡ ok ([], [])
unfolding unmarshal bytes
unmarshal_null = refl
