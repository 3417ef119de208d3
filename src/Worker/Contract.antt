-- ===== src/Worker/Contract.antt =====
-- The format of the messages between `PublishJSON` of internal/queue/queue.go and
-- `parseJobWorkerMessage` of internal/job/worker.go.
use golang_videoencoder_api.Prelude.{Bytes, bytes, is_empty, true, false, ◌≡◌, refl, ap, ◌∙◌}
use golang_videoencoder_api.Result.{ok}
use golang_videoencoder_api.Json.Runes.{IsAscii, IsAscii-IsUtf8, IsUtf8}
use golang_videoencoder_api.Json.Structs.{marshal, names}
use golang_videoencoder_api.Json.StructTrip.{unmarshal-marshal}
use golang_videoencoder_api.Machine.{Context}
use golang_videoencoder_api.Queue.{Amqp, Client}
use golang_videoencoder_api.Queue.Publishing.{publish, publish_json}
use golang_videoencoder_api.Worker.{
  JobWorkerMessage, video_id_name, output_bucket_path_name, validate_message,
  parse_job_worker_message,
}

-- `json.Marshal` of a message.
abbrev pub marshalled : JobWorkerMessage → Bytes
marshalled m = marshal video_id_name output_bucket_path_name m.video_id m.output_bucket_path

video_id_name-IsAscii : IsAscii video_id_name
unfolding bytes
video_id_name-IsAscii = (refl, (refl, (refl, (refl, (refl, (refl, (refl, (refl, tt))))))))

output_bucket_path_name-IsAscii : IsAscii output_bucket_path_name
unfolding bytes
output_bucket_path_name-IsAscii = (
  refl,
  (
    refl,
    (
      refl,
      (
        refl,
        (
          refl,
          (
            refl,
            (
              refl,
              (
                refl,
                (refl, (refl, (refl, (refl, (refl, (refl, (refl, (refl, (refl, (refl, tt)))))))))),
              ),
            ),
          ),
        ),
      ),
    ),
  ),
)

names_differ :
    (names video_id_name video_id_name ≡ true)
    × (names output_bucket_path_name output_bucket_path_name ≡ true)
    × (names video_id_name output_bucket_path_name ≡ false)
unfolding names bytes
names_differ = (refl, refl, refl)

validated :
    (id path : Bytes)
    → is_empty id ≡ false
    → is_empty path ≡ false
    → validate_message (ok (id, path)) ≡ ok (record { video_id = id; output_bucket_path = path })
unfolding validate_message
validated id path given1 given2 = rw (given1, given2) refl

pub parsed :
    (m : JobWorkerMessage)
    → is_empty m.video_id ≡ false
    → is_empty m.output_bucket_path ≡ false
    → IsUtf8 m.video_id
    → IsUtf8 m.output_bucket_path
    → parse_job_worker_message (marshalled m) ≡ ok m
unfolding parse_job_worker_message
parsed m given1 given2 valid1 valid2 =
    ap validate_message (
      unmarshal-marshal video_id_name output_bucket_path_name m.video_id m.output_bucket_path
        (IsAscii-IsUtf8 video_id_name video_id_name-IsAscii)
        (IsAscii-IsUtf8 output_bucket_path_name output_bucket_path_name-IsAscii) names_differ.0
        names_differ.1 names_differ.2 valid1 valid2)
    ∙ validated m.video_id m.output_bucket_path given1 given2

-- A message with an id and a path that are given and valid UTF-8: what `PublishJSON` publishes of it is a
-- body that the worker parses and accepts as the same message.
pub parse_job_worker_message-publish_json :
    {W : Type 0} (amqp : Amqp W) (ctx : Context) (s : Client × W) (m : JobWorkerMessage)
    → is_empty m.video_id ≡ false
    → is_empty m.output_bucket_path ≡ false
    → IsUtf8 m.video_id
    → IsUtf8 m.output_bucket_path
    → (publish_json amqp ctx video_id_name output_bucket_path_name m.video_id m.output_bucket_path s
        ≡ publish amqp ctx (marshalled m) s)
      × (parse_job_worker_message (marshalled m) ≡ ok m)
unfolding publish_json
parse_job_worker_message-publish_json amqp ctx s m given1 given2 valid1 valid2 =
    (refl, parsed m given1 given2 valid1 valid2)
