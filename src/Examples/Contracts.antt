-- ===== src/Examples/Contracts.antt =====
-- Messages from the publisher to the worker.
use golang_videoencoder_api.Prelude.{
  bytes, [], ◌∷◌, is_empty, false, none, some, bytes_eq, ◌≡◌, refl,
}
use golang_videoencoder_api.Result.{ok}
use golang_videoencoder_api.Json.Runes.{one, two, three, IsUtf8, end, rune}
use golang_videoencoder_api.Machine.{background}
use golang_videoencoder_api.Queue.Publishing.{publish, publish_json}
use golang_videoencoder_api.Worker.{
  JobWorkerMessage, video_id_name, output_bucket_path_name, parse_job_worker_message,
}
use golang_videoencoder_api.Worker.Contract.{marshalled, parse_job_worker_message-publish_json}
use golang_videoencoder_api.Repository.{VideoRepository}
use golang_videoencoder_api.Queue.{Client, ready_locked, reconnect_locked}
use golang_videoencoder_api.Queue.Publishing.{attempt, publish_once}
use golang_videoencoder_api.Api.{Server, Response, new_server}
use golang_videoencoder_api.Api.Handlers.{handle_create_job}
use golang_videoencoder_api.Main.Delivery.{
  queued_answer, client_publisher, Delivered, handle_create_job-Delivered,
}
use golang_videoencoder_api.Examples.Apis
use golang_videoencoder_api.Examples.Apis.{is_v1}
use golang_videoencoder_api.Examples.JobServices.{served}
use golang_videoencoder_api.Examples.Frames.{
  os-OsKeeps, storage-StorageKeeps, videos-VideosKeep, platform-rows,
}
use golang_videoencoder_api.Examples.World.{
  rows, platform, jobs, jobs-JobRepositoryLaws, videos, service, os, storage, processor, start,
  sample_video,
}
use golang_videoencoder_api.Examples.Queues.{Rabbit, amqp, client, broker}

abbrev wanted : JobWorkerMessage
wanted = record {
  video_id = bytes "v1";
  output_bucket_path = 0xC3 ∷ 0xA9 ∷ b'"' ∷ 0xE2 ∷ 0x80 ∷ 0xA8 ∷ [];
}

id_given : is_empty wanted.video_id ≡ false
unfolding bytes
id_given = refl

path_given : is_empty wanted.output_bucket_path ≡ false
unfolding bytes
path_given = refl

wanted_id-IsUtf8 : IsUtf8 wanted.video_id
unfolding bytes
wanted_id-IsUtf8 = rune (one b'v' refl) (rune (one b'1' refl) end)

wanted_path-IsUtf8 : IsUtf8 wanted.output_bucket_path
unfolding bytes
wanted_path-IsUtf8 =
    rune (two 0xC3 0xA9 refl) (rune (one b'"' refl) (rune (three 0xE2 0x80 0xA8 refl refl) end))

parse_job_worker_message-publish_json_example :
    (publish_json amqp background video_id_name output_bucket_path_name
        (bytes "v1")
        wanted.output_bucket_path
        (client, broker)
      ≡ publish amqp background (marshalled wanted) (client, broker))
    × (parse_job_worker_message (marshalled wanted) ≡ ok wanted)
parse_job_worker_message-publish_json_example =
    parse_job_worker_message-publish_json amqp background (client, broker) wanted id_given
      path_given wanted_id-IsUtf8 wanted_path-IsUtf8

abbrev api_videos : VideoRepository (Client × Rabbit)
api_videos = record { insert = λ v s. (ok v, s); find = λ _ s. (ok sample_video, s) }

abbrev server : Server (Client × Rabbit)
server =
    new_server api_videos (record { job_repository = none; video_repository = some api_videos })
      (client_publisher amqp background) none

abbrev asked : JobWorkerMessage
asked = record { video_id = bytes "v1"; output_bucket_path = bytes "out/" }

abbrev answer : Response × (Client × Rabbit)
answer = handle_create_job server is_v1 Apis.wanted (client, broker)

answered : answer ≡ (queued_answer asked, answer.1)
unfolding handle_create_job new_server client_publisher publish publish_json ready_locked attempt
    publish_once reconnect_locked bytes bytes_eq
answered = refl

handle_create_job-Delivered_example :
    Delivered amqp background platform os storage service (some processor) rows asked answer.1 start
handle_create_job-Delivered_example =
    handle_create_job-Delivered amqp background is_v1 platform os storage service jobs videos
      (some processor) rows refl refl served jobs-JobRepositoryLaws platform-rows (os-OsKeeps rows)
      (storage-StorageKeeps rows) (videos-VideosKeep rows) api_videos
      (record { job_repository = none; video_repository = some api_videos }) none Apis.wanted
      (client, broker) asked answer.1 start answered
