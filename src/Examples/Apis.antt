-- ===== src/Examples/Apis.antt =====
-- Requests in the small world.
use golang_videoencoder_api.Prelude.{Bytes, bytes, bytes_eq, Bool, true, ◌++◌, some, ◌≡◌, refl}
use golang_videoencoder_api.Result.{err, ok, text}
use golang_videoencoder_api.Api.{Server, failure}
use golang_videoencoder_api.Api.Handlers.{handle_create_job, handle_create_video}
use golang_videoencoder_api.Api.JobRequests.{JobRequested, handle_create_job-JobRequested}
use golang_videoencoder_api.Api.VideoRequests.{VideoRequested, handle_create_video-VideoRequested}
use golang_videoencoder_api.Api.Routes.{post_jobs, serve, documented, undocumented}
use golang_videoencoder_api.Api.Statuses.{is_proper, serve_proper}
use golang_videoencoder_api.Examples.World.{World, videos, service, start}

abbrev server : Server World
server = record {
  videos = videos;
  jobs = service;
  publisher = record { publish_json = λ m w. (ok tt, w) };
  ready = some (λ w. (err (text (bytes "no broker")), w));
}

abbrev pub is_v1 : Bytes → Bool
is_v1 id = bytes_eq id (bytes "v1")

abbrev pub wanted : Bytes
wanted = bytes "{\"video_id\":\" v1\",\"output_bucket_path\":\"out/\"}"

queued : (handle_create_job server is_v1 wanted start).0.code ≡ 202
unfolding handle_create_job bytes bytes_eq
queued = refl

unknown_id :
    (handle_create_job server is_v1
      (bytes "{\"video_id\":\"v2\",\"output_bucket_path\":\"out/\"}")
      start).0.payload
    ≡ failure (bytes "video_id must be a UUID")
unfolding handle_create_job bytes bytes_eq
unknown_id = refl

handle_create_job-JobRequested_example :
    JobRequested server is_v1 wanted start (handle_create_job server is_v1 wanted start)
handle_create_job-JobRequested_example = handle_create_job-JobRequested server is_v1 wanted start

abbrev registered : Bytes
registered = bytes "{\"resource_id\":\"campaign\",\"file_path\":\"invite.mp4\"}"

handle_create_video-VideoRequested_example :
    VideoRequested server registered start (handle_create_video server registered start)
handle_create_video-VideoRequested_example =
    handle_create_video-VideoRequested server registered start

serve_proper_example :
    is_proper
      (documented (post_jobs wanted) ++ undocumented (post_jobs wanted))
      (serve server is_v1 (post_jobs wanted) start).0
    ≡ true
serve_proper_example = serve_proper server is_v1 (post_jobs wanted) start
