-- ===== src/Api.antt =====
-- internal/api/server.go: the server, its responses, and its routes.
pub mod Body
pub mod Handlers
pub mod Routes
pub mod Blame
pub mod JobRequests
pub mod Texts
pub mod Columns
pub mod Lookups
pub mod VideoRequests
pub mod Statuses
use golang_videoencoder_api.Prelude.{ℕ, Bytes, bytes, List, [], ◌∷◌, map, Option}
use golang_videoencoder_api.Result.{Error}
use golang_videoencoder_api.Exec.{Exec}
use golang_videoencoder_api.Domain.{Job, Video}
use golang_videoencoder_api.Repository.{VideoRepository}
use golang_videoencoder_api.JobService.{JobService}
use golang_videoencoder_api.Worker.{JobWorkerMessage}

-- `Publisher`, for the one type of payload that the server gives it.
pub record Publisher (W : Type 0) : Type 0 where
  pub publish_json : JobWorkerMessage → Exec W (Unit {0})

-- `Server`; a nil `ready` means always ready.
pub record Server (W : Type 0) : Type 0 where
  pub videos : VideoRepository W
  pub jobs : JobService W
  pub publisher : Publisher W
  pub ready : Option (Exec W (Unit {0}))

-- `NewServer`
unfoldable pub new_server :
    {W : Type 0}
    → VideoRepository W
    → JobService W
    → Publisher W
    → Option (Exec W (Unit {0}))
    → Server W
new_server videos jobs publisher ready = record {
  videos = videos;
  jobs = jobs;
  publisher = publisher;
  ready = ready;
}

-- `JobResponse`
pub record JobResponse : Type 0 where
  pub id : Bytes
  pub video_id : Bytes
  pub status : Bytes
  pub output_bucket_path : Bytes
  pub error : Bytes
  pub created_at : ℕ
  pub updated_at : ℕ

-- `VideoResponse`
pub record VideoResponse : Type 0 where
  pub id : Bytes
  pub resource_id : Bytes
  pub file_path : Bytes
  pub created_at : ℕ
  pub jobs : List JobResponse

-- What a handler gives to `writeJSON`: `HealthResponse`, `ErrorResponse`, `EnqueueResponse`, and the
-- two records above.
pub data Payload : Type 0 where
  health : (status : Bytes) → Payload
  failure : (error : Bytes) → Payload
  enqueued : (video_id output_bucket_path status : Bytes) → Payload
  video_found : VideoResponse → Payload
  job_found : JobResponse → Payload

-- The status code and the payload of `writeJSON`.
pub record Response : Type 0 where
  pub code : ℕ
  pub payload : Payload

-- `toJobResponse`
unfoldable pub to_job_response : Job → JobResponse
to_job_response j = record {
  id = j.id;
  video_id = j.video_id;
  status = j.status;
  output_bucket_path = j.output_bucket_path;
  error = j.error;
  created_at = j.created_at;
  updated_at = j.updated_at;
}

-- `toVideoResponse`
unfoldable pub to_video_response : Video → VideoResponse
unfolding to_job_response
to_video_response v = record {
  id = v.id;
  resource_id = v.resource_id;
  file_path = v.file_path;
  created_at = v.created_at;
  jobs = map to_job_response v.jobs;
}

-- `writeError`
abbrev pub write_error : ℕ → Bytes → Response
write_error code msg = record { code = code; payload = failure msg }

-- `writeInternalError`; the error is only logged.
abbrev pub write_internal_error : Error → Response
write_internal_error e = write_error 500 (bytes "internal server error")
