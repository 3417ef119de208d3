-- ===== src/Main/Tracking.antt =====
-- A job that a worker of internal/job made, asked for through the route `GET /jobs/{id}` of
-- internal/api.
use golang_videoencoder_api.Prelude.{Bytes, bytes, [], Bool, if◌then◌else◌, Option, none, some, ◌≡◌}
use golang_videoencoder_api.Domain.{Job}
use golang_videoencoder_api.JobService.{status_pending, status_completed}
use golang_videoencoder_api.Processor.{Processor}
use golang_videoencoder_api.Api.{JobResponse, Response, job_found, failure}

-- The status of a job that a worker finished without an error.
abbrev pub final_status : Bool → Bytes
final_status processing = if processing then status_completed else status_pending

-- The answer shows a job with this status and no error text, or the database failed.
pub data Shows (status : Bytes) : Response → Type 0 where
  shows :
      {r : JobResponse}
      → r.status ≡ status
      → r.error ≡ []
      → Shows status (record { code = 200; payload = job_found r })
  unknown : Shows status (record { code = 500; payload = failure (bytes "internal server error") })

abbrev id_of : Option Job → Bytes
id_of none = []
id_of (some job) = job.id

abbrev status_of : Option Job → Bytes
status_of none = []
status_of (some job) = job.status

abbrev error_of : Option Job → Bytes
error_of none = []
error_of (some job) = job.error
