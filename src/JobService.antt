-- ===== src/JobService.antt =====
-- internal/job/service.go
pub mod Frame
pub mod Updates
pub mod Creation
use golang_videoencoder_api.Prelude.{Bytes, bytes, [], Option, none, some}
use golang_videoencoder_api.Result.{Error, text, message}
use golang_videoencoder_api.Exec.{Exec, raise, ◌>>=◌}
use golang_videoencoder_api.Domain.{Job, Platform, new_job}
use golang_videoencoder_api.Repository.{JobRepository, VideoRepository}

-- The constants `JobStatus…`
unfoldable pub status_pending : Bytes
status_pending = bytes "Pending"

unfoldable pub status_processing : Bytes
status_processing = bytes "Processing"

unfoldable pub status_completed : Bytes
status_completed = bytes "Completed"

unfoldable pub status_failed : Bytes
status_failed = bytes "Failed"

-- `JobService`; either repository may be nil.
pub record JobService (W : Type 0) : Type 0 where
  pub job_repository : Option (JobRepository W)
  pub video_repository : Option (VideoRepository W)

unfoldable pub new_job_service : {W : Type 0} → JobRepository W → VideoRepository W → JobService W
new_job_service jobs videos = record { job_repository = some jobs; video_repository = some videos }

abbrev repositories_not_configured : Error
repositories_not_configured = text (bytes "job service repositories are not configured")

abbrev repository_not_configured : Error
repository_not_configured = text (bytes "job repository is not configured")

module _ {W : Type 0} (service : JobService W) where
  open service use {job_repository, video_repository}

  create_pending : Platform W → JobRepository W → VideoRepository W → Bytes → Bytes → Exec W Job
  create_pending platform jobs videos video_id output_bucket_path = do
    video ← videos.find video_id
    job ← new_job platform output_bucket_path status_pending video
    jobs.insert job

  -- `CreatePendingJob`
  unfoldable pub create_pending_job : Platform W → Bytes → Bytes → Exec W Job
  unfolding create_pending
  create_pending_job platform video_id output_bucket_path = elim job_repository [
    | none ↦ raise repositories_not_configured
    | some jobs ↦ elim video_repository [
      | none ↦ raise repositories_not_configured
      | some videos ↦ create_pending platform jobs videos video_id output_bucket_path
    ]
  ]

  -- `Find`
  unfoldable pub find : Bytes → Exec W Job
  find job_id = elim job_repository [
    | none ↦ raise repository_not_configured
    | some jobs ↦ jobs.find job_id
  ]

  -- `updateStatus`
  unfoldable pub update_status : Bytes → Bytes → Bytes → Exec W Job
  update_status job_id status err_message = elim job_repository [
    | none ↦ raise repository_not_configured
    | some jobs ↦ (do
      job ← jobs.find job_id
      jobs.update (record job { status = status; error = err_message }))
  ]

  -- `MarkProcessing`
  unfoldable pub mark_processing : Bytes → Exec W Job
  unfolding update_status
  mark_processing job_id = update_status job_id status_processing []

  -- `MarkCompleted`
  unfoldable pub mark_completed : Bytes → Exec W Job
  mark_completed job_id = update_status job_id status_completed []

  -- `MarkFailed`; the error may be nil.
  unfoldable pub mark_failed : Bytes → Option Error → Exec W Job
  mark_failed job_id none = update_status job_id status_failed []
  mark_failed job_id (some e) = update_status job_id status_failed (message e)
