-- ===== src/Worker/Jobs.antt =====
-- What one message leaves in the table of jobs: `processPayload` of internal/job/worker.go.
use golang_videoencoder_api.Prelude.{
  Bytes, [], is_empty, Bool, true, false, Bool-cases, Option, none, some, ◌≡◌, refl, subst, inl,
  inr,
}
use golang_videoencoder_api.Result.{Error, Result, ok, err, message}
use golang_videoencoder_api.Domain.{Job, Platform}
use golang_videoencoder_api.Machine.{Os, Storage}
use golang_videoencoder_api.Machine.Frame.{OsKeeps, StorageKeeps}
use golang_videoencoder_api.Repository.{JobRepository, VideoRepository}
use golang_videoencoder_api.Repository.Frame.{PlatformKeeps, VideosKeep}
use golang_videoencoder_api.Repository.Laws.{Rows, put, JobRepositoryLaws}
use golang_videoencoder_api.JobService.{JobService, status_completed}
use golang_videoencoder_api.JobService.Creation.{IsPending, Creates, create_pending_job-Creates}
use golang_videoencoder_api.Processor.{Processor, enabled, run}
use golang_videoencoder_api.Processor.Errors.{HasText, run-Explains}
use golang_videoencoder_api.Processor.Outcome.{IsMarked, FailureLeft, Ran, run-Ran}
use golang_videoencoder_api.Worker.{
  JobWorkerMessage, JobWorkerResult, after_run, run_enabled, process_created, process_message,
  process_payload, parse_job_worker_message,
}

-- From one table to another, by the result of the message: it was rejected; or no job was created;
-- or a job was created, and it waits, for there is no processor; or it was run, and it is completed, or failed.
pub data Worked (payload : Bytes) (has_processor : Bool) (before after : Rows)
    (result : JobWorkerResult) : Type 0 where
  rejected :
      (e : Error)
      → parse_job_worker_message payload ≡ err e
      → result.job ≡ none
      → result.error ≡ message e
      → after ≡ before
      → Worked payload has_processor before after result
  not_created :
      (m : JobWorkerMessage) (e : Error)
      → parse_job_worker_message payload ≡ ok m
      → result.job ≡ none
      → result.error ≡ message e
      → after ≡ before
      → Worked payload has_processor before after result
  queued :
      (m : JobWorkerMessage) (job : Job)
      → parse_job_worker_message payload ≡ ok m
      → has_processor ≡ false
      → result.job ≡ some job
      → result.error ≡ []
      → IsPending m.output_bucket_path job
      → after ≡ put before job
      → Worked payload has_processor before after result
  completed :
      (m : JobWorkerMessage) (job : Job)
      → parse_job_worker_message payload ≡ ok m
      → has_processor ≡ true
      → result.job ≡ some (record job { status = status_completed })
      → result.error ≡ []
      → IsPending m.output_bucket_path job
      → IsMarked (put before job) after job.id status_completed []
      → Worked payload has_processor before after result
  failed :
      (m : JobWorkerMessage) (job : Job) (e : Error)
      → parse_job_worker_message payload ≡ ok m
      → has_processor ≡ true
      → result.job ≡ some job
      → result.error ≡ message e
      → is_empty result.error ≡ false
      → IsPending m.output_bucket_path job
      → FailureLeft (put before job) after job.id e
      → Worked payload has_processor before after result

module _ {W : Type 0} (platform : Platform W) (os : Os W) (storage : Storage W)
    (service : JobService W) (jobs : JobRepository W) (videos : VideoRepository W)
    (processor : Option (Processor W)) (rows : W → Rows)
    (jobs_configured : service.job_repository ≡ some jobs)
    (videos_configured : service.video_repository ≡ some videos)
    (served : (p : Processor W) → processor ≡ some p → p.job_service ≡ some service)
    (laws : JobRepositoryLaws jobs rows) (still : PlatformKeeps platform rows)
    (disk : OsKeeps os rows) (cloud : StorageKeeps storage rows)
    (apart : VideosKeep videos rows) where
  after_run-Worked :
      (payload : Bytes) (m : JobWorkerMessage) (job : Job) (before : Rows) (w : W)
      (r : Result (Unit {0}) × W)
      → parse_job_worker_message payload ≡ ok m
      → IsPending m.output_bucket_path job
      → rows w ≡ put before job
      → HasText r.0
      → Ran rows job.id w r
      → Worked payload true before (rows r.1) (after_run payload job r.0)
  unfolding after_run
  after_run-Worked payload m job before w (ok _, v) parsed pending created has ran =
      completed m job parsed refl refl refl pending
        (subst (λ (t : Rows). IsMarked t (rows v) job.id status_completed []) created ran)
  after_run-Worked payload m job before w (err e, v) parsed pending created has ran =
      failed m job e parsed refl refl refl has pending
        (subst (λ (t : Rows). FailureLeft t (rows v) job.id e) created ran)

  run_enabled-Worked :
      (payload : Bytes) (m : JobWorkerMessage) (o : Option (Processor W)) (job : Job)
      (before : Rows) (w : W)
      → ((p : Processor W) → o ≡ some p → p.job_service ≡ some service)
      → enabled o ≡ true
      → parse_job_worker_message payload ≡ ok m
      → IsPending m.output_bucket_path job
      → rows w ≡ put before job
      → let (result, v) = run_enabled os storage payload o job w in
        Worked payload true before (rows v) result
  unfolding run_enabled enabled
  run_enabled-Worked payload m none job before w has on parsed pending created = cc
  run_enabled-Worked payload m (some p) job before w has on parsed pending created =
      after_run-Worked payload m job before w (run os storage p job w) parsed pending created
        ((run-Explains os storage p job).at w)
        (run-Ran os storage service jobs rows jobs_configured laws disk cloud p job pending.video.0
          w pending.video.1 (has p refl))

  process_created-Worked :
      (payload : Bytes) (m : JobWorkerMessage) (before : W) (r : Result Job × W)
      → parse_job_worker_message payload ≡ ok m
      → Creates rows m.output_bucket_path before r
      → let (result, v) = process_created os storage payload processor r.0 r.1 in
        Worked payload (enabled processor) (rows before) (rows v) result
  unfolding process_created
  process_created-Worked payload m before (err e, w) parsed kept =
      not_created m e parsed refl refl kept
  process_created-Worked payload m before (ok job, w) parsed (pending, created) =
      elim (Bool-cases (enabled processor)) [
        | inl on ↦ rw on (
            run_enabled-Worked payload m processor job (rows before) w served on parsed pending
              created)
        | inr off ↦ rw off (queued m job parsed refl refl refl pending created)
      ]

  process_message-Worked :
      (payload : Bytes) (m : Result JobWorkerMessage) (w : W)
      → parse_job_worker_message payload ≡ m
      → let (result, v) = process_message platform os storage service processor payload m w in
        Worked payload (enabled processor) (rows w) (rows v) result
  unfolding process_message
  process_message-Worked payload (err e) w parsed = rejected e parsed refl refl refl
  process_message-Worked payload (ok m) w parsed = process_created-Worked payload m w _ parsed (
      create_pending_job-Creates platform service jobs videos rows jobs_configured videos_configured
        laws still apart m.video_id m.output_bucket_path w)

  pub process_payload-Worked :
      (payload : Bytes) (w : W)
      → let (result, v) = process_payload platform os storage service processor payload w in
        Worked payload (enabled processor) (rows w) (rows v) result
  unfolding process_payload
  process_payload-Worked payload w =
      process_message-Worked payload (parse_job_worker_message payload) w refl
