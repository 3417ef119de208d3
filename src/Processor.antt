-- ===== src/Processor.antt =====
-- internal/job/processor.go; the reading of its settings is in Settings.
pub mod Frame
pub mod Outcome
pub mod Errors
pub mod Stages
pub mod Leftovers
pub mod Settings
use golang_videoencoder_api.Prelude.{
  ℕ, ◌*◌, ◌^◌, ℤ, pos, is_positive, pos_part, Bytes, bytes, is_empty, if◌then◌else◌, ◌++◌, Bool,
  false, not, ◌&&◌, Option, none, some,
}
use golang_videoencoder_api.Result.{Error, Result, ok, err, text, wrap, message}
use golang_videoencoder_api.Exec.{Exec, pure, raise, rescue, finally, best_effort, ◌>>=◌, ◌>>◌}
use golang_videoencoder_api.Domain.{VideoColumns, Job}
use golang_videoencoder_api.Machine.{Context, with_timeout, Os, Storage}
use golang_videoencoder_api.JobService.{JobService, mark_processing, mark_completed, mark_failed}
use golang_videoencoder_api.VideoService.{
  VideoService, nil_dereference, base_path, new_video_service, close, download, fragment, encode,
  finish,
}
use golang_videoencoder_api.Upload.{VideoUpload, new_video_upload, process_upload}

abbrev pub default_upload_concurrency : ℤ
default_upload_concurrency = pos 4

-- Thirty minutes, in nanoseconds.
abbrev pub default_process_timeout : ℕ
default_process_timeout = 30 * 60 * 10 ^ 9

-- `Processor`; the service is a pointer.
pub record Processor (W : Type 0) : Type 0 where
  pub job_service : Option (JobService W)
  pub source_bucket : Bytes
  pub output_bucket : Bytes
  pub upload_concurrency : ℤ
  pub timeout : ℤ

abbrev is_some {ℓ} : {A : Type ℓ} → Option A → Bool
is_some none = false
is_some (some _) = Bool.true

-- `Enabled`; the receiver may be nil.
unfoldable pub enabled : {W : Type 0} → Option (Processor W) → Bool
enabled none = false
enabled (some p) =
    is_some p.job_service && (not (is_empty p.source_bucket) && not (is_empty p.output_bucket))

abbrev pub mark_failed_error : Error → Error → Error
mark_failed_error e marking = text (
    bytes "processing failed: "
    ++ (message e
        ++ (bytes " (also could not mark job failed: " ++ (message marking ++ bytes ")"))))

abbrev pub completion_error : Error → Error
completion_error = wrap (bytes "processing succeeded but could not mark completed: ")

unfoldable pub failed_result : Error → Result Job → Result (Unit {0})
failed_result e (ok _) = err e
failed_result e (err marking) = err (mark_failed_error e marking)

module _ {W : Type 0} where
  unfoldable pub record_failed : JobService W → Bytes → Error → Exec W (Unit {0})
  record_failed service id e w =
      let (marked, w') = mark_failed service id (some e) w in (failed_result e marked, w')

  unfoldable pub record_completed : JobService W → Bytes → Exec W (Unit {0})
  record_completed service id = do rescue completion_error (mark_completed service id); pure tt

  -- The end of `Run`: the terminal status is recorded.
  unfoldable pub record_outcome : JobService W → Bytes → Result (Unit {0}) → Exec W (Unit {0})
  unfolding record_failed record_completed
  record_outcome service id (err e) = record_failed service id e
  record_outcome service id (ok _) = record_completed service id

module _ {W : Type 0} (os : Os W) (storage : Storage W) where
  -- What `uploadOutputs` sets of the upload.
  unfoldable pub output_upload : Processor W → Job → VideoColumns → VideoUpload
  output_upload p job video = record new_video_upload {
    output_bucket = p.output_bucket;
    output_prefix = job.output_bucket_path;
    video_path = base_path os ++ (bytes "/" ++ video.id);
  }

  -- `uploadOutputs`
  unfoldable pub upload_outputs : Context → Processor W → Job → VideoColumns → Exec W (Unit {0})
  unfolding output_upload
  upload_outputs ctx p job video w =
      let concurrency =
        if is_positive p.upload_concurrency
        then p.upload_concurrency
        else default_upload_concurrency in
      let ((r, _), w') = process_upload os storage ctx concurrency (output_upload p job video) w in
      (r, w')

  -- The media work of `process`, in its order; a failed cleanup is only logged.
  unfoldable pub media_work :
      Context → Processor W → Job → VideoColumns → VideoService → Exec W (Unit {0})
  media_work ctx p job video v = do
    rescue (wrap (bytes "download: ")) (download os storage ctx v p.source_bucket)
    rescue (wrap (bytes "fragment: ")) (fragment os ctx v)
    rescue (wrap (bytes "encode: ")) (encode os ctx v)
    rescue (wrap (bytes "upload: ")) (upload_outputs ctx p job video)
    best_effort (finish os v)

  abbrev process_context : Processor W → Context
  process_context p =
      with_timeout (if is_positive p.timeout then pos_part p.timeout else default_process_timeout)

  -- The part of `process` behind `MarkProcessing`.
  unfoldable pub with_video_service : Processor W → Job → VideoColumns → Exec W (Unit {0})
  with_video_service p job video = do
    v ← rescue (wrap (bytes "video service init: ")) (new_video_service storage video)
    finally (media_work (process_context p) p job video v) (close storage v)

  -- `process`, for a processor that has a service
  unfoldable pub process : JobService W → Processor W → Job → VideoColumns → Exec W (Unit {0})
  process service p job video = do
    rescue (wrap (bytes "mark processing: ")) (mark_processing service job.id)
    with_video_service p job video

  unfoldable pub run_loaded : JobService W → Processor W → Job → VideoColumns → Exec W (Unit {0})
  run_loaded service p job video w =
      let (r, w') = process service p job video w in record_outcome service job.id r w'

  abbrev no_loaded_video : Error
  no_loaded_video = text (bytes "processor requires a job with a loaded video")

  -- The checks of `Run`; a processor with no service panics at its first use of it.
  unfoldable pub run_checked :
      Option VideoColumns → Option (JobService W) → Processor W → Job → Exec W (Unit {0})
  run_checked none served p job = raise no_loaded_video
  run_checked (some video) none p job = raise nil_dereference
  run_checked (some video) (some service) p job = run_loaded service p job video

  -- `Run`
  unfoldable pub run : Processor W → Job → Exec W (Unit {0})
  unfolding run_checked
  run p job = run_checked job.video p.job_service p job
