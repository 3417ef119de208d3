-- ===== src/Processor/Frame.antt =====
-- The parts of the world that the media work of internal/job/processor.go leaves alone.
use golang_videoencoder_api.Prelude.{
  ℕ, Bytes, ℤ, List, [], ◌∷◌, Option, none, some, Option-cases, inl, inr, ◌≡◌, refl, ◌∙◌,
}
use golang_videoencoder_api.Result.{Error, Result, ok, err}
use golang_videoencoder_api.Exec.Keeps.{Keeps, keeps_rules}
use golang_videoencoder_api.Domain.{VideoColumns, Job}
use golang_videoencoder_api.Machine.{Context, Os, Storage}
use golang_videoencoder_api.Machine.Frame.{OsKeeps, StorageKeeps}
use golang_videoencoder_api.Repository.{JobRepository}
use golang_videoencoder_api.Repository.Frame.{JobsKeep}
use golang_videoencoder_api.JobService.{JobService}
use golang_videoencoder_api.JobService.Frame.{
  mark_processing-Keeps, mark_completed-Keeps, mark_failed-Keeps,
}
use golang_videoencoder_api.VideoService
use golang_videoencoder_api.VideoService.{VideoService}
use golang_videoencoder_api.Upload.{
  VideoUpload, close_copy, copy_file, upload_object, upload_with, with_client, upload_found,
  upload_paths, load_paths, process_upload,
}
use golang_videoencoder_api.Processor.{
  Processor, upload_outputs, media_work, with_video_service, process, record_outcome, run_loaded,
  run_checked, run,
}
use golang_videoencoder_api.UploadPool.Frame.{run_pool-keeps}

module _ {W V : Type 0} (os : Os W) (storage : Storage W) (view : W → V) (disk : OsKeeps os view)
    (cloud : StorageKeeps storage view) where
  fragment-Keeps : (ctx : Context) (v : VideoService) → Keeps view (VideoService.fragment os ctx v)
  unfolding VideoService.fragment
  fragment-Keeps ctx v = search (keeps_rules, disk.mkdir, disk.command)

  encode-Keeps : (ctx : Context) (v : VideoService) → Keeps view (VideoService.encode os ctx v)
  unfolding VideoService.encode
  encode-Keeps ctx v = search (keeps_rules, disk.command)

  close-Keeps : (v : VideoService) → Keeps view (VideoService.close storage v)
  unfolding VideoService.close
  close-Keeps v = elim (Option-cases v.storage_client) [
    | inl e ↦ rw e (search keeps_rules)
    | inr (client, e) ↦ rw e (cloud.close_client client)
  ]

  download-Keeps :
      (ctx : Context) (v : VideoService) (bucket : Bytes)
      → Keeps view (VideoService.download os storage ctx v bucket)
  unfolding VideoService.download
  download-Keeps ctx v bucket = elim (Option-cases v.storage_client) [
    | inl e ↦ rw e (search keeps_rules)
    | inr (client, e) ↦ rw e (
        search
          (
            keeps_rules, disk.create, disk.close_file, cloud.new_reader, cloud.close_reader,
            cloud.read_from,
          )
          depth 8)
  ]

  remove_targets-keeps :
      (targets : List Bytes) (w : W) → view (VideoService.remove_targets os targets w).1 ≡ view w
  unfolding VideoService.remove_targets
  remove_targets-keeps [] w = refl
  remove_targets-keeps (target ∷ rest) w =
      remove_targets-keeps rest _ ∙ (disk.remove_all target).at w

  finish-Keeps : (v : VideoService) → Keeps view (VideoService.finish os v)
  unfolding VideoService.finish
  finish-Keeps v = record { at = λ w. remove_targets-keeps (VideoService.finish_targets os v) w }

  close_copy-keeps :
      (writer : ℕ) (r : Result ℕ) (w : W) → view (close_copy os storage writer r w).1 ≡ view w
  unfolding close_copy
  close_copy-keeps writer (ok _) w = (cloud.close_writer writer).at w
  close_copy-keeps writer (err e) w = (cloud.close_writer writer).at w

  copy_file-Keeps : (writer file : ℕ) → Keeps view (copy_file os storage writer file)
  unfolding copy_file
  copy_file-Keeps writer file = record {
    at = λ w. close_copy-keeps writer _ _ ∙ (cloud.copy writer file).at w;
  }

  upload_object-Keeps :
      (ctx : Context) (vu : VideoUpload) (path : Bytes) (client : ℕ)
      → Keeps view (upload_object os storage ctx vu path client)
  unfolding upload_object
  upload_object-Keeps ctx vu path client =
      search (keeps_rules, disk.open_file, disk.close_file, cloud.new_writer, copy_file-Keeps) depth
        7

  upload_with-keeps :
      (ctx : Context) (concurrency : ℤ) (vu : VideoUpload) (client : ℕ) (w : W)
      → view (upload_with os storage ctx concurrency vu client w).1 ≡ view w
  unfolding upload_with
  upload_with-keeps ctx concurrency vu client w =
      (cloud.close_client client).at _
      ∙ run_pool-keeps view _ (λ path. upload_object-Keeps ctx vu path client) _ _ _ _
      ∙ disk.schedule w

  with_client-keeps :
      (ctx : Context) (concurrency : ℤ) (vu : VideoUpload) (r : Result ℕ) (w : W)
      → view (with_client os storage ctx concurrency vu r w).1 ≡ view w
  unfolding with_client
  with_client-keeps ctx concurrency vu (ok client) w = upload_with-keeps ctx concurrency vu client w
  with_client-keeps ctx concurrency vu (err e) w = refl

  upload_found-keeps :
      (ctx : Context) (concurrency : ℤ) (vu : VideoUpload) (paths : List Bytes) (w : W)
      → view (upload_found os storage ctx concurrency vu paths w).1 ≡ view w
  unfolding upload_found
  upload_found-keeps ctx concurrency vu [] w = refl
  upload_found-keeps ctx concurrency vu (_ ∷ _) w =
      with_client-keeps ctx concurrency vu _ _ ∙ cloud.new_client.at w

  upload_paths-keeps :
      (ctx : Context) (concurrency : ℤ) (e : Option Error) (vu : VideoUpload) (w : W)
      → view (upload_paths os storage ctx concurrency e vu w).1 ≡ view w
  unfolding upload_paths
  upload_paths-keeps ctx concurrency (some e) vu w = refl
  upload_paths-keeps ctx concurrency none vu w = upload_found-keeps ctx concurrency vu vu.paths w

  process_upload-keeps :
      (ctx : Context) (concurrency : ℤ) (vu : VideoUpload) (w : W)
      → view (process_upload os storage ctx concurrency vu w).1 ≡ view w
  unfolding process_upload
  process_upload-keeps ctx concurrency vu w =
      let loaded = load_paths os (record vu { paths = []; errors = [] }) w in
      upload_paths-keeps ctx concurrency loaded.0.0 loaded.0.1 loaded.1 ∙ disk.walk vu.video_path w

  upload_outputs-Keeps :
      (ctx : Context) (p : Processor W) (job : Job) (video : VideoColumns)
      → Keeps view (upload_outputs os storage ctx p job video)
  unfolding upload_outputs
  upload_outputs-Keeps ctx p job video = record { at = λ w. process_upload-keeps ctx _ _ w }

  new_video_service-Keeps :
      (video : VideoColumns) → Keeps view (VideoService.new_video_service storage video)
  unfolding VideoService.new_video_service
  new_video_service-Keeps video = search (keeps_rules, cloud.new_client)

  media_work-Keeps :
      (ctx : Context) (p : Processor W) (job : Job) (video : VideoColumns) (v : VideoService)
      → Keeps view (media_work os storage ctx p job video v)
  unfolding media_work
  media_work-Keeps ctx p job video v =
      search
        (
          keeps_rules, download-Keeps, fragment-Keeps, encode-Keeps, upload_outputs-Keeps,
          finish-Keeps,
        )
        depth 9

  -- Everything that `process` does behind `MarkProcessing` leaves the view as it was.
  pub with_video_service-Keeps :
      (p : Processor W) (job : Job) (video : VideoColumns)
      → Keeps view (with_video_service os storage p job video)
  unfolding with_video_service
  with_video_service-Keeps p job video =
      search (keeps_rules, new_video_service-Keeps, media_work-Keeps, close-Keeps)

  module _ (service : JobService W) (jobs : JobRepository W)
      (configured : service.job_repository ≡ some jobs) (stored : JobsKeep jobs view) where
    record_outcome-keeps :
        (id : Bytes) (r : Result (Unit {0})) (w : W)
        → view (record_outcome service id r w).1 ≡ view w
    unfolding record_outcome
    record_outcome-keeps id (ok _) w = completing.at w
      where
        completing : Keeps view (record_outcome service id (ok tt))
        completing = search (keeps_rules, mark_completed-Keeps view service jobs configured stored)
    record_outcome-keeps id (err e) w =
        (mark_failed-Keeps view service jobs configured stored id e).at w

    process-Keeps :
        (p : Processor W) (job : Job) (video : VideoColumns)
        → Keeps view (process os storage service p job video)
    unfolding process
    process-Keeps p job video = search (
      keeps_rules,
      mark_processing-Keeps view service jobs configured stored,
      with_video_service-Keeps,
    )

    run_loaded-Keeps :
        (p : Processor W) (job : Job) (video : VideoColumns)
        → Keeps view (run_loaded os storage service p job video)
    unfolding run_loaded
    run_loaded-Keeps p job video = record {
      at = λ w.
          record_outcome-keeps job.id (process os storage service p job video w).0 _
          ∙ (process-Keeps p job video).at w;
    }

    run_checked-Keeps :
        (loaded : Option VideoColumns) (served : Option (JobService W)) (p : Processor W)
        (job : Job)
        → served ≡ some service
        → Keeps view (run_checked os storage loaded served p job)
    unfolding run_checked
    run_checked-Keeps none served p job has_service = search keeps_rules
    run_checked-Keeps (some video) served p job has_service =
        rw has_service (run_loaded-Keeps p job video)

    -- A whole run touches nothing but what the service's repository, the disk and the storage do.
    pub run-Keeps :
        (p : Processor W) (job : Job)
        → p.job_service ≡ some service
        → Keeps view (run os storage p job)
    unfolding run
    run-Keeps p job has_service = run_checked-Keeps job.video p.job_service p job has_service
