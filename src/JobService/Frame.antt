-- ===== src/JobService/Frame.antt =====
-- The parts of the world that internal/job/service.go leaves alone.
use golang_videoencoder_api.Prelude.{Bytes, Option, none, some, ◌≡◌}
use golang_videoencoder_api.Result.{Error}
use golang_videoencoder_api.Exec.Keeps.{Keeps, keeps_rules}
use golang_videoencoder_api.Domain.{Video, Job, Platform, check, prepare, validate, new_job}
use golang_videoencoder_api.Repository.{JobRepository, VideoRepository}
use golang_videoencoder_api.Repository.Frame.{PlatformKeeps, VideosKeep, JobsKeep}
use golang_videoencoder_api.JobService.{
  JobService, create_pending_job, update_status, mark_processing, mark_completed, mark_failed,
}

module _ {W V : Type 0} (view : W → V) where
  check-Keeps : (e : Option Error) → Keeps view (check {W = W} e)
  check-Keeps none = search keeps_rules
  check-Keeps (some e) = search keeps_rules

  module _ (platform : Platform W) (still : PlatformKeeps platform view) where
    prepare-Keeps : (job : Job) → Keeps view (prepare platform job)
    unfolding prepare
    prepare-Keeps job = search (keeps_rules, still.new_uuid, still.now) depth 7

    validate-Keeps : (job : Job) → Keeps view (validate platform job)
    unfolding validate
    validate-Keeps job = check-Keeps (platform.validate_job job)

    pub new_job-Keeps :
        (output status : Bytes) (video : Video) → Keeps view (new_job platform output status video)
    unfolding new_job
    new_job-Keeps output status video = search (keeps_rules, prepare-Keeps, validate-Keeps)

module _ {W V : Type 0} (view : W → V) (service : JobService W) (jobs : JobRepository W)
    (configured : service.job_repository ≡ some jobs) (stored : JobsKeep jobs view) where
  pub update_status-Keeps :
      (id status error : Bytes) → Keeps view (update_status service id status error)
  unfolding update_status
  update_status-Keeps id status error =
      rw configured (search (keeps_rules, stored.find, stored.update))

  pub mark_processing-Keeps : (id : Bytes) → Keeps view (mark_processing service id)
  unfolding mark_processing
  mark_processing-Keeps id = update_status-Keeps id _ _

  pub mark_completed-Keeps : (id : Bytes) → Keeps view (mark_completed service id)
  unfolding mark_completed
  mark_completed-Keeps id = update_status-Keeps id _ _

  pub mark_failed-Keeps : (id : Bytes) (e : Error) → Keeps view (mark_failed service id (some e))
  unfolding mark_failed
  mark_failed-Keeps id e = update_status-Keeps id _ _

  module _ (platform : Platform W) (still : PlatformKeeps platform view)
      (videos : VideoRepository W) (videos_configured : service.video_repository ≡ some videos)
      (apart : VideosKeep videos view) where
    pub create_pending_job-Keeps :
        (video_id output : Bytes) → Keeps view (create_pending_job service platform video_id output)
    unfolding create_pending_job
    create_pending_job-Keeps video_id output =
        rw (configured, videos_configured)
          (search (keeps_rules, apart.find, stored.insert, new_job-Keeps view platform still))
