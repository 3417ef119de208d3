-- ===== src/Repository/Frame.antt =====
-- A part of the world that the clock, the generator of ids, and the repositories do not touch.
use golang_videoencoder_api.Prelude.{Bytes, ◌≡◌}
use golang_videoencoder_api.Exec.Keeps.{Keeps}
use golang_videoencoder_api.Domain.{Job, Platform}
use golang_videoencoder_api.Repository.{JobRepository, VideoRepository}

module _ {W V : Type 0} where
  pub record PlatformKeeps (platform : Platform W) (view : W → V) : Type 0 where
    pub new_uuid : (w : W) → view (platform.new_uuid w).1 ≡ view w
    pub now : (w : W) → view (platform.now w).1 ≡ view w

  pub record VideosKeep (videos : VideoRepository W) (view : W → V) : Type 0 where
    pub find : (id : Bytes) → Keeps view (videos.find id)

  pub record JobsKeep (jobs : JobRepository W) (view : W → V) : Type 0 where
    pub insert : (job : Job) → Keeps view (jobs.insert job)
    pub find : (id : Bytes) → Keeps view (jobs.find id)
    pub update : (job : Job) → Keeps view (jobs.update job)
