-- ===== src/Domain.antt =====
-- domain/job.go and domain/video.go.
use golang_videoencoder_api.Prelude.{ℕ, Bytes, List, [], Option, none, some}
use golang_videoencoder_api.Result.{Error}
use golang_videoencoder_api.Exec.{Exec, pure, raise, lift, ◌>>=◌, ◌>>◌}

-- The columns of `domain.Video`. No code reads the jobs of the video of a job, so `Job.Video` is
-- modelled by these columns alone. A time is the number of nanoseconds since the epoch.
pub record VideoColumns : Type 0 where
  pub id : Bytes
  pub resource_id : Bytes
  pub file_path : Bytes
  pub created_at : ℕ

-- `domain.Job`; `Video *Video` may be nil.
pub record Job : Type 0 where
  pub id : Bytes
  pub output_bucket_path : Bytes
  pub status : Bytes
  pub video : Option VideoColumns
  pub video_id : Bytes
  pub error : Bytes
  pub created_at : ℕ
  pub updated_at : ℕ

-- `domain.Video`
pub record Video : Type 0 where
  pub columns : VideoColumns
  pub open columns use *
  pub jobs : List Job

-- `NewVideo`
unfoldable pub new_video : Video
new_video = record {
  columns = record { id = []; resource_id = []; file_path = []; created_at = 0 };
  jobs = [];
}

-- The packages that the domain calls: satori/go.uuid (which panics where it has no randomness), the
-- clock, and govalidator, which reads the tags of the struct.
pub record Platform (W : Type 0) : Type 0 where
  pub new_uuid : W → Bytes × W
  pub now : W → ℕ × W
  pub validate_job : Job → Option Error
  pub validate_video : Video → Option Error

-- An `error` that is nil or not, as a step of a `do` block.
abbrev pub check : {W : Type 0} → Option Error → Exec W (Unit {0})
check none = pure tt
check (some e) = raise e

module _ {W : Type 0} (platform : Platform W) where
  -- `(*Job).prepare`
  unfoldable pub prepare : Job → Exec W Job
  prepare job = do
    id ← lift platform.new_uuid
    created ← lift platform.now
    updated ← lift platform.now
    pure (record job { id = id; created_at = created; updated_at = updated })

  -- `(*Job).Validate`
  unfoldable pub validate : Job → Exec W (Unit {0})
  validate job = check (platform.validate_job job)

  -- `(*Video).Validate`
  unfoldable pub video_validate : Video → Exec W (Unit {0})
  video_validate video = check (platform.validate_video video)

  -- `NewJob`
  unfoldable pub new_job : Bytes → Bytes → Video → Exec W Job
  unfolding prepare validate
  new_job output status video = do
    let fresh : Job = record {
      id = [];
      output_bucket_path = output;
      status = status;
      video = some video.columns;
      video_id = [];
      error = [];
      created_at = 0;
      updated_at = 0;
    }
    job ← prepare fresh
    validate job
    pure job
