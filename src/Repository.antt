-- ===== src/Repository.antt =====
-- internal/repositories: the interfaces of the repositories and their implementation over GORM.
pub mod Answers
pub mod Frame
pub mod Laws
use golang_videoencoder_api.Prelude.{Bytes, bytes, Bool, is_empty, if◌then◌else◌}
use golang_videoencoder_api.Result.{
  Error, Result, ok, err, sentinel, wrap, record_not_found, job_not_found, video_not_found,
  errors_is,
}
use golang_videoencoder_api.Exec.{Exec, pure, lift, rescue, ◌>>=◌}
use golang_videoencoder_api.Domain.{Job, Video, Platform}

-- The calls of gorm.DB that the repositories make; each returns the record as GORM leaves it
-- (`Create` and `Save` write the keys and times that it sets back into the struct).
pub record Gorm (W : Type 0) : Type 0 where
  pub create_job : Job → Exec W Job
  pub first_job : Bytes → Exec W Job
  pub save_job : Job → Exec W Job
  pub create_video : Video → Exec W Video
  pub first_video : Bytes → Exec W Video

-- The interface `JobRepository`
pub record JobRepository (W : Type 0) : Type 0 where
  pub insert : Job → Exec W Job
  pub find : Bytes → Exec W Job
  pub update : Job → Exec W Job

-- The interface `VideoRepository`
pub record VideoRepository (W : Type 0) : Type 0 where
  pub insert : Video → Exec W Video
  pub find : Bytes → Exec W Video

-- What the `Find` methods make of an error of `First`.
unfoldable pub job_find_error : Error → Error
job_find_error e =
    if errors_is e record_not_found then sentinel job_not_found else wrap (bytes "find job: ") e

unfoldable pub video_find_error : Error → Error
video_find_error e =
    if errors_is e record_not_found then sentinel video_not_found else wrap (bytes "find video: ") e

module _ {W : Type 0} (db : Gorm W) where
  -- `JobRepositoryDb`: `Insert`, `Find` and `Update`
  unfoldable pub job_insert : Job → Exec W Job
  job_insert job = do created ← db.create_job job; pure created

  unfoldable pub job_find : Bytes → Exec W Job
  job_find id = rescue job_find_error (db.first_job id)

  unfoldable pub job_update : Job → Exec W Job
  job_update job = do saved ← db.save_job job; pure saved

  unfoldable pub job_repository_db : JobRepository W
  job_repository_db = record { insert = job_insert; find = job_find; update = job_update }

  -- `VideoRepositoryDb`: `Find`
  unfoldable pub video_find : Bytes → Exec W Video
  video_find id = rescue video_find_error (db.first_video id)

module _ {W : Type 0} (platform : Platform W) (db : Gorm W) where
  -- A video that has no id gets one.
  unfoldable pub with_id : Video → Exec W Video
  with_id video =
      if is_empty video.id
      then (do
        id ← lift platform.new_uuid
        pure (record video { columns = record video.columns { id = id } }))
      else pure video

  -- `VideoRepositoryDb`: `Insert`
  unfoldable pub video_insert : Video → Exec W Video
  unfolding with_id
  video_insert video = do prepared ← with_id video; created ← db.create_video prepared; pure created

  unfoldable pub video_repository_db : VideoRepository W
  video_repository_db = record { insert = video_insert; find = video_find db }
