-- ===== src/Repository/Laws.antt =====
-- What the services rely on of a job repository of internal/repositories, and what GORM documents. A
-- database may fail at any call.
use golang_videoencoder_api.Prelude.{Bytes, bytes_eq, ◌≡◌, Option, some, arith, if◌then◌else◌}
use golang_videoencoder_api.Result.{Result, ok, err}
use golang_videoencoder_api.Domain.{Job}
use golang_videoencoder_api.Repository.{
  Gorm, JobRepository, job_insert, job_find, job_update, job_repository_db,
}

-- The rows of the table of jobs, by their key.
abbrev pub Rows : Type 0
Rows = Bytes → Option Job

abbrev pub put : Rows → Job → Rows
put rows job k = if bytes_eq job.id k then some job else rows k

-- The columns that a write leaves as they were given; it may set the keys and times.
pub record IsSavedAs (job saved : Job) : Type 0 where
  pub id : saved.id ≡ job.id
  pub status : saved.status ≡ job.status
  pub error : saved.error ≡ job.error
  pub output_bucket_path : saved.output_bucket_path ≡ job.output_bucket_path
  pub video : saved.video ≡ job.video

module _ {W : Type 0} (rows : W → Rows) where
  -- A read gives the row of that key and changes none.
  abbrev pub Reads : Bytes → W → Result Job × W → Type 0
  Reads id w (ok job, w') = (rows w id ≡ some job) × (job.id ≡ id) × (rows w' ≡ rows w)
  Reads id w (err e, w') = rows w' ≡ rows w

  -- A write puts the row at its key, or fails and changes none.
  abbrev pub Writes : Job → W → Result Job × W → Type 0
  Writes job w (ok saved, w') = IsSavedAs job saved × (rows w' ≡ put (rows w) saved)
  Writes job w (err e, w') = rows w' ≡ rows w

module _ {W : Type 0} where
  -- The documented behaviour of `Create`, `First` and `Save` on the table of jobs.
  pub record GormLaws (db : Gorm W) (rows : W → Rows) : Type 0 where
    pub create : (job : Job) (w : W) → Writes rows job w (db.create_job job w)
    pub first : (id : Bytes) (w : W) → Reads rows id w (db.first_job id w)
    pub save : (job : Job) (w : W) → Writes rows job w (db.save_job job w)

  -- The contract of the interface `JobRepository`.
  pub record JobRepositoryLaws (jobs : JobRepository W) (rows : W → Rows) : Type 0 where
    pub insert : (job : Job) (w : W) → Writes rows job w (jobs.insert job w)
    pub find : (id : Bytes) (w : W) → Reads rows id w (jobs.find id w)
    pub update : (job : Job) (w : W) → Writes rows job w (jobs.update job w)

  module _ (db : Gorm W) (rows : W → Rows) (laws : GormLaws db rows) where
    insert-Writes : (job : Job) (w : W) → Writes rows job w (job_insert db job w)
    unfolding job_insert
    insert-Writes job w = ground (arith, laws.create job w)

    update-Writes : (job : Job) (w : W) → Writes rows job w (job_update db job w)
    unfolding job_update
    update-Writes job w = ground (arith, laws.save job w)

    find-Reads : (id : Bytes) (w : W) → Reads rows id w (job_find db id w)
    unfolding job_find
    find-Reads id w = ground (arith, laws.first id w)

    pub job_repository_db-JobRepositoryLaws : JobRepositoryLaws (job_repository_db db) rows
    unfolding job_repository_db
    job_repository_db-JobRepositoryLaws = record {
      insert = insert-Writes;
      find = find-Reads;
      update = update-Writes;
    }
