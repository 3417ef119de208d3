-- ===== src/JobService/Updates.antt =====
-- What `updateStatus` of internal/job/service.go does to the table of jobs.
use golang_videoencoder_api.Prelude.{Bytes, bytes_eq_iff, ◌≡◌, ◌≢◌, ap, ◌∙◌, some, arith}
use golang_videoencoder_api.Result.{Result, ok, err}
use golang_videoencoder_api.Exec.{Exec, continue}
use golang_videoencoder_api.Domain.{Job}
use golang_videoencoder_api.Repository.{JobRepository}
use golang_videoencoder_api.Repository.Laws.{Rows, put, IsSavedAs, Reads, Writes, JobRepositoryLaws}
use golang_videoencoder_api.JobService.{JobService, update_status}

module _ {W : Type 0} (rows : W → Rows) where
  -- Success: the row of the job existed, has the new status and error text and its other columns,
  -- and no other row changed. Failure: no row changed.
  abbrev pub Updates : Bytes → Bytes → Bytes → W → Result Job × W → Type 0
  Updates id status error w (ok job, w') =
      (job.id ≡ id)
      × ((old : Job) × (rows w id ≡ some old)
          × IsSavedAs (record old { status = status; error = error }) job)
      × (rows w' id ≡ some job)
      × ((other : Bytes) → other ≢ id → rows w' other ≡ rows w other)
  Updates id status error w (err e, w') = rows w' ≡ rows w

put_self : (table : Rows) (job : Job) (id : Bytes) → job.id ≡ id → put table job id ≡ some job
put_self table job id e = ground (arith, bytes_eq_iff job.id id)

put_other :
    (table : Rows) (job : Job) (id other : Bytes)
    → job.id ≡ id
    → other ≢ id
    → put table job other ≡ table other
put_other table job id other e ne = ground (arith, bytes_eq_iff job.id other)

module _ {W : Type 0} (rows : W → Rows) where
  after_write :
      (id status error : Bytes) (w v : W) (old : Job) (r : Result Job × W)
      → rows w id ≡ some old
      → old.id ≡ id
      → rows v ≡ rows w
      → Writes rows (record old { status = status; error = error }) v r
      → Updates rows id status error w r
  after_write id status error w v old (ok job, u) found same kept (saved, written) =
      let key : job.id ≡ id = saved.id ∙ same in
      (
        key,
        (old, found, saved),
        ap (λ (t : Rows). t id) written ∙ put_self (rows v) job id key,
        λ other ne.
            ap (λ (t : Rows). t other) written
            ∙ put_other (rows v) job id other key ne
            ∙ ap (λ (t : Rows). t other) kept,
      )
  after_write id status error w v old (err e, u) found same kept written = written ∙ kept

  after_read :
      (update : Job → Exec W Job) (id status error : Bytes) (w : W) (r : Result Job × W)
      → ((job : Job) (v : W) → Writes rows job v (update job v))
      → Reads rows id w r
      → Updates rows id status error w
          (continue r.0 (λ job. update (record job { status = status; error = error })) r.1)
  after_read update id status error w (ok job, v) writes (found, same, kept) =
      after_write id status error w v job _ found same kept (writes _ v)
  after_read update id status error w (err e, v) writes kept = kept

module _ {W : Type 0} (service : JobService W) (jobs : JobRepository W) (rows : W → Rows)
    (configured : service.job_repository ≡ some jobs) (laws : JobRepositoryLaws jobs rows) where
  -- `updateStatus`, with a repository that keeps its contract. On success the row of the job existed, it
  -- now has the new status and error text and its old output path and video, and no other row changed. On
  -- failure no row changed.
  pub update_status-Updates :
      (id status error : Bytes) (w : W)
      → Updates rows id status error w (update_status service id status error w)
  unfolding update_status
  update_status-Updates id status error w =
      rw configured (
        after_read rows jobs.update id status error w (jobs.find id w) laws.update (laws.find id w))
