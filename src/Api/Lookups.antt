-- ===== src/Api/Lookups.antt =====
-- `handleGetJob` of internal/api/handlers.go over the repository of
-- internal/repositories/job/repository.go.
use golang_videoencoder_api.Prelude.{Bytes, bytes, Bool, true, false, none, some, ◌≡◌}
use golang_videoencoder_api.Result.{
  Result, ok, err, sentinel, record_not_found, job_not_found, errors_is, message,
}
use golang_videoencoder_api.Domain.{Job}
use golang_videoencoder_api.Repository.{Gorm}
use golang_videoencoder_api.Repository.Laws.{Rows}
use golang_videoencoder_api.Api.{JobResponse, Response, job_found, failure}
use golang_videoencoder_api.Api.Columns.{ShowsJob}

module _ {W : Type 0} (rows : W → Rows) where
  -- The row, or an error; when the error says that there is no row, there is none.
  abbrev pub Finds : Bytes → W → Result Job × W → Type 0
  Finds id w (ok job, v) = (rows w id ≡ some job) × (rows v ≡ rows w)
  Finds id w (err e, v) =
      (errors_is e record_not_found ≡ true → rows w id ≡ none)
      × (errors_is e job_not_found ≡ false)
      × (rows v ≡ rows w)

  -- What GORM documents of `First`; its errors are none of those that the repositories declare.
  pub record FirstLaw (db : Gorm W) : Type 0 where
    pub first_job : (id : Bytes) (w : W) → Finds id w (db.first_job id w)

  -- How a request for a job is answered.
  pub data JobLooked (valid_uuid : Bytes → Bool) (id : Bytes) (w : W) : Response × W → Type 0 where
    -- the id is at fault; nothing was called
    malformed :
        {r : Response} → valid_uuid id ≡ false → r.code ≡ 400 → JobLooked valid_uuid id w (r, w)
    shown :
        {job : Job} {r : JobResponse} {v : W}
        → rows w id ≡ some job
        → ShowsJob job r
        → rows v ≡ rows w
        → JobLooked valid_uuid id w (record { code = 200; payload = job_found r }, v)
    absent :
        {v : W}
        → rows w id ≡ none
        → rows v ≡ rows w
        → JobLooked valid_uuid id w
            (record { code = 404; payload = failure (message (sentinel job_not_found)) }, v)
    -- the database failed
    broken :
        {v : W}
        → rows v ≡ rows w
        → JobLooked valid_uuid id w
            (record { code = 500; payload = failure (bytes "internal server error") }, v)
