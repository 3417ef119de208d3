-- ===== src/Repository/Answers.antt =====
-- `Find` of internal/repositories/job/repository.go and internal/repositories/video/repository.go, by
-- what the table holds and whether the database can be reached.
use golang_videoencoder_api.Prelude.{Bytes, bytes, Bool, true, false, Option, none, some, ◌≡◌, refl}
use golang_videoencoder_api.Result.{
  Error, Result, ok, err, Sentinel, sentinel, wrap, record_not_found, job_not_found,
  video_not_found, errors_is,
}
use golang_videoencoder_api.Exec.{map_error}
use golang_videoencoder_api.Domain.{Job, Video, Platform}
use golang_videoencoder_api.Repository.{
  Gorm, job_find_error, video_find_error, job_find, video_find, job_repository_db,
  video_repository_db,
}

module _ {A : Type 0} where
  -- `First`, where the database can be reached or cannot, on this row: an error of a missing row, and
  -- only that, has `ErrRecordNotFound` in its chain, and no error has that of the repository.
  abbrev pub Firsts : Bool → Option A → Sentinel → Result A → Type 0
  Firsts true (some a) missing r = r ≡ ok a
  Firsts true none missing (ok a) = ⊥
  Firsts true none missing (err e) = errors_is e record_not_found ≡ true
  Firsts false row missing (ok a) = ⊥
  Firsts false row missing (err e) =
      (errors_is e record_not_found ≡ false) × (errors_is e missing ≡ false)

  -- `Find`: the row, the error of the repository itself where there is no row, or else an error that
  -- is not it and has this prefix.
  abbrev pub Answers : Bool → Option A → Sentinel → Bytes → Result A → Type 0
  Answers true (some a) missing prefix r = r ≡ ok a
  Answers true none missing prefix r = r ≡ err (sentinel missing)
  Answers false row missing prefix (ok a) = ⊥
  Answers false row missing prefix (err e) =
      (errors_is e missing ≡ false) × ((cause : Error) × (e ≡ wrap prefix cause))

  job_find_error-Answers :
      (up : Bool) (row : Option A) (r : Result A)
      → Firsts up row job_not_found r
      → Answers up row job_not_found (bytes "find job: ") (map_error job_find_error r)
  unfolding job_find_error errors_is
  job_find_error-Answers true (some a) (ok b) h = h
  job_find_error-Answers true (some a) (err e) h = cc
  job_find_error-Answers true none (ok b) h = absurd h
  job_find_error-Answers true none (err e) h = rw h refl
  job_find_error-Answers false row (ok b) h = absurd h
  job_find_error-Answers false row (err e) (other, foreign) = rw other (foreign, (e, refl))

  video_find_error-Answers :
      (up : Bool) (row : Option A) (r : Result A)
      → Firsts up row video_not_found r
      → Answers up row video_not_found (bytes "find video: ") (map_error video_find_error r)
  unfolding video_find_error errors_is
  video_find_error-Answers true (some a) (ok b) h = h
  video_find_error-Answers true (some a) (err e) h = cc
  video_find_error-Answers true none (ok b) h = absurd h
  video_find_error-Answers true none (err e) h = rw h refl
  video_find_error-Answers false row (ok b) h = absurd h
  video_find_error-Answers false row (err e) (other, foreign) = rw other (foreign, (e, refl))

module _ {W : Type 0} (up : W → Bool) (jobs : W → Bytes → Option Job)
    (videos : W → Bytes → Option Video) where
  -- What GORM documents of `First` on the two tables.
  pub record FirstLaws (db : Gorm W) : Type 0 where
    pub first_job :
        (id : Bytes) (w : W) → Firsts (up w) (jobs w id) job_not_found (db.first_job id w).0
    pub first_video :
        (id : Bytes) (w : W) → Firsts (up w) (videos w id) video_not_found (db.first_video id w).0

  module _ (platform : Platform W) (db : Gorm W) (laws : FirstLaws db) where
    -- `Find` of both repositories, over a GORM whose `First` gives an error with ErrRecordNotFound in its
    -- chain for a missing row of a database that can be reached, and other errors for one that cannot.
    -- A row that is there is returned. A row that is not is reported by exactly ErrJobNotFound or
    -- ErrVideoNotFound. An outage is never reported as a missing row: its error has the prefix
    -- "find job: " or "find video: ", and neither of these errors in its chain.
    pub find-Answers :
        (id : Bytes) (w : W)
        → Answers
            (up w)
            (jobs w id)
            job_not_found
            (bytes "find job: ")
            ((job_repository_db db).find id w).0
          × Answers
              (up w)
              (videos w id)
              video_not_found
              (bytes "find video: ")
              ((video_repository_db platform db).find id w).0
    unfolding job_repository_db job_find video_repository_db video_find
    find-Answers id w = (
      job_find_error-Answers (up w) (jobs w id) _ (laws.first_job id w),
      video_find_error-Answers (up w) (videos w id) _ (laws.first_video id w),
    )
