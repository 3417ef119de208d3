-- ===== src/Processor/Outcome.antt =====
-- What `Run` of internal/job/processor.go leaves in the table of jobs.
use golang_videoencoder_api.Prelude.{
  Bytes, [], ◌≡◌, refl, ◌≢◌, ap, ◌∙◌, Option, some, ◌⊎◌, inl, inr,
}
use golang_videoencoder_api.Result.{Error, Result, ok, err, message}
use golang_videoencoder_api.Exec.{Exec, pure, continue, map_error}
use golang_videoencoder_api.Exec.Keeps.{Keeps}
use golang_videoencoder_api.Domain.{VideoColumns, Job}
use golang_videoencoder_api.Machine.{Os, Storage}
use golang_videoencoder_api.Machine.Frame.{OsKeeps, StorageKeeps}
use golang_videoencoder_api.Repository.{JobRepository}
use golang_videoencoder_api.Repository.Laws.{Rows, JobRepositoryLaws}
use golang_videoencoder_api.JobService.{
  JobService, status_processing, status_completed, status_failed, mark_processing, mark_completed,
  mark_failed, update_status,
}
use golang_videoencoder_api.JobService.Updates.{Updates, update_status-Updates}
use golang_videoencoder_api.Processor.{
  Processor, completion_error, mark_failed_error, with_video_service, process, failed_result,
  record_outcome, run_loaded, run_checked, run,
}
use golang_videoencoder_api.Processor.Frame.{with_video_service-Keeps}

-- The row of a job has this status and this error text.
abbrev pub RowHas : Rows → Bytes → Bytes → Bytes → Type 0
RowHas table id status error =
    (job : Job) × (table id ≡ some job) × (job.status ≡ status) × (job.error ≡ error)

-- From one table to another only the row of this job changed, and it has this status and text.
pub record IsMarked (before after : Rows) (id status error : Bytes) : Type 0 where
  pub row : RowHas after id status error
  pub others : (other : Bytes) → other ≢ id → after other ≡ before other

-- What a run that returns the error `e` leaves: the failure and the text of `e`; or, where the last
-- write of the database failed and `e` says so, the job as it stood before that write.
pub data FailureLeft (before after : Rows) (id : Bytes) (e : Error) : Type 0 where
  recorded : IsMarked before after id status_failed (message e) → FailureLeft before after id e
  completion_lost :
      (marking : Error)
      → e ≡ completion_error marking
      → IsMarked before after id status_processing []
      → FailureLeft before after id e
  failure_lost :
      (failure marking : Error)
      → e ≡ mark_failed_error failure marking
      → IsMarked before after id status_processing [] ⊎ (after ≡ before)
      → FailureLeft before after id e

module _ {W : Type 0} (rows : W → Rows) where
  abbrev Marks : Bytes → Bytes → Bytes → W → Result Job × W → Type 0
  Marks id status error w (ok _, v) = IsMarked (rows w) (rows v) id status error
  Marks id status error w (err _, v) = rows v ≡ rows w

  Updates-Marks :
      (id status error : Bytes) (w : W) (r : Result Job × W)
      → Updates rows id status error w r
      → Marks id status error w r
  Updates-Marks id status error w (ok job, v) (key, (old, found, saved), row, others) = record {
    row = (job, row, saved.status, saved.error);
    others = others;
  }
  Updates-Marks id status error w (err e, v) kept = kept

  -- Where a processed job stands before its end is recorded.
  abbrev Processed : Bytes → W → Result (Unit {0}) × W → Type 0
  Processed id w (ok _, v) = IsMarked (rows w) (rows v) id status_processing []
  Processed id w (err _, v) = IsMarked (rows w) (rows v) id status_processing [] ⊎ (rows v ≡ rows w)

  -- Success: the row is completed, with no error text. Failure: `FailureLeft`.
  abbrev pub Ran : Bytes → W → Result (Unit {0}) × W → Type 0
  Ran id w (ok _, v) = IsMarked (rows w) (rows v) id status_completed []
  Ran id w (err e, v) = FailureLeft (rows w) (rows v) id e

IsMarked-trans :
    {a b c : Rows} {id s t x y : Bytes}
    → IsMarked a b id s x
    → IsMarked b c id t y
    → IsMarked a c id t y
IsMarked-trans first second = record {
  row = second.row;
  others = λ other ne. second.others other ne ∙ first.others other ne;
}

IsMarked-after : {a b c : Rows} {id t y : Bytes} → b ≡ a → IsMarked b c id t y → IsMarked a c id t y
IsMarked-after same second = record {
  row = second.row;
  others = λ other ne. second.others other ne ∙ ap (λ (t : Rows). t other) same;
}

IsMarked-before :
    {a b c : Rows} {id t y : Bytes} → c ≡ b → IsMarked a b id t y → IsMarked a c id t y
IsMarked-before {a} {b} {c} {id} {t} {y} same first = rw same first

module _ {W : Type 0} (os : Os W) (storage : Storage W) (service : JobService W)
    (jobs : JobRepository W) (rows : W → Rows) (configured : service.job_repository ≡ some jobs)
    (laws : JobRepositoryLaws jobs rows) (disk : OsKeeps os rows)
    (cloud : StorageKeeps storage rows) where
  update_status-Marks :
      (id status error : Bytes) (w : W)
      → Marks rows id status error w (update_status service id status error w)
  update_status-Marks id status error w =
      Updates-Marks rows id status error w _
        (update_status-Updates service jobs rows configured laws id status error w)

  settled :
      (id : Bytes) (w v : W) (r : Result (Unit {0}) × W)
      → rows r.1 ≡ rows v
      → IsMarked (rows w) (rows v) id status_processing []
      → Processed rows id w r
  settled id w v (ok _, u) same marked = IsMarked-before same marked
  settled id w v (err e, u) same marked = inl (IsMarked-before same marked)

  after_marking :
      (f : Error → Error) (rest : Exec W (Unit {0})) (id : Bytes) (w : W) (r : Result Job × W)
      → Keeps rows rest
      → Marks rows id status_processing [] w r
      → Processed rows id w (continue (map_error f r.0) (λ _. rest) r.1)
  after_marking f rest id w (ok _, v) kept marked = settled id w v (rest v) (kept.at v) marked
  after_marking f rest id w (err e, v) kept same = inr same

  process-Processed :
      (p : Processor W) (job : Job) (video : VideoColumns) (w : W)
      → Processed rows job.id w (process os storage service p job video w)
  unfolding process mark_processing
  process-Processed p job video w =
      after_marking _ (with_video_service os storage p job video) job.id w _
        (with_video_service-Keeps os storage rows disk cloud p job video)
        (update_status-Marks job.id status_processing [] w)

  after_completed :
      (id : Bytes) (w v : W) (r : Result Job × W)
      → IsMarked (rows w) (rows v) id status_processing []
      → Marks rows id status_completed [] v r
      → Ran rows id w (continue (map_error completion_error r.0) (λ _. pure tt) r.1)
  after_completed id w v (ok _, u) first second = IsMarked-trans first second
  after_completed id w v (err e, u) first same = completion_lost e refl (IsMarked-before same first)

  after_failed :
      (e : Error) (id : Bytes) (w v : W) (r : Result Job × W)
      → IsMarked (rows w) (rows v) id status_processing [] ⊎ (rows v ≡ rows w)
      → Marks rows id status_failed (message e) v r
      → Ran rows id w (failed_result e r.0, r.1)
  unfolding failed_result
  after_failed e id w v (ok _, u) (inl first) second = recorded (IsMarked-trans first second)
  after_failed e id w v (ok _, u) (inr kept) second = recorded (IsMarked-after kept second)
  after_failed e id w v (err m, u) (inl first) same =
      failure_lost e m refl (inl (IsMarked-before same first))
  after_failed e id w v (err m, u) (inr kept) same = failure_lost e m refl (inr (same ∙ kept))

  after_process :
      (id : Bytes) (w : W) (r : Result (Unit {0}) × W)
      → Processed rows id w r
      → Ran rows id w (record_outcome service id r.0 r.1)
  unfolding record_outcome mark_completed mark_failed
  after_process id w (ok _, v) first =
      after_completed id w v _ first (update_status-Marks id status_completed [] v)
  after_process id w (err e, v) left =
      after_failed e id w v _ left (update_status-Marks id status_failed (message e) v)

  pub run_loaded-Ran :
      (p : Processor W) (job : Job) (video : VideoColumns) (w : W)
      → Ran rows job.id w (run_loaded os storage service p job video w)
  unfolding run_loaded
  run_loaded-Ran p job video w =
      after_process job.id w (process os storage service p job video w)
        (process-Processed p job video w)

  run_checked-Ran :
      (loaded : Option VideoColumns) (served : Option (JobService W)) (p : Processor W) (job : Job)
      (video : VideoColumns) (w : W)
      → loaded ≡ some video
      → served ≡ some service
      → Ran rows job.id w (run_checked os storage loaded served p job w)
  unfolding run_checked
  run_checked-Ran loaded served p job video w has_video has_service =
      rw (has_video, has_service) (run_loaded-Ran p job video w)

  -- `Run`, on a job whose video is loaded and with a job service whose repository keeps its
  -- contract, where the disk and the storage leave the table of jobs alone. When it returns no
  -- error, the row of the job is completed with an empty error text. When it returns an error, the
  -- row is failed with the text of that error; or the error says that the last write of the
  -- database failed, and the row is processing with an empty text, or (only where the failure of
  -- the job was not written) the table is as before. No other row changes.
  pub run-Ran :
      (p : Processor W) (job : Job) (video : VideoColumns) (w : W)
      → job.video ≡ some video
      → p.job_service ≡ some service
      → Ran rows job.id w (run os storage p job w)
  unfolding run
  run-Ran p job video w = run_checked-Ran job.video p.job_service p job video w
