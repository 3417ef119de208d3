-- ===== src/Processor/Errors.antt =====
-- The texts of the errors of `Run` in internal/job/processor.go.
use golang_videoencoder_api.Prelude.{Bytes, bytes, is_empty, ◌≡◌, refl, false, Option, none, some}
use golang_videoencoder_api.Result.{Error, Result, ok, err, wrap, message, message-wrap}
use golang_videoencoder_api.Domain.{VideoColumns, Job}
use golang_videoencoder_api.Machine.{Context, Os, Storage}
use golang_videoencoder_api.JobService.{JobService}
use golang_videoencoder_api.VideoService.{VideoService}
use golang_videoencoder_api.Processor.{
  Processor, media_work, with_video_service, process, failed_result, record_outcome, run_loaded,
  run_checked, run,
}
use golang_videoencoder_api.Exec.{
  Exec, pure, continue, map_error, rescue, finally, best_effort, ◌>>=◌,
}

-- A result that is a success or an error with a text.
abbrev pub HasText {ℓ} : {A : Type ℓ} → Result A → Type 0
HasText (ok _) = Unit
HasText (err e) = is_empty (message e) ≡ false

-- Every error of the call has a text.
pub record Explains {W A : Type 0} (m : Exec W A) : Type 0 where
  pub at : (w : W) → HasText (m w).0

prefixed :
    {A : Type 0} (p : Bytes) (r : Result A) → is_empty p ≡ false → HasText (map_error (wrap p) r)
prefixed p (ok a) full = tt
prefixed p (err e) full = message-wrap p e full

module _ {W : Type 0} where
  Explains-pure : {A : Type 0} (a : A) → Explains (pure {W = W} a)
  Explains-pure a = record { at = λ w. tt }

  continue-Explains :
      {A B : Type 0} (r : Result A) (f : A → Exec W B) (w : W)
      → HasText r
      → ((a : A) → Explains (f a))
      → HasText (continue r f w).0
  continue-Explains (ok a) f w _ rest = (rest a).at w
  continue-Explains (err e) f w has _ = has

  Explains-bind :
      {A B : Type 0} (m : Exec W A) (f : A → Exec W B)
      → Explains m
      → ((a : A) → Explains (f a))
      → Explains (m >>= f)
  Explains-bind m f first rest = record {
    at = λ w. continue-Explains (m w).0 f (m w).1 (first.at w) rest;
  }

  -- An error wrapped behind a prefix has a text, whatever it is.
  Explains-rescue :
      {A : Type 0} (p : Bytes) (m : Exec W A) → is_empty p ≡ false → Explains (rescue (wrap p) m)
  Explains-rescue p m full = record { at = λ w. prefixed p (m w).0 full }

  Explains-finally :
      {A B : Type 0} (m : Exec W A) (cleanup : Exec W B) → Explains m → Explains (finally m cleanup)
  Explains-finally m cleanup first = record { at = λ w. first.at w }

  Explains-best_effort : {A : Type 0} (m : Exec W A) → Explains (best_effort m)
  Explains-best_effort m = record { at = λ w. tt }

ruleset explains_rules =
    (Explains-pure, Explains-bind, Explains-finally, Explains-best_effort, Explains-rescue)

module _ {W : Type 0} (os : Os W) (storage : Storage W) where
  media_work-Explains :
      (ctx : Context) (p : Processor W) (job : Job) (video : VideoColumns) (v : VideoService)
      → Explains (media_work os storage ctx p job video v)
  unfolding media_work bytes
  media_work-Explains ctx p job video v = search explains_rules depth 9

  with_video_service-Explains :
      (p : Processor W) (job : Job) (video : VideoColumns)
      → Explains (with_video_service os storage p job video)
  unfolding with_video_service bytes
  with_video_service-Explains p job video = search (explains_rules, media_work-Explains)

  process-Explains :
      (service : JobService W) (p : Processor W) (job : Job) (video : VideoColumns)
      → Explains (process os storage service p job video)
  unfolding process bytes
  process-Explains service p job video = search (explains_rules, with_video_service-Explains)

  completed-Explains :
      (service : JobService W) (id : Bytes) → Explains (record_outcome service id (ok tt))
  unfolding record_outcome bytes
  completed-Explains service id = search explains_rules

  failed_result-HasText :
      (e : Error) (marked : Result Job)
      → is_empty (message e) ≡ false
      → HasText (failed_result e marked)
  unfolding failed_result message bytes
  failed_result-HasText e (ok _) has = has
  failed_result-HasText e (err m) has = refl

  record_outcome-HasText :
      (service : JobService W) (id : Bytes) (r : Result (Unit {0})) (w : W)
      → HasText r
      → HasText (record_outcome service id r w).0
  record_outcome-HasText service id (ok tt) w has = (completed-Explains service id).at w
  record_outcome-HasText service id (err e) w has =
      unfold record_outcome in failed_result-HasText e _ has

  run_checked-Explains :
      (loaded : Option VideoColumns) (served : Option (JobService W)) (p : Processor W) (job : Job)
      → Explains (run_checked os storage loaded served p job)
  unfolding run_checked run_loaded message bytes
  run_checked-Explains none served p job = record { at = λ w. refl }
  run_checked-Explains (some video) none p job = record { at = λ w. refl }
  run_checked-Explains (some video) (some service) p job = record {
    at = λ w.
        record_outcome-HasText service job.id _ _ ((process-Explains service p job video).at w);
  }

  -- Every error that `Run` returns, on any job and in any world, has a non-empty text.
  pub run-Explains : (p : Processor W) (job : Job) → Explains (run os storage p job)
  unfolding run
  run-Explains p job = run_checked-Explains job.video p.job_service p job
