-- ===== src/Manager/Setup.antt =====
-- `Manager`, `NewManager` and `Enqueue` of internal/job/manager.go.
use golang_videoencoder_api.Prelude.{
  ℕ, zero, suc, ◌<◌, ℤ, pos, negsuc, is_positive, pos_part, Bytes, true, Option, none, some, ◌≡◌,
  refl, sym, ap, arith,
}
use golang_videoencoder_api.Domain.{Platform}
use golang_videoencoder_api.Machine.{Os, Storage}
use golang_videoencoder_api.Machine.Frame.{OsKeeps, StorageKeeps}
use golang_videoencoder_api.Repository.{JobRepository, VideoRepository}
use golang_videoencoder_api.Repository.Frame.{PlatformKeeps, VideosKeep, JobsKeep}
use golang_videoencoder_api.JobService.{JobService, new_job_service}
use golang_videoencoder_api.Processor.{Processor}
use golang_videoencoder_api.Processor.Settings.{new_processor_from_env}
use golang_videoencoder_api.Worker.{Acknowledger, Message}
use golang_videoencoder_api.Worker.Settlement.{Settled, Delivery, AckLaws}
use golang_videoencoder_api.Manager.{
  worker_concurrency_from_env, worker_concurrency_from_env_positive,
}
use golang_videoencoder_api.Manager.Channels.{stopped, Hub, Reaches}
use golang_videoencoder_api.Manager.Deliveries.{serve_delivery, AllSettled, stopped-AllSettled}

-- `Manager`; the channels are the fields of `Hub`, here stands the capacity of `MessageChannel`. Its
-- `JobService` is not nil, as `main` gives it one; `Start` logs a line where it is nil.
pub record Manager (W : Type 0) : Type 0 where
  pub job_service : JobService W
  pub workers : ℤ
  pub processor : Processor W
  pub capacity : ℕ

-- `NewManager`; the count of workers is not negative, so `make` does not panic.
unfoldable pub new_manager :
    {W : Type 0} → (ℕ → ℕ → ℕ → ℕ) → (Bytes → Bytes) → JobService W → Manager W
new_manager fraction getenv job_service =
    let workers = worker_concurrency_from_env getenv in
    record {
      job_service = job_service;
      workers = workers;
      processor = new_processor_from_env fraction getenv (some job_service);
      capacity = pos_part workers;
    }

-- The rounds of the loop of `Start` that starts the workers.
abbrev pub crew_size : {W : Type 0} → Manager W → ℕ
crew_size manager = pos_part manager.workers

-- The message of `Enqueue`.
unfoldable pub enqueued_message : {W : Type 0} → Bytes → Message W
enqueued_message payload = record { body = payload; ack = none }

some_workers : (z : ℤ) → is_positive z ≡ true → 0 < pos_part z
some_workers (pos zero) h = cc
some_workers (pos (suc n)) h = omega arith
some_workers (negsuc n) h = cc

abbrev service_of : {W : Type 0} → Option (Processor W) → Option (JobService W)
service_of none = none
service_of (some p) = p.job_service

module _ {W : Type 0} (platform : Platform W) (os : Os W) (storage : Storage W)
    (fraction : ℕ → ℕ → ℕ → ℕ) (jobs : JobRepository W) (videos : VideoRepository W)
    (acker : ℕ → Acknowledger W) (settled : W → Settled) (still : PlatformKeeps platform settled)
    (disk : OsKeeps os settled) (cloud : StorageKeeps storage settled)
    (stored : JobsKeep jobs settled) (apart : VideosKeep videos settled)
    (laws : AckLaws acker settled) where
  -- The manager that `main` makes, whatever the environment says: where the calls of a worker other than
  -- `Ack` and `Nack` are not seen by the broker, and the stop function has returned, `Ack` or `Nack` has
  -- been called, beside the calls before `Start`, exactly once for each delivery that was accepted, in
  -- the order in which they were served, also where the call failed. It is `Ack` where the result of the delivery has no error text,
  -- else `Nack` without requeue. The log has the lines of each of these results once.
  pub new_manager-AllSettled :
      (getenv : Bytes → Bytes) (w : W) (s : Hub Delivery) (v : W)
      → let manager = new_manager fraction getenv (new_job_service jobs videos) in
        let serve =
          serve_delivery platform os storage manager.job_service (some manager.processor) acker in
        Reaches serve (crew_size manager) w s v
        → s.phase ≡ stopped
        → AllSettled s.accepted (settled w) (settled v) s.log
  unfolding new_manager new_processor_from_env new_job_service
  new_manager-AllSettled getenv w s v reached at =
      let service = new_job_service jobs videos in
      let manager = new_manager fraction getenv service in
      stopped-AllSettled platform os storage service jobs videos (some manager.processor) acker
        settled refl refl (λ p e. sym (ap service_of e)) still disk cloud stored apart laws
        (crew_size manager) w s v
        (some_workers manager.workers (worker_concurrency_from_env_positive getenv)) reached at
