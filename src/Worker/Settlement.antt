-- ===== src/Worker/Settlement.antt =====
-- How the loop of internal/job/worker.go settles the messages of the queue.
use golang_videoencoder_api.Prelude.{
  ℕ, Bytes, List, [], ◌∷◌, ◌++◌, map, append-nil, append_assoc, Bool, false, Bool-cases, Option,
  none, some, ◌≡◌, refl, sym, ap, ◌∙◌, inl, inr, arith,
}
use golang_videoencoder_api.Result.{Result, ok, err}
use golang_videoencoder_api.Domain.{Job, Platform}
use golang_videoencoder_api.Machine.{Os, Storage}
use golang_videoencoder_api.Machine.Frame.{OsKeeps, StorageKeeps}
use golang_videoencoder_api.Repository.{JobRepository, VideoRepository}
use golang_videoencoder_api.Repository.Frame.{PlatformKeeps, VideosKeep, JobsKeep}
use golang_videoencoder_api.JobService.{JobService, create_pending_job}
use golang_videoencoder_api.JobService.Frame.{create_pending_job-Keeps}
use golang_videoencoder_api.Processor.{Processor, enabled}
use golang_videoencoder_api.Processor.Frame.{run-Keeps}
use golang_videoencoder_api.Worker.{
  Acknowledger, Message, JobWorkerMessage, JobWorkerResult, parse_job_worker_message, settle,
  after_run, acknowledge, run_enabled, process_created, process_message, process_payload, work,
  job_worker,
}

-- A call of `Ack` or `Nack` for a delivery.
pub data Verdict : Type 0 where
  acked : Verdict
  nacked : (requeue : Bool) → Verdict

-- A delivery, by its tag.
abbrev pub Delivery : Type 0
Delivery = ℕ × Bytes

abbrev pub Settled : Type 0
Settled = List (ℕ × Verdict)

-- The calls of `Ack` and `Nack` are noted in their order, also those that fail.
pub record AckLaws {W : Type 0} (acker : ℕ → Acknowledger W) (settled : W → Settled) : Type 0 where
  pub ack : (tag : ℕ) (w : W) → settled ((acker tag).ack w).1 ≡ settled w ++ (tag, acked) ∷ []
  pub nack :
      (tag : ℕ) (requeue : Bool) (w : W)
      → settled ((acker tag).nack requeue w).1 ≡ settled w ++ (tag, nacked requeue) ∷ []

-- A success is confirmed; a failure is rejected and not put back, which sends it to the
-- dead-letter queue.
abbrev pub verdict_of : Bytes → Verdict
verdict_of [] = acked
verdict_of (_ ∷ _) = nacked false

-- One verdict for each delivery, in their order.
abbrev pub verdicts : List Delivery → List JobWorkerResult → Settled
verdicts [] results = []
verdicts (_ ∷ _) [] = []
verdicts ((tag, _) ∷ ds) (r ∷ rs) = (tag, verdict_of r.error) ∷ verdicts ds rs

abbrev pub messages : {W : Type 0} → (ℕ → Acknowledger W) → List Delivery → List (Message W)
messages acker [] = []
messages acker ((tag, body) ∷ ds) =
    record { body = body; ack = some (acker tag) } ∷ messages acker ds

abbrev pub payloads : List JobWorkerResult → List Bytes
payloads = map (λ (r : JobWorkerResult). r.payload)

abbrev pub bodies : List Delivery → List Bytes
bodies = map (λ (d : Delivery). d.1)

module _ {W : Type 0} (os : Os W) (storage : Storage W) where
  process_created-payload :
      (payload : Bytes) (p : Option (Processor W)) (r : Result Job) (w : W)
      → (process_created os storage payload p r w).0.payload ≡ payload
  unfolding process_created run_enabled after_run
  process_created-payload payload p r w = ground arith

  module _ (platform : Platform W) (service : JobService W) (processor : Option (Processor W)) where
    process_message-payload :
        (payload : Bytes) (m : Result JobWorkerMessage) (w : W)
        → (process_message platform os storage service processor payload m w).0.payload ≡ payload
    unfolding process_message
    process_message-payload payload (err e) w = refl
    process_message-payload payload (ok m) w = process_created-payload payload processor _ _

    -- Every message has one result, with its payload, in the order of the messages.
    pub payloads-job_worker :
        (acker : ℕ → Acknowledger W) (ds : List Delivery) (w : W)
        → payloads (job_worker platform os storage service processor (messages acker ds) w).0
          ≡ bodies ds
    unfolding job_worker work process_payload
    payloads-job_worker acker [] w = refl
    payloads-job_worker acker ((tag, body) ∷ ds) w = cc (
      process_message-payload body (parse_job_worker_message body) w,
      payloads-job_worker acker ds
          (work platform os storage service processor
            (record { body = body; ack = some (acker tag) }) w).1,
    )

module _ {W : Type 0} (acker : ℕ → Acknowledger W) (settled : W → Settled)
    (laws : AckLaws acker settled) where
  settled-settle :
      (tag : ℕ) (error : Bytes) (w : W)
      → settled (settle (acker tag) error w) ≡ settled w ++ (tag, verdict_of error) ∷ []
  unfolding settle
  settled-settle tag [] w = laws.ack tag w
  settled-settle tag (_ ∷ _) w = laws.nack tag false w

module _ {W : Type 0} (platform : Platform W) (os : Os W) (storage : Storage W)
    (service : JobService W) (jobs : JobRepository W) (videos : VideoRepository W)
    (processor : Option (Processor W)) (acker : ℕ → Acknowledger W) (settled : W → Settled)
    (jobs_configured : service.job_repository ≡ some jobs)
    (videos_configured : service.video_repository ≡ some videos)
    (served : (p : Processor W) → processor ≡ some p → p.job_service ≡ some service)
    (still : PlatformKeeps platform settled) (disk : OsKeeps os settled)
    (cloud : StorageKeeps storage settled) (stored : JobsKeep jobs settled)
    (apart : VideosKeep videos settled) (laws : AckLaws acker settled) where
  run_enabled-keeps :
      (payload : Bytes) (o : Option (Processor W)) (job : Job) (w : W)
      → ((p : Processor W) → o ≡ some p → p.job_service ≡ some service)
      → settled (run_enabled os storage payload o job w).1 ≡ settled w
  unfolding run_enabled
  run_enabled-keeps payload none job w has = refl
  run_enabled-keeps payload (some p) job w has =
      (run-Keeps os storage settled disk cloud service jobs jobs_configured stored p job
          (has p refl)).at
        w

  process_created-keeps :
      (payload : Bytes) (r : Result Job) (w : W)
      → settled (process_created os storage payload processor r w).1 ≡ settled w
  unfolding process_created
  process_created-keeps payload (err e) w = refl
  process_created-keeps payload (ok job) w = elim (Bool-cases (enabled processor)) [
    | inl e ↦ rw e (run_enabled-keeps payload processor job w served)
    | inr e ↦ rw e
  ]

  process_message-keeps :
      (payload : Bytes) (m : Result JobWorkerMessage) (w : W)
      → settled (process_message platform os storage service processor payload m w).1 ≡ settled w
  unfolding process_message
  process_message-keeps payload (err e) w = refl
  process_message-keeps payload (ok m) w =
      process_created-keeps payload
        (create_pending_job service platform m.video_id m.output_bucket_path w).0 _
      ∙ (create_pending_job-Keeps settled service jobs jobs_configured stored platform still videos
            videos_configured apart m.video_id m.output_bucket_path).at
          w

  settled-work :
      (tag : ℕ) (body : Bytes) (w : W)
      → let (r, w') =
          work platform os storage service processor
            (record { body = body; ack = some (acker tag) })
            w in
        settled w' ≡ settled w ++ (tag, verdict_of r.error) ∷ []
  unfolding work acknowledge process_payload
  settled-work tag body w =
      let m = parse_job_worker_message body in
      let (r, w') = process_message platform os storage service processor body m w in
      settled-settle acker settled laws tag r.error w'
      ∙ ap (λ (s : Settled). s ++ (tag, verdict_of r.error) ∷ []) (process_message-keeps body m w)

  pub settled-job_worker :
      (ds : List Delivery) (w : W)
      → let (results, w') =
          job_worker platform os storage service processor (messages acker ds) w in
        settled w' ≡ settled w ++ verdicts ds results
  unfolding job_worker
  settled-job_worker [] w = sym (append-nil (settled w))
  settled-job_worker ((tag, body) ∷ ds) w =
      let (r, w1) =
        work platform os storage service processor (record { body = body; ack = some (acker tag) })
          w in
      let (results, w2) = job_worker platform os storage service processor (messages acker ds) w1 in
      settled-job_worker ds w1
      ∙ ap (λ (s : Settled). s ++ verdicts ds results) (settled-work tag body w)
      ∙ append_assoc (settled w) ((tag, verdict_of r.error) ∷ []) (verdicts ds results)
