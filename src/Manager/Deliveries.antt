-- ===== src/Manager/Deliveries.antt =====
-- The workers of internal/job/manager.go on deliveries of the queue, with what internal/job/worker.go
-- tells the broker of them.
use mathlib.Core.List.{Perm}
use golang_videoencoder_api.Prelude.{
  ℕ, ◌<◌, List, [], ◌∷◌, ◌++◌, Option, some, ◌≡◌, refl, sym, ap, ◌∙◌,
}
use golang_videoencoder_api.Domain.{Platform}
use golang_videoencoder_api.Machine.{Os, Storage}
use golang_videoencoder_api.Machine.Frame.{OsKeeps, StorageKeeps}
use golang_videoencoder_api.Repository.{JobRepository, VideoRepository}
use golang_videoencoder_api.Repository.Frame.{PlatformKeeps, VideosKeep, JobsKeep}
use golang_videoencoder_api.JobService.{JobService}
use golang_videoencoder_api.Processor.{Processor}
use golang_videoencoder_api.Worker.{Acknowledger, JobWorkerResult, work, job_worker}
use golang_videoencoder_api.Worker.Settlement.{
  Settled, Delivery, AckLaws, messages, verdicts, payloads, bodies, settled-job_worker,
  payloads-job_worker,
}
use golang_videoencoder_api.Manager.Channels.{stopped, Line, Hub, Reaches, serve_all}
use golang_videoencoder_api.Manager.Serial.{lines, stopped-Drained}

module _ {W : Type 0} (platform : Platform W) (os : Os W) (storage : Storage W)
    (service : JobService W) (processor : Option (Processor W)) (acker : ℕ → Acknowledger W) where
  -- What a worker does with a delivery of the queue.
  abbrev pub serve_delivery : Delivery → W → JobWorkerResult × W
  serve_delivery (tag, body) =
      work platform os storage service processor (record { body = body; ack = some (acker tag) })

  pub serve_all-job_worker :
      (ds : List Delivery) (w : W)
      → serve_all serve_delivery ds w
        ≡ job_worker platform os storage service processor (messages acker ds) w
  unfolding serve_all job_worker
  serve_all-job_worker [] w = refl
  serve_all-job_worker ((tag, body) ∷ ds) w =
      let (r, v) = serve_delivery (tag, body) w in
      ap (λ (p : List JobWorkerResult × W). (r ∷ p.0, p.1)) (serve_all-job_worker ds v)

-- Every delivery has one result with its body, one verdict that fits the result, and the lines of
-- the result in the log.
pub record AllSettled (accepted : List Delivery) (before after : Settled) (logs : List Line)
    : Type 0 where
  pub order : List Delivery
  pub results : List JobWorkerResult
  pub heard : List JobWorkerResult
  pub took : Perm order accepted
  pub made : payloads results ≡ bodies order
  pub settled : after ≡ before ++ verdicts order results
  pub told : Perm heard results
  pub logged : logs ≡ lines heard

module _ {W : Type 0} (platform : Platform W) (os : Os W) (storage : Storage W)
    (service : JobService W) (jobs : JobRepository W) (videos : VideoRepository W)
    (processor : Option (Processor W)) (acker : ℕ → Acknowledger W) (settled : W → Settled)
    (jobs_configured : service.job_repository ≡ some jobs)
    (videos_configured : service.video_repository ≡ some videos)
    (served : (p : Processor W) → processor ≡ some p → p.job_service ≡ some service)
    (still : PlatformKeeps platform settled) (disk : OsKeeps os settled)
    (cloud : StorageKeeps storage settled) (stored : JobsKeep jobs settled)
    (apart : VideosKeep videos settled) (laws : AckLaws acker settled) where
  -- Where the calls of a worker other than `Ack` and `Nack` are not seen by the broker, the service has
  -- its repositories and the manager has at least one worker: when the stop function has returned, the
  -- broker has been told, beside what it knew before `Start`, exactly one verdict for each delivery that
  -- was accepted, in the order in which they were served. It is `Ack` where the result of the delivery
  -- has no error text, else `Nack` without requeue. The log has the lines of each of these results once.
  pub stopped-AllSettled :
      (workers : ℕ) (w : W) (s : Hub Delivery) (v : W)
      → 0 < workers
      → Reaches (serve_delivery platform os storage service processor acker) workers w s v
      → s.phase ≡ stopped
      → AllSettled s.accepted (settled w) (settled v) s.log
  stopped-AllSettled workers w s v some_workers reached at =
      let serve = serve_delivery platform os storage service processor acker in
      let d = stopped-Drained serve workers some_workers reached at in
      let ran =
        sym (serve_all-job_worker platform os storage service processor acker d.order w) ∙ d.ran in
      let results_of = ap (λ (p : List JobWorkerResult × W). p.0) ran in
      record {
        order = d.order;
        results = d.results;
        heard = d.heard;
        took = d.took;
        made =
            ap payloads (sym results_of)
            ∙ payloads-job_worker os storage platform service processor acker d.order w;
        settled =
            ap (λ (p : List JobWorkerResult × W). settled p.1) (sym ran)
            ∙ settled-job_worker platform os storage service jobs videos processor acker settled
                jobs_configured videos_configured served still disk cloud stored apart laws d.order
                w
            ∙ ap (λ (rs : List JobWorkerResult). settled w ++ verdicts d.order rs) results_of;
        told = d.told;
        logged = d.logged;
      }
