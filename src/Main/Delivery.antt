-- ===== src/Main/Delivery.antt =====
-- A job on its way from the route `POST /jobs` of internal/api over the publisher of cmd/main.go to a
-- worker of internal/job.
use golang_videoencoder_api.Prelude.{
  ℕ, [], arith, Bool-cases, Bytes, bytes, Bool, Option, some, ◌≡◌, ◌⊎◌, inl, inr, refl, ap, subst,
  ◌∙◌, sym,
}
use golang_videoencoder_api.Result.{Error, Result, ok, err, video_not_found, errors_is}
use golang_videoencoder_api.Exec.{Exec}
use golang_videoencoder_api.Domain.{Platform}
use golang_videoencoder_api.Machine.{Context, Os, Storage}
use golang_videoencoder_api.Machine.Frame.{OsKeeps, StorageKeeps}
use golang_videoencoder_api.Repository.{JobRepository, VideoRepository}
use golang_videoencoder_api.Repository.Frame.{PlatformKeeps, VideosKeep}
use golang_videoencoder_api.Repository.Laws.{Rows, JobRepositoryLaws}
use golang_videoencoder_api.JobService.{JobService}
use golang_videoencoder_api.Queue.{Amqp, Client}
use golang_videoencoder_api.Queue.Publishing.{publish_json}
use golang_videoencoder_api.Queue.Attempts.{
  Sends, Published, unavailable, sent, gave_up, retried, publish-Published,
}
use golang_videoencoder_api.Processor.{Processor, enabled}
use golang_videoencoder_api.Worker.{
  JobWorkerMessage, video_id_name, output_bucket_path_name, process_payload,
  parse_job_worker_message,
}
use golang_videoencoder_api.Worker.Contract.{marshalled, parsed}
use golang_videoencoder_api.Worker.Jobs.{Worked, process_payload-Worked}
use golang_videoencoder_api.Api.{Server, Publisher, Response, enqueued, new_server}
use golang_videoencoder_api.Api.Handlers.{handle_create_job, find_failed, enqueued_response}
use golang_videoencoder_api.Api.Texts.{Asks-IsUtf8}
use golang_videoencoder_api.Api.JobRequests.{
  Asks, JobRequested, rejected, no_video, published, handle_create_job-JobRequested,
}

-- The answer that a job is queued.
abbrev pub queued_answer : JobWorkerMessage → Response
queued_answer m = record {
  code = 202;
  payload = enqueued m.video_id m.output_bucket_path (bytes "queued");
}

abbrev code_of : Response → ℕ
code_of r = r.code

-- The message that an answer speaks of.
abbrev message_of : Response → JobWorkerMessage
message_of r = elim r.payload [
  | enqueued video_id output_bucket_path status ↦ record {
    video_id = video_id;
    output_bucket_path = output_bucket_path;
  }
  | _ ↦ record { video_id = []; output_bucket_path = [] }
]

not_found_code :
    (e : Error)
    → ((find_failed video_not_found e).code ≡ 404) ⊎ ((find_failed video_not_found e).code ≡ 500)
unfolding find_failed
not_found_code e = elim (Bool-cases (errors_is e video_not_found)) [
  | inl is ↦ rw is (inl refl)
  | inr is ↦ rw is (inr refl)
]

-- The client of the publisher as the `Publisher` of the server.
unfoldable pub client_publisher : {W : Type 0} → Amqp W → Context → Publisher (Client × W)
unfolding publish_json
client_publisher amqp ctx = record {
  publish_json = λ m.
      publish_json amqp ctx video_id_name output_bucket_path_name m.video_id m.output_bucket_path;
}

module _ {W : Type 0} (amqp : Amqp W) (ctx : Context) where
  -- The broker took the body with the last call.
  abbrev pub Took : Bytes → Client × W → Type 0
  Took body after = (before : Client × W) × Sends amqp ctx body before (ok tt) after

  Published-Took :
      (body : Bytes) (s : Client × W) (r : Result (Unit {0})) (after : Client × W)
      → r ≡ ok tt
      → Published amqp ctx body s (r, after)
      → Took body after
  Published-Took body s r after e (unavailable no_channel down) = cc
  Published-Took body s r after e (sent {s1} prepared sends) = (s1, sends)
  Published-Took body s r after e (gave_up prepared sends down) = cc
  Published-Took body s r after e (retried {s3 = s3} prepared sends up again) =
      (s3, subst (λ r. Sends amqp ctx body s3 r after) e again)

  module _ (server : Server (Client × W)) (valid_uuid : Bytes → Bool)
      (configured : server.publisher ≡ client_publisher amqp ctx) where
    -- The request asks for a message that was published.
    record Handed (body : Bytes) (m : JobWorkerMessage) (after : Client × W) : Type 0 where
      asks : Asks server valid_uuid body m
      took : Took (marshalled m) after

    answered-Handed :
        (body : Bytes) (m asked : JobWorkerMessage) (v : Client × W) (r : Result (Unit {0}))
        (after : Client × W)
        → enqueued_response asked r ≡ queued_answer m
        → Asks server valid_uuid body asked
        → server.publisher.publish_json asked v ≡ (r, after)
        → Handed body m after
    unfolding enqueued_response client_publisher publish_json
    answered-Handed body m asked v (err _) after e asks handed =
        absurd (omega (arith, ap code_of e))
    answered-Handed body m asked v (ok _) after e asks handed =
        subst (λ m. Handed body m after) (ap message_of e)
          (record {
            asks = asks;
            took = Published-Took (marshalled asked) v (ok tt) after refl (
                subst (Published amqp ctx (marshalled asked) v)
                  (ap (λ p. p.publish_json asked v) (sym configured) ∙ handed)
                  (publish-Published amqp ctx (marshalled asked) v));
          })

    JobRequested-Handed :
        (body : Bytes) (m : JobWorkerMessage) (s : Client × W) (r : Response) (after : Client × W)
        → r ≡ queued_answer m
        → JobRequested server valid_uuid body s (r, after)
        → Handed body m after
    JobRequested-Handed body m s r after e (rejected (inl blames)) =
        absurd (omega (arith, blames, ap code_of e))
    JobRequested-Handed body m s r after e (rejected (inr blames)) =
        absurd (omega (arith, blames, ap code_of e))
    JobRequested-Handed body m s r after e (no_video {e = failed} asks found) =
        absurd (omega (arith, not_found_code failed, ap code_of e))
    JobRequested-Handed body m s r after e
          (published {m = asked} {r = answer} {v = v} asks found handed) =
        answered-Handed body m asked v answer after e asks handed

module _ {W V : Type 0} (amqp : Amqp W) (ctx : Context) (platform : Platform V) (os : Os V)
    (storage : Storage V) (service : JobService V) (processor : Option (Processor V))
    (rows : V → Rows) where
  -- A body that the broker took, that the worker's parser accepts as this message, and that was handled.
  pub record Delivered (m : JobWorkerMessage) (after : Client × W) (u : V) : Type 0 where
    pub body : Bytes
    pub took : Took amqp ctx body after
    pub understood : parse_job_worker_message body ≡ ok m
    pub worked :
        let (result, v) = process_payload platform os storage service processor body u in
        Worked body (enabled processor) (rows u) (rows v) result

module _ {W V : Type 0} (amqp : Amqp W) (ctx : Context) (valid_uuid : Bytes → Bool)
    (platform : Platform V) (os : Os V) (storage : Storage V) (service : JobService V)
    (jobs : JobRepository V) (videos : VideoRepository V) (processor : Option (Processor V))
    (rows : V → Rows) (jobs_configured : service.job_repository ≡ some jobs)
    (videos_configured : service.video_repository ≡ some videos)
    (served : (p : Processor V) → processor ≡ some p → p.job_service ≡ some service)
    (laws : JobRepositoryLaws jobs rows) (still : PlatformKeeps platform rows)
    (disk : OsKeeps os rows) (cloud : StorageKeeps storage rows)
    (apart : VideosKeep videos rows) where
  Handed-Delivered :
      (server : Server (Client × W)) (configured : server.publisher ≡ client_publisher amqp ctx)
      (body : Bytes) (m : JobWorkerMessage) (after : Client × W) (u : V)
      → Handed amqp ctx server valid_uuid configured body m after
      → Delivered amqp ctx platform os storage service processor rows m after u
  Handed-Delivered server configured body m after u handed =
      let (id, path) = Asks-IsUtf8 server valid_uuid body m handed.asks in
      record {
        body = marshalled m;
        took = handed.took;
        understood = parsed m handed.asks.fit.id_given handed.asks.fit.path_given id path;
        worked =
            process_payload-Worked platform os storage service jobs videos processor rows
              jobs_configured videos_configured served laws still disk cloud apart (marshalled m) u;
      }

  -- A job request from the API to a worker, through the server that `main` makes over the client of the
  -- publisher. If the request is answered with 202 and the echo of a message, then the broker took a
  -- body with the last call of `Publish` before the answer, the worker's parser accepts this body as
  -- exactly that message, and a worker that handles the body, in any world, leaves the table of jobs
  -- as `Worked` says. For the worker the service has both repositories, the processor (if there is
  -- one) uses that service, the job repository keeps its contract, and the platform, disk, storage
  -- and video repository leave the table alone.
  pub handle_create_job-Delivered :
      (api_videos : VideoRepository (Client × W)) (api_jobs : JobService (Client × W))
      (ready : Option (Exec (Client × W) (Unit {0})))
      → let server = new_server api_videos api_jobs (client_publisher amqp ctx) ready in
        (body : Bytes) (s : Client × W) (m : JobWorkerMessage) (after : Client × W) (u : V)
        → handle_create_job server valid_uuid body s ≡ (queued_answer m, after)
        → Delivered amqp ctx platform os storage service processor rows m after u
  unfolding new_server
  handle_create_job-Delivered api_videos api_jobs ready body s m after u answered =
      let server = new_server api_videos api_jobs (client_publisher amqp ctx) ready in
      Handed-Delivered server refl body m after u (
        JobRequested-Handed amqp ctx server valid_uuid refl body m s (queued_answer m) after refl (
          subst (JobRequested server valid_uuid body s) answered
            (handle_create_job-JobRequested server valid_uuid body s)))
