-- ===== src/Worker.antt =====
-- internal/job/worker.go, with the types `Acknowledger` and `Message` of internal/job/manager.go.
pub mod Settlement
pub mod Jobs
pub mod Contract
use golang_videoencoder_api.Prelude.{
  Bytes, bytes, is_empty, if◌then◌else◌, List, [], ◌∷◌, Bool, false, Option, none, some,
}
use golang_videoencoder_api.Result.{Error, Result, ok, err, text, message}
use golang_videoencoder_api.Exec.{Exec}
use golang_videoencoder_api.Json.Structs.{unmarshal}
use golang_videoencoder_api.Domain.{Job, Platform}
use golang_videoencoder_api.Machine.{Os, Storage}
use golang_videoencoder_api.JobService.{JobService, status_completed, create_pending_job}
use golang_videoencoder_api.Processor.{Processor, enabled, run}

-- `Acknowledger`
pub record Acknowledger (W : Type 0) : Type 0 where
  pub ack : Exec W (Unit {0})
  pub nack : Bool → Exec W (Unit {0})

-- `Message`; the acknowledger is nil for messages of the process itself.
pub record Message (W : Type 0) : Type 0 where
  pub body : Bytes
  pub ack : Option (Acknowledger W)

-- `JobWorkerMessage`
pub record JobWorkerMessage : Type 0 where
  pub video_id : Bytes
  pub output_bucket_path : Bytes

-- `JobWorkerResult`
pub record JobWorkerResult : Type 0 where
  pub job : Option Job
  pub payload : Bytes
  pub error : Bytes

abbrev pub video_id_name : Bytes
video_id_name = bytes "video_id"

abbrev pub output_bucket_path_name : Bytes
output_bucket_path_name = bytes "output_bucket_path"

-- The checks of `parseJobWorkerMessage` behind the decoding.
unfoldable pub validate_message : Result (Bytes × Bytes) → Result JobWorkerMessage
validate_message (err e) = err e
validate_message (ok (video_id, output_bucket_path)) =
    if is_empty video_id
    then err (text (bytes "video_id is required"))
    else if is_empty output_bucket_path
    then err (text (bytes "output_bucket_path is required"))
    else ok (record { video_id = video_id; output_bucket_path = output_bucket_path })

-- `parseJobWorkerMessage`
unfoldable pub parse_job_worker_message : Bytes → Result JobWorkerMessage
unfolding validate_message
parse_job_worker_message payload =
    validate_message (unmarshal video_id_name output_bucket_path_name payload)

abbrev failed_with : Bytes → Option Job → Error → JobWorkerResult
failed_with payload job e = record { job = job; payload = payload; error = message e }

-- `acknowledge`; errors of the two calls are only logged.
unfoldable pub settle : {W : Type 0} → Acknowledger W → Bytes → W → W
settle a error w = if is_empty error then (a.ack w).1 else (a.nack false w).1

unfoldable pub acknowledge : {W : Type 0} → Option (Acknowledger W) → JobWorkerResult → W → W
unfolding settle
acknowledge none result w = w
acknowledge (some a) result w = settle a result.error w

-- The result of a run: the job that the result shares with `Run` is completed in memory only.
unfoldable pub after_run : Bytes → Job → Result (Unit {0}) → JobWorkerResult
after_run payload job (err e) = failed_with payload (some job) e
after_run payload job (ok _) = record {
  job = some (record job { status = status_completed });
  payload = payload;
  error = [];
}

module _ {W : Type 0} (os : Os W) (storage : Storage W) where
  unfoldable pub run_enabled : Bytes → Option (Processor W) → Job → W → JobWorkerResult × W
  run_enabled payload none job w = (record { job = some job; payload = payload; error = [] }, w)
  run_enabled payload (some p) job w =
      let (r, w') = run os storage p job w in (after_run payload job r, w')

  -- The part of `processPayload` behind the creation of the job.
  unfoldable pub process_created :
      Bytes → Option (Processor W) → Result Job → W → JobWorkerResult × W
  process_created payload processor (err e) w = (failed_with payload none e, w)
  process_created payload processor (ok job) w =
      if enabled processor
      then run_enabled payload processor job w
      else (record { job = some job; payload = payload; error = [] }, w)

module _ {W : Type 0} (platform : Platform W) (os : Os W) (storage : Storage W) where
  unfoldable pub process_message :
      JobService W
      → Option (Processor W)
      → Bytes
      → Result JobWorkerMessage
      → W
      → JobWorkerResult × W
  process_message service processor payload (err e) w = (failed_with payload none e, w)
  process_message service processor payload (ok m) w =
      let (created, w') = create_pending_job service platform m.video_id m.output_bucket_path w in
      process_created os storage payload processor created w'

  -- `processPayload`
  unfoldable pub process_payload :
      JobService W → Option (Processor W) → Bytes → W → JobWorkerResult × W
  process_payload service processor payload w =
      process_message service processor payload (parse_job_worker_message payload) w

  -- One round of the loop of `JobWorker`.
  unfoldable pub work : JobService W → Option (Processor W) → Message W → W → JobWorkerResult × W
  work service processor msg w =
      let (result, w') = process_payload service processor msg.body w in
      (result, acknowledge msg.ack result w')

  -- `JobWorker`: the messages that this worker receives until the channel closes, and the results
  -- that it sends.
  unfoldable pub job_worker :
      JobService W → Option (Processor W) → List (Message W) → W → List JobWorkerResult × W
  job_worker service processor [] w = ([], w)
  job_worker service processor (msg ∷ rest) w =
      let (result, w1) = work service processor msg w in
      let (results, w2) = job_worker service processor rest w1 in (result ∷ results, w2)
