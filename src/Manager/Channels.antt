-- ===== src/Manager/Channels.antt =====
-- The channels of internal/job/manager.go: what `Start` starts, `Enqueue`, and the stop function.
use golang_videoencoder_api.Prelude.{
  ℕ, zero, suc, ◌<◌, Bytes, is_empty, List, [], ◌∷◌, ◌++◌, length, Bool, true, false, Option, none,
  some, ◌≡◌, if◌then◌else◌,
}
use golang_videoencoder_api.Domain.{Job}
use golang_videoencoder_api.Worker.{JobWorkerResult}

-- How far the stop function is: not called; at `wg.Wait()`, `MessageChannel` closed; at `<-done`,
-- `ResultChannel` closed too; returned.
pub data Phase : Type 0 where
  running draining flushing stopped : Phase

abbrev pub messages_closed : Phase → Bool
messages_closed running = false
messages_closed draining = true
messages_closed flushing = true
messages_closed stopped = true

abbrev pub results_closed : Phase → Bool
results_closed running = false
results_closed draining = false
results_closed flushing = true
results_closed stopped = true

-- A line of the log: an error and a payload, or the identity, video and status of a job.
pub data Line : Type 0 where
  worker_failed : (error payload : Bytes) → Line
  job_processed : (id video_id status : Bytes) → Line

unfoldable pub job_line : Option Job → List Line
job_line none = []
job_line (some job) = job_processed job.id job.video_id job.status ∷ []

-- The lines of the log for a result.
unfoldable pub result_lines : JobWorkerResult → List Line
unfolding job_line
result_lines r = if is_empty r.error then job_line r.job else worker_failed r.error r.payload ∷ []

-- The goroutines around the two channels. A worker waits for a message, works on one, waits to send
-- a result, or has returned. `producing` says whether a sender of messages is left: the consumer of
-- the queue, or a caller of `Enqueue`. `accepted` holds the messages that were sent, in their order.
pub record Hub (M : Type 0) : Type 0 where
  pub buffer : List M
  pub producing : Bool
  pub waiting : ℕ
  pub working : List M
  pub sending : List JobWorkerResult
  pub returned : ℕ
  pub logging : Option JobWorkerResult
  pub logger_done : Bool
  pub log : List Line
  pub phase : Phase
  pub accepted : List M

-- `Start`: so many workers, and the loop that logs the results.
unfoldable pub start : {M : Type 0} → ℕ → Hub M
start workers = record {
  buffer = [];
  producing = true;
  waiting = workers;
  working = [];
  sending = [];
  returned = 0;
  logging = none;
  logger_done = false;
  log = [];
  phase = running;
  accepted = [];
}

-- The messages of a list, one behind the other.
module _ {M W : Type 0} (serve : M → W → JobWorkerResult × W) where
  unfoldable pub serve_all : List M → W → List JobWorkerResult × W
  serve_all [] w = ([], w)
  serve_all (msg ∷ rest) w =
      let (r, w1) = serve msg w in let (rs, w2) = serve_all rest w1 in (r ∷ rs, w2)

-- One step of one goroutine, with so many workers and so many places in `MessageChannel`, over any
-- way to serve a message, which acts on the world.
module _ {M W : Type 0} (serve : M → W → JobWorkerResult × W) (workers : ℕ) where
  pub data Step (s : Hub M) (w : W) : Hub M → W → Type 0 where
    -- A sender puts a message into the channel, where there is room and it is open. At a closed channel
    -- it panics, which is no step.
    enqueue :
        (msg : M)
        → s.producing ≡ true
        → messages_closed s.phase ≡ false
        → length s.buffer < workers
        → Step s w
            (record s { buffer = s.buffer ++ (msg ∷ []); accepted = s.accepted ++ (msg ∷ []) })
            w
    stop_producing : s.producing ≡ true → Step s w (record s { producing = false }) w
    -- A worker receives a message, serves it, and sends the result to the logger.
    receive :
        (msg : M) (rest : List M) (others : ℕ)
        → s.buffer ≡ msg ∷ rest
        → s.waiting ≡ suc others
        → Step s w (record s { buffer = rest; waiting = others; working = msg ∷ s.working }) w
    finish :
        (before : List M) (msg : M) (after : List M)
        → s.working ≡ before ++ (msg ∷ after)
        → Step s w
            (record s { working = before ++ after; sending = (serve msg w).0 ∷ s.sending })
            (serve msg w).1
    send :
        (before : List JobWorkerResult) (r : JobWorkerResult) (after : List JobWorkerResult)
        → s.sending ≡ before ++ (r ∷ after)
        → s.logging ≡ none
        → results_closed s.phase ≡ false
        → Step s w
            (record s { sending = before ++ after; logging = some r; waiting = suc s.waiting })
            w
    -- The logger writes the lines of a result.
    log :
        (r : JobWorkerResult)
        → s.logging ≡ some r
        → Step s w (record s { logging = none; log = s.log ++ result_lines r }) w
    -- A worker returns when the channel is closed and empty.
    leave :
        (others : ℕ)
        → s.waiting ≡ suc others
        → s.buffer ≡ []
        → messages_closed s.phase ≡ true
        → Step s w (record s { waiting = others; returned = suc s.returned }) w
    -- The stop function: `close(m.MessageChannel)`; `wg.Wait()` and `close(m.ResultChannel)`; the end
    -- of the logger; `<-done`.
    stop : s.phase ≡ running → Step s w (record s { phase = draining }) w
    workers_gone :
        s.phase ≡ draining → s.returned ≡ workers → Step s w (record s { phase = flushing }) w
    logger_leaves :
        results_closed s.phase ≡ true
        → s.logging ≡ none
        → s.logger_done ≡ false
        → Step s w (record s { logger_done = true }) w
    stop_returns :
        s.phase ≡ flushing → s.logger_done ≡ true → Step s w (record s { phase = stopped }) w

  -- So many steps.
  pub data Run (s : Hub M) (w : W) : ℕ → Hub M → W → Type 0 where
    here : Run s w zero s w
    next : {n : ℕ} {t u : Hub M} {v x : W} → Run s w n t v → Step t v u x → Run s w (suc n) u x

  -- The manager, started on a world, comes to this state and this world.
  abbrev pub Reaches : W → Hub M → W → Type 0
  Reaches w t v = (n : ℕ) × Run (start workers) w n t v
