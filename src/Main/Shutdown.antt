-- ===== src/Main/Shutdown.antt =====
-- The end of `main` in cmd/main.go, from its `select` to the last of its deferred calls, beside the
-- goroutines of the manager of internal/job.
use golang_videoencoder_api.Prelude.{ℕ, zero, suc, true, false, ◌≡◌, ◌⊎◌}
use golang_videoencoder_api.Worker.{JobWorkerResult}
use golang_videoencoder_api.Manager.Channels.{stopped, Hub, start, Step}

-- Where `main` is: at its `select`; at `httpServer.Shutdown`, `cancel()` called; at `<-consumerDone`;
-- at `stopWorkers()`, the first deferred call that waits; at `pub.Close()`; at `q.Close()`; at
-- `sqlDB.Close()`; returned.
pub data Stage : Type 0 where
  serving cancelled server_down unwinding workers_down publisher_down consumer_down finished : Stage

-- `main` and the goroutines of the manager; the consumer of the queue has not returned while
-- `hub.producing`.
pub record Process (M : Type 0) : Type 0 where
  pub stage : Stage
  pub hub : Hub M

-- What `main` is at when it has started everything.
unfoldable pub launch : {M : Type 0} → ℕ → Process M
unfolding start
launch workers = record { stage = serving; hub = start workers }

-- One step of `main` or of a goroutine.
module _ {M W : Type 0} (serve : M → W → JobWorkerResult × W) (workers : ℕ)
    (close_publisher close_consumer close_database : W → W) where
  pub data ShutdownStep (p : Process M) (w : W) : Process M → W → Type 0 where
    -- A worker, the logger or a sender goes on; the stop function does so while `main` is in it.
    work :
        {t : Hub M} {v : W}
        → Step serve workers p.hub w t v
        → t.producing ≡ p.hub.producing
        → (t.phase ≡ p.hub.phase) ⊎ (p.stage ≡ unwinding)
        → ShutdownStep p w (record p { hub = t }) v
    -- `RunQueueConsumer` returns.
    consumer_returns :
        p.hub.producing ≡ true
        → ShutdownStep p w (record p { hub = record p.hub { producing = false } }) w
    -- The cases of the `select`: a signal or the end of the server; the end of the consumer.
    told : p.stage ≡ serving → ShutdownStep p w (record p { stage = cancelled }) w
    consumer_exited :
        p.stage ≡ serving
        → p.hub.producing ≡ false
        → ShutdownStep p w (record p { stage = cancelled }) w
    server_stops : p.stage ≡ cancelled → ShutdownStep p w (record p { stage = server_down }) w
    consumer_done :
        p.stage ≡ server_down
        → p.hub.producing ≡ false
        → ShutdownStep p w (record p { stage = unwinding }) w
    -- The deferred calls, last one first.
    workers_stopped :
        p.stage ≡ unwinding
        → p.hub.phase ≡ stopped
        → ShutdownStep p w (record p { stage = workers_down }) w
    publisher_closes :
        p.stage ≡ workers_down
        → ShutdownStep p w (record p { stage = publisher_down }) (close_publisher w)
    consumer_closes :
        p.stage ≡ publisher_down
        → ShutdownStep p w (record p { stage = consumer_down }) (close_consumer w)
    database_closes :
        p.stage ≡ consumer_down
        → ShutdownStep p w (record p { stage = finished }) (close_database w)

  -- So many steps.
  pub data ShutdownRun (p : Process M) (w : W) : ℕ → Process M → W → Type 0 where
    here : ShutdownRun p w zero p w
    next :
        {n : ℕ} {q r : Process M} {v x : W}
        → ShutdownRun p w n q v
        → ShutdownStep q v r x
        → ShutdownRun p w (suc n) r x

  -- Started on a world, the process comes to this state and this world.
  abbrev pub Comes : W → Process M → W → Type 0
  Comes w p v = (n : ℕ) × ShutdownRun (launch workers) w n p v
