-- ===== src/Examples/Shutdowns.antt =====
-- The end of the service while its one worker is busy.
use golang_videoencoder_api.Prelude.{
  ℕ, suc, ◌+◌, [], ◌∷◌, ◌++◌, List, false, ◌&&◌, none, ◌≡◌, ◌⊎◌, inl, inr, refl, arith,
}
use golang_videoencoder_api.Worker.{JobWorkerResult}
use golang_videoencoder_api.Manager.Channels.{
  messages_closed, enqueue, receive, finish, send, log, leave, stop, workers_gone, logger_leaves,
  stop_returns,
}
use golang_videoencoder_api.Main.Shutdown.{
  finished, Process, launch, work, consumer_returns, consumer_exited, server_stops, consumer_done,
  workers_stopped, publisher_closes, consumer_closes, database_closes, ShutdownRun, here, next,
}
use golang_videoencoder_api.Main.Unwinding.{InOrder, Comes-InOrder, Comes-SendsSafely}
use golang_videoencoder_api.Manager.Phases.{ResultsSafe}
use golang_videoencoder_api.Main.Finishing.{process_left, GoesOn, shutdown_terminates}

-- A worker that counts the messages, and calls that note that they were made.
abbrev counts : ℕ → List ℕ → JobWorkerResult × List ℕ
counts n w = (record { job = none; payload = []; error = [] }, w ++ (n ∷ []))

abbrev notes : ℕ → List ℕ → List ℕ
notes n w = w ++ (n ∷ [])

abbrev msg : ℕ
msg = 5

abbrev ShutdownOf : Process ℕ → List ℕ → ℕ → Process ℕ → List ℕ → Type 0
ShutdownOf = ShutdownRun counts 1 (notes 100) (notes 101) (notes 102)

-- The worker has the message, and the consumer has returned.
abbrev busy : (p : Process ℕ) × (v : List ℕ) × ShutdownOf (launch 1) [] 3 p v
unfolding launch
busy = (
  _,
  _,
  next
      (next (next here (work (enqueue msg refl refl (omega arith)) refl (inl refl)))
        (work (receive msg [] 0 refl refl) refl (inl refl)))
      (consumer_returns refl),
)

-- `main` has returned.
abbrev over : (p : Process ℕ) × (v : List ℕ) × ShutdownOf busy.0 busy.1 15 p v
unfolding busy
over = (
  _,
  _,
  next
      (next
        (next
          (next
            (next
              (next
                (next
                  (next
                    (next
                      (next
                        (next
                          (next
                            (next
                              (next (next here (consumer_exited refl refl))
                                (work (finish [] msg [] refl) refl (inl refl)))
                              (server_stops refl))
                            (consumer_done refl refl))
                          (work (stop refl) refl (inr refl)))
                        (work (send [] _ [] refl refl refl) refl (inl refl)))
                      (work (log _ refl) refl (inl refl)))
                    (work (leave 0 refl refl refl) refl (inl refl)))
                  (work (workers_gone refl refl) refl (inr refl)))
                (work (logger_leaves refl refl refl) refl (inl refl)))
              (work (stop_returns refl refl) refl (inr refl)))
            (workers_stopped refl refl))
          (publisher_closes refl))
        (consumer_closes refl))
      (database_closes refl),
)

both :
    {p : Process ℕ} {w : List ℕ} {q : Process ℕ} {v : List ℕ} {n : ℕ} {r : Process ℕ} {x : List ℕ}
    → (k : ℕ) × ShutdownOf p w k q v
    → ShutdownOf q v n r x
    → (k : ℕ) × ShutdownOf p w k r x
both first here = first
both first (next run step) = let (k, before) = both first run in (suc k, next before step)

closed_in_order : (over.0.stage ≡ finished) × (over.1 ≡ 5 ∷ 100 ∷ 101 ∷ 102 ∷ [])
unfolding over
closed_in_order = (refl, refl)

Comes-InOrder_example : InOrder over.0.stage over.0.hub
Comes-InOrder_example =
    Comes-InOrder counts 1 (notes 100) (notes 101) (notes 102) (omega arith)
      (both (3, busy.2) over.2)

Comes-SendsSafely_example :
    ((over.0.hub.producing && messages_closed over.0.hub.phase) ≡ false) × ResultsSafe 1 over.0.hub
Comes-SendsSafely_example =
    Comes-SendsSafely counts 1 (notes 100) (notes 101) (notes 102) (both (3, busy.2) over.2)

shutdown_terminates_example :
    (15 + process_left over.0 ≡ process_left busy.0)
    × ((over.0.stage ≡ finished)
        ⊎ GoesOn counts 1 (notes 100) (notes 101) (notes 102) over.0 over.1)
unfolding busy
shutdown_terminates_example =
    shutdown_terminates counts 1 (notes 100) (notes 101) (notes 102) (3, busy.2) refl 15 over.0
      over.1 over.2
