-- ===== src/Main/Finishing.antt =====
-- The steps that are left to `main` of cmd/main.go when the consumer of the queue has returned.
use golang_videoencoder_api.Prelude.{
  ℕ, suc, ◌+◌, false, ◌≡◌, ◌⊎◌, inl, inr, refl, sym, ap, ◌∙◌, arith,
}
use golang_videoencoder_api.Worker.{JobWorkerResult}
use golang_videoencoder_api.Manager.Channels.{stopped}
use golang_videoencoder_api.Manager.Draining.{steps_left, Moves, Step-steps_left, stopped-or-Moves}
use golang_videoencoder_api.Main.Shutdown.{
  Stage, serving, cancelled, server_down, unwinding, workers_down, publisher_down, consumer_down,
  finished, Process, ShutdownStep, work, consumer_returns, told, consumer_exited, server_stops,
  consumer_done, workers_stopped, publisher_closes, consumer_closes, database_closes, ShutdownRun,
  here, next, Comes,
}
use golang_videoencoder_api.Main.Unwinding.{ProcessInv, launch-ProcessInv, Run-ProcessInv}

abbrev pub stages_left : Stage → ℕ
stages_left serving = 7
stages_left cancelled = 6
stages_left server_down = 5
stages_left unwinding = 4
stages_left workers_down = 3
stages_left publisher_down = 2
stages_left consumer_down = 1
stages_left finished = 0

-- The steps of `main`, and those of the goroutines of the manager.
abbrev pub process_left : {M : Type 0} → Process M → ℕ
process_left p = stages_left p.stage + steps_left p.hub

module _ {M W : Type 0} (serve : M → W → JobWorkerResult × W) (workers : ℕ)
    (close_publisher close_consumer close_database : W → W) where
  -- A state in which `main` or some goroutine can go on.
  abbrev pub GoesOn : Process M → W → Type 0
  GoesOn p w =
      (q : Process M) × (v : W) × ShutdownStep serve workers close_publisher close_consumer
        close_database p w q v

  ShutdownStep-process_left :
      {p : Process M} {w : W} {q : Process M} {v : W}
      → ShutdownStep serve workers close_publisher close_consumer close_database p w q v
      → p.hub.producing ≡ false
      → (q.hub.producing ≡ false) × (suc (process_left q) ≡ process_left p)
  ShutdownStep-process_left (work step same kept) quiet =
      let (still, one) = Step-steps_left serve workers step quiet in (still, omega arith)
  ShutdownStep-process_left (consumer_returns on) quiet = cc
  ShutdownStep-process_left (told at) quiet = (quiet, omega (arith, ap stages_left at))
  ShutdownStep-process_left (consumer_exited at off) quiet =
      (quiet, omega (arith, ap stages_left at))
  ShutdownStep-process_left (server_stops at) quiet = (quiet, omega (arith, ap stages_left at))
  ShutdownStep-process_left (consumer_done at off) quiet = (quiet, omega (arith, ap stages_left at))
  ShutdownStep-process_left (workers_stopped at ended) quiet =
      (quiet, omega (arith, ap stages_left at))
  ShutdownStep-process_left (publisher_closes at) quiet = (quiet, omega (arith, ap stages_left at))
  ShutdownStep-process_left (consumer_closes at) quiet = (quiet, omega (arith, ap stages_left at))
  ShutdownStep-process_left (database_closes at) quiet = (quiet, omega (arith, ap stages_left at))

  ShutdownRun-process_left :
      {p : Process M} {w : W} {n : ℕ} {q : Process M} {v : W}
      → ShutdownRun serve workers close_publisher close_consumer close_database p w n q v
      → p.hub.producing ≡ false
      → (q.hub.producing ≡ false) × (n + process_left q ≡ process_left p)
  ShutdownRun-process_left here quiet = (quiet, omega arith)
  ShutdownRun-process_left (next run step) quiet =
      let (still, done) = ShutdownRun-process_left run quiet in
      let (after, one) = ShutdownStep-process_left step still in (after, omega arith)

  unwinding-GoesOn :
      (p : Process M) (w : W)
      → p.stage ≡ unwinding
      → p.hub.producing ≡ false
      → (p.hub.phase ≡ stopped) ⊎ Moves serve workers p.hub w
      → GoesOn p w
  unwinding-GoesOn p w at quiet (inl ended) = (_, _, workers_stopped at ended)
  unwinding-GoesOn p w at quiet (inr (t, v, step)) =
      let (still, _) = Step-steps_left serve workers step quiet in
      (_, _, work step (still ∙ sym quiet) (inr at))

  finished-or-GoesOn :
      (p : Process M) (w : W) (stage : Stage)
      → ProcessInv workers p
      → p.stage ≡ stage
      → p.hub.producing ≡ false
      → (p.stage ≡ finished) ⊎ GoesOn p w
  finished-or-GoesOn p w serving inv at quiet = inr (_, _, consumer_exited at quiet)
  finished-or-GoesOn p w cancelled inv at quiet = inr (_, _, server_stops at)
  finished-or-GoesOn p w server_down inv at quiet = inr (_, _, consumer_done at quiet)
  finished-or-GoesOn p w unwinding inv at quiet = inr (
      unwinding-GoesOn p w at quiet
        (stopped-or-Moves serve workers p.hub w p.hub.phase inv.hub_inv refl))
  finished-or-GoesOn p w workers_down inv at quiet = inr (_, _, publisher_closes at)
  finished-or-GoesOn p w publisher_down inv at quiet = inr (_, _, consumer_closes at)
  finished-or-GoesOn p w consumer_down inv at quiet = inr (_, _, database_closes at)
  finished-or-GoesOn p w finished inv at quiet = inl at

  -- From every state that the process comes to, once the consumer of the queue has returned: whichever
  -- goroutines go on, each step lowers the number of steps that are left by one, and until `main` has
  -- made its last deferred call it or a goroutine can go on, so that it ends after finitely many steps.
  pub shutdown_terminates :
      {w : W} {p : Process M} {v : W}
      → Comes serve workers close_publisher close_consumer close_database w p v
      → p.hub.producing ≡ false
      → (n : ℕ) (q : Process M) (x : W)
      → ShutdownRun serve workers close_publisher close_consumer close_database p v n q x
      → (n + process_left q ≡ process_left p) × ((q.stage ≡ finished) ⊎ GoesOn q x)
  shutdown_terminates (_, reached) quiet n q x run =
      let inv =
        Run-ProcessInv serve workers close_publisher close_consumer close_database
          (Run-ProcessInv serve workers close_publisher close_consumer close_database
            (launch-ProcessInv workers) reached)
          run in
      let (still, left) = ShutdownRun-process_left run quiet in
      (left, finished-or-GoesOn q x q.stage inv refl still)
