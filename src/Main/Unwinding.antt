-- ===== src/Main/Unwinding.antt =====
-- In which order `main` of cmd/main.go ends, and that it does.
use golang_videoencoder_api.Prelude.{
  ℕ, ◌<◌, [], false, ◌&&◌, Bool-cases, none, ◌≡◌, ◌⊎◌, inl, inr, refl, subst, ◌∙◌,
}
use golang_videoencoder_api.Worker.{JobWorkerResult}
use golang_videoencoder_api.Manager.Channels.{
  running, stopped, messages_closed, Hub, stop_producing,
}
use golang_videoencoder_api.Manager.Phases.{
  HubInv, HubInv-Empty, ResultsSafe, HubInv-ResultsSafe, start-HubInv,
}
use golang_videoencoder_api.Manager.Crew.{Step-HubInv}
use golang_videoencoder_api.Main.Shutdown.{
  Stage, serving, cancelled, server_down, unwinding, workers_down, publisher_down, consumer_down,
  finished, Process, launch, ShutdownStep, work, consumer_returns, told, consumer_exited,
  server_stops, consumer_done, workers_stopped, publisher_closes, consumer_closes, database_closes,
  ShutdownRun, here, next, Comes,
}

module _ {M : Type 0} where
  -- The manager in each stage of `main`.
  abbrev pub InStage : Stage → Hub M → Type 0
  InStage serving s = s.phase ≡ running
  InStage cancelled s = s.phase ≡ running
  InStage server_down s = s.phase ≡ running
  InStage unwinding s = s.producing ≡ false
  InStage _ s = (s.phase ≡ stopped) × (s.producing ≡ false)

  -- Before `stopWorkers()` the stop function is not called; in it the consumer has returned; behind it,
  -- when the clients and the database are closed, no message and no result is under way.
  abbrev pub InOrder : Stage → Hub M → Type 0
  InOrder serving s = s.phase ≡ running
  InOrder cancelled s = s.phase ≡ running
  InOrder server_down s = s.phase ≡ running
  InOrder unwinding s = s.producing ≡ false
  InOrder _ s = (s.buffer ≡ []) × (s.working ≡ []) × (s.sending ≡ []) × (s.logging ≡ none)

  InStage-work :
      (at : Stage) (s t : Hub M)
      → InStage at s
      → t.producing ≡ s.producing
      → (t.phase ≡ s.phase) ⊎ (at ≡ unwinding)
      → InStage at t
  InStage-work unwinding s t h same _ = same ∙ h
  InStage-work serving s t h same (inl kept) = kept ∙ h
  InStage-work cancelled s t h same (inl kept) = kept ∙ h
  InStage-work server_down s t h same (inl kept) = kept ∙ h
  InStage-work workers_down s t h same (inl kept) = (kept ∙ h.0, same ∙ h.1)
  InStage-work publisher_down s t h same (inl kept) = (kept ∙ h.0, same ∙ h.1)
  InStage-work consumer_down s t h same (inl kept) = (kept ∙ h.0, same ∙ h.1)
  InStage-work finished s t h same (inl kept) = (kept ∙ h.0, same ∙ h.1)
  InStage-work serving s t h same (inr at) = cc
  InStage-work cancelled s t h same (inr at) = cc
  InStage-work server_down s t h same (inr at) = cc
  InStage-work workers_down s t h same (inr at) = cc
  InStage-work publisher_down s t h same (inr at) = cc
  InStage-work consumer_down s t h same (inr at) = cc
  InStage-work finished s t h same (inr at) = cc

  InStage-quiet :
      (at : Stage) (s : Hub M) → InStage at s → InStage at (record s { producing = false })
  InStage-quiet unwinding s h = refl
  InStage-quiet serving s h = h
  InStage-quiet cancelled s h = h
  InStage-quiet server_down s h = h
  InStage-quiet workers_down s h = (h.0, refl)
  InStage-quiet publisher_down s h = (h.0, refl)
  InStage-quiet consumer_down s h = (h.0, refl)
  InStage-quiet finished s h = (h.0, refl)

  InStage-InOrder :
      (workers : ℕ) (at : Stage) (s : Hub M)
      → 0 < workers
      → HubInv workers s
      → InStage at s
      → InOrder at s
  InStage-InOrder workers serving s given inv h = h
  InStage-InOrder workers cancelled s given inv h = h
  InStage-InOrder workers server_down s given inv h = h
  InStage-InOrder workers unwinding s given inv h = h
  InStage-InOrder workers workers_down s given inv h = HubInv-Empty workers s given h.0 inv
  InStage-InOrder workers publisher_down s given inv h = HubInv-Empty workers s given h.0 inv
  InStage-InOrder workers consumer_down s given inv h = HubInv-Empty workers s given h.0 inv
  InStage-InOrder workers finished s given inv h = HubInv-Empty workers s given h.0 inv

  still_open : (s : Hub M) → s.phase ≡ running → (s.producing && messages_closed s.phase) ≡ false
  still_open s at = elim (Bool-cases s.producing) [ inl e ↦ rw (e, at) refl | inr e ↦ rw e refl ]

  no_sender : (s : Hub M) → s.producing ≡ false → (s.producing && messages_closed s.phase) ≡ false
  no_sender s off = rw off refl

  InStage-open :
      (at : Stage) (s : Hub M) → InStage at s → (s.producing && messages_closed s.phase) ≡ false
  InStage-open serving s h = still_open s h
  InStage-open cancelled s h = still_open s h
  InStage-open server_down s h = still_open s h
  InStage-open unwinding s h = no_sender s h
  InStage-open workers_down s h = no_sender s h.1
  InStage-open publisher_down s h = no_sender s h.1
  InStage-open consumer_down s h = no_sender s h.1
  InStage-open finished s h = no_sender s h.1

  pub record ProcessInv (workers : ℕ) (p : Process M) : Type 0 where
    pub hub_inv : HubInv workers p.hub
    pub in_stage : InStage p.stage p.hub

  pub launch-ProcessInv : (workers : ℕ) → ProcessInv workers (launch workers)
  unfolding launch
  launch-ProcessInv workers = record { hub_inv = start-HubInv workers; in_stage = refl }

  -- `main` goes on to a stage that asks no more of the manager.
  advance :
      (workers : ℕ) (p : Process M) (from to : Stage)
      → ProcessInv workers p
      → p.stage ≡ from
      → (InStage from p.hub → InStage to p.hub)
      → ProcessInv workers (record p { stage = to })
  advance workers p from to inv at h = record {
    hub_inv = inv.hub_inv;
    in_stage = h (subst (λ (x : Stage). InStage x p.hub) at inv.in_stage);
  }

module _ {M W : Type 0} (serve : M → W → JobWorkerResult × W) (workers : ℕ)
    (close_publisher close_consumer close_database : W → W) where
  Step-ProcessInv :
      {p : Process M} {w : W} {q : Process M} {v : W}
      → ShutdownStep serve workers close_publisher close_consumer close_database p w q v
      → ProcessInv workers p
      → ProcessInv workers q
  Step-ProcessInv {p} (work {t} step same kept) inv = record {
    hub_inv = Step-HubInv serve workers step inv.hub_inv;
    in_stage = InStage-work p.stage p.hub t inv.in_stage same kept;
  }
  Step-ProcessInv {p} {w} (consumer_returns on) inv = record {
    hub_inv = Step-HubInv serve workers {w = w} (stop_producing on) inv.hub_inv;
    in_stage = InStage-quiet p.stage p.hub inv.in_stage;
  }
  Step-ProcessInv {p} (told at) inv = advance workers p serving cancelled inv at (λ h. h)
  Step-ProcessInv {p} (consumer_exited at off) inv =
      advance workers p serving cancelled inv at (λ h. h)
  Step-ProcessInv {p} (server_stops at) inv =
      advance workers p cancelled server_down inv at (λ h. h)
  Step-ProcessInv {p} (consumer_done at off) inv =
      advance workers p server_down unwinding inv at (λ _. off)
  Step-ProcessInv {p} (workers_stopped at ended) inv =
      advance workers p unwinding workers_down inv at (λ off. (ended, off))
  Step-ProcessInv {p} (publisher_closes at) inv =
      advance workers p workers_down publisher_down inv at (λ h. h)
  Step-ProcessInv {p} (consumer_closes at) inv =
      advance workers p publisher_down consumer_down inv at (λ h. h)
  Step-ProcessInv {p} (database_closes at) inv =
      advance workers p consumer_down finished inv at (λ h. h)

  pub Run-ProcessInv :
      {p : Process M} {w : W} {n : ℕ} {q : Process M} {v : W}
      → ProcessInv workers p
      → ShutdownRun serve workers close_publisher close_consumer close_database p w n q v
      → ProcessInv workers q
  Run-ProcessInv inv here = inv
  Run-ProcessInv inv (next run step) = Step-ProcessInv step (Run-ProcessInv inv run)

  -- In every state that the process comes to, with at least one worker: while `main` has not come to
  -- `stopWorkers()`, the stop function is not called and both channels are open; when it is there, the
  -- consumer has returned; and when it closes the publisher, the consumer's client and the database,
  -- no message waits, no worker has one, and no result is on its way to the log.
  pub Comes-InOrder :
      {w : W} {p : Process M} {v : W}
      → 0 < workers
      → Comes serve workers close_publisher close_consumer close_database w p v
      → InOrder p.stage p.hub
  Comes-InOrder {p = p} some_workers (_, run) =
      let inv = Run-ProcessInv (launch-ProcessInv workers) run in
      InStage-InOrder workers p.stage p.hub some_workers inv.hub_inv inv.in_stage

  -- In every state that the process comes to: while the consumer of the queue, the only sender of
  -- messages, has not returned, `MessageChannel` is open; and `ResultChannel` is open, or every worker has
  -- returned and no result is left to send. The stop function itself closes `MessageChannel` whoever may
  -- still send; that nobody does follows from where `main` calls it.
  pub Comes-SendsSafely :
      {w : W} {p : Process M} {v : W}
      → Comes serve workers close_publisher close_consumer close_database w p v
      → ((p.hub.producing && messages_closed p.hub.phase) ≡ false) × ResultsSafe workers p.hub
  Comes-SendsSafely {p = p} (_, run) =
      let inv = Run-ProcessInv (launch-ProcessInv workers) run in
      (InStage-open p.stage p.hub inv.in_stage, HubInv-ResultsSafe workers p.hub inv.hub_inv)
