-- ===== src/Manager/Crew.antt =====
-- The goroutines of internal/job/manager.go in each phase of the stop function.
use golang_videoencoder_api.Prelude.{
  ℕ, ◌<◌, [], ◌∷◌, length, length-append, none, ◌≡◌, inl, inr, refl, ap, arith,
}
use golang_videoencoder_api.Worker.{JobWorkerResult}
use golang_videoencoder_api.Manager.Channels.{
  running, flushing, stopped, Hub, Step, enqueue, stop_producing, receive, finish, send, log, leave,
  stop, workers_gone, logger_leaves, stop_returns, Run, here, next, Reaches,
}
use golang_videoencoder_api.Manager.Phases.{
  HubInv, HubInv-Empty, logger_there, InPhase-leave, InPhase-silent, at_phase, while_open,
  start-HubInv,
}

module _ {M W : Type 0} (serve : M → W → JobWorkerResult × W) (workers : ℕ) where
  pub Step-HubInv :
      {s : Hub M} {w : W} {t : Hub M} {v : W}
      → Step serve workers s w t v
      → HubInv workers s
      → HubInv workers t
  Step-HubInv {s} (enqueue msg on opened room) inv = record {
    crew = inv.crew;
    in_phase = inv.in_phase;
    emptied = inl (while_open workers s inv opened);
    silent = inv.silent;
  }
  Step-HubInv {s} (stop_producing on) inv = record {
    crew = inv.crew;
    in_phase = inv.in_phase;
    emptied = inv.emptied;
    silent = inv.silent;
  }
  Step-HubInv {s} (receive msg rest others full free) inv = record {
    crew = omega (arith, inv.crew);
    in_phase = inv.in_phase;
    emptied = elim inv.emptied [ inl e ↦ inl e | inr e ↦ cc ];
    silent = inv.silent;
  }
  Step-HubInv {s} (finish before msg after at) inv = record {
    crew = omega (
      arith,
      inv.crew,
      ap (length {A = M}) at,
      length-append before (msg ∷ after),
      length-append before after,
    );
    in_phase = inv.in_phase;
    emptied = inv.emptied;
    silent = inv.silent;
  }
  Step-HubInv {s} (send before r after at free opened) inv = record {
    crew = omega (
      arith,
      inv.crew,
      ap (length {A = JobWorkerResult}) at,
      length-append before (r ∷ after),
      length-append before after,
    );
    in_phase = inv.in_phase;
    emptied = inv.emptied;
    silent = inl (logger_there workers s.phase s.returned s.logger_done inv.in_phase opened);
  }
  Step-HubInv {s} (log r at) inv = record {
    crew = inv.crew;
    in_phase = inv.in_phase;
    emptied = inv.emptied;
    silent = inr refl;
  }
  Step-HubInv {s} (leave others free drained shut) inv = record {
    crew = omega (arith, inv.crew);
    in_phase =
        InPhase-leave workers s.phase s.returned s.logger_done inv.in_phase shut
          (omega (arith, inv.crew));
    emptied = inr drained;
    silent = inv.silent;
  }
  Step-HubInv {s} (stop at) inv = record {
    crew = inv.crew;
    in_phase = (at_phase workers s running inv at).1;
    emptied = inv.emptied;
    silent = inv.silent;
  }
  Step-HubInv {s} (workers_gone at all) inv = record {
    crew = inv.crew;
    in_phase = all;
    emptied = inv.emptied;
    silent = inv.silent;
  }
  Step-HubInv {s} (logger_leaves shut free on) inv = record {
    crew = inv.crew;
    in_phase = InPhase-silent workers s.phase s.returned s.logger_done inv.in_phase shut;
    emptied = inv.emptied;
    silent = inr free;
  }
  Step-HubInv {s} (stop_returns at ended) inv = record {
    crew = inv.crew;
    in_phase = (at_phase workers s flushing inv at, ended);
    emptied = inv.emptied;
    silent = inv.silent;
  }

  pub Run-HubInv :
      {s : Hub M} {w : W} {n : ℕ} {t : Hub M} {v : W}
      → HubInv workers s
      → Run serve workers s w n t v
      → HubInv workers t
  Run-HubInv inv here = inv
  Run-HubInv inv (next run step) = Step-HubInv step (Run-HubInv inv run)

  module _ {w : W} {s : Hub M} {v : W} where
    pub Reaches-HubInv : Reaches serve workers w s v → HubInv workers s
    Reaches-HubInv (_, run) = Run-HubInv (start-HubInv workers) run

    -- When the stop function has returned, nothing is left in the channels or with a worker.
    pub stopped-Empty :
        0 < workers
        → s.phase ≡ stopped
        → Reaches serve workers w s v
        → (s.buffer ≡ []) × (s.working ≡ []) × (s.sending ≡ []) × (s.logging ≡ none)
    stopped-Empty some_workers at r = HubInv-Empty workers s some_workers at (Reaches-HubInv r)
