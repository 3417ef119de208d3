-- ===== src/Manager/Draining.antt =====
-- The steps that are left to the stop function of internal/job/manager.go.
use golang_videoencoder_api.Prelude.{
  ℕ, zero, suc, ◌+◌, ◌*◌, ◌<◌, List, [], ◌∷◌, length, length-append, Bool, true, false, Option,
  none, some, ◌≡◌, ◌⊎◌, inl, inr, refl, sym, ap, subst, arith,
}
use golang_videoencoder_api.Worker.{JobWorkerResult}
use golang_videoencoder_api.Manager.Channels.{
  Phase, running, draining, flushing, stopped, messages_closed, results_closed, Hub, Step, enqueue,
  stop_producing, receive, finish, send, log, leave, stop, workers_gone, logger_leaves,
  stop_returns, Run, here, next, Reaches,
}
use golang_videoencoder_api.Manager.Phases.{HubInv, start-HubInv}
use golang_videoencoder_api.Manager.Crew.{Run-HubInv}

abbrev pub phases_left : Phase → ℕ
phases_left running = 3
phases_left draining = 2
phases_left flushing = 1
phases_left stopped = 0

abbrev count {ℓ} : {A : Type ℓ} → Option A → ℕ
count none = 0
count (some _) = 1

abbrev logger_left : Bool → ℕ
logger_left true = 0
logger_left false = 1

abbrev producers_left : Bool → ℕ
producers_left true = 1
producers_left false = 0

module _ {M : Type 0} where
  -- When no message comes any more: each message is received, served, sent and logged, each worker
  -- and the logger return, and the stop function goes through its phases.
  abbrev pub steps_left : Hub M → ℕ
  steps_left s =
      4 * length s.buffer
      + (4 * length s.working
          + (3 * length s.sending
              + (s.waiting
                  + (count s.logging
                      + (phases_left s.phase
                          + (logger_left s.logger_done + producers_left s.producing))))))

module _ {M W : Type 0} (serve : M → W → JobWorkerResult × W) (workers : ℕ) where
  pub Step-steps_left :
      {s : Hub M} {w : W} {t : Hub M} {v : W}
      → Step serve workers s w t v
      → s.producing ≡ false
      → (t.producing ≡ false) × (suc (steps_left t) ≡ steps_left s)
  Step-steps_left (enqueue msg on opened room) quiet = cc
  Step-steps_left (stop_producing on) quiet = cc
  Step-steps_left (receive msg rest others full free) quiet =
      (quiet, omega (arith, ap (length {A = M}) full))
  Step-steps_left (finish before msg after at) quiet = (
    quiet,
    omega (
      arith,
      ap (length {A = M}) at,
      length-append before (msg ∷ after),
      length-append before after,
    ),
  )
  Step-steps_left (send before r after at free opened) quiet = (
    quiet,
    omega (
      arith,
      ap (length {A = JobWorkerResult}) at,
      ap (count {A = JobWorkerResult}) free,
      length-append before (r ∷ after),
      length-append before after,
    ),
  )
  Step-steps_left (log r at) quiet = (quiet, omega (arith, ap (count {A = JobWorkerResult}) at))
  Step-steps_left (leave others free drained shut) quiet = (quiet, omega arith)
  Step-steps_left (stop at) quiet = (quiet, omega (arith, ap phases_left at))
  Step-steps_left (workers_gone at all) quiet = (quiet, omega (arith, ap phases_left at))
  Step-steps_left (logger_leaves shut free on) quiet = (quiet, omega (arith, ap logger_left on))
  Step-steps_left (stop_returns at ended) quiet = (quiet, omega (arith, ap phases_left at))

  Run-steps_left :
      {s : Hub M} {w : W} {n : ℕ} {t : Hub M} {v : W}
      → Run serve workers s w n t v
      → s.producing ≡ false
      → (t.producing ≡ false) × (n + steps_left t ≡ steps_left s)
  Run-steps_left here quiet = (quiet, omega arith)
  Run-steps_left (next run step) quiet =
      let (still, done) = Run-steps_left run quiet in
      let (after, one) = Step-steps_left step still in (after, omega arith)

  -- A state in which some goroutine can go on.
  abbrev pub Moves : Hub M → W → Type 0
  Moves s w = (t : Hub M) × (v : W) × Step serve workers s w t v

  log_or_send :
      (s : Hub M) (w : W) (sending : List JobWorkerResult) (logging : Option JobWorkerResult)
      → s.sending ≡ sending
      → s.logging ≡ logging
      → results_closed s.phase ≡ false
      → 0 < length sending
      → Moves s w
  log_or_send s w sending (some r) e f opened h = (_, _, log r f)
  log_or_send s w [] none e f opened h = elim h [ ]
  log_or_send s w (r ∷ rest) none e f opened h = (_, _, send [] r rest e f opened)

  -- While a worker is left and `ResultChannel` is open, something moves.
  crew-Moves :
      (s : Hub M) (w : W) (buffer working : List M) (waiting : ℕ)
      → s.buffer ≡ buffer
      → s.working ≡ working
      → s.waiting ≡ waiting
      → messages_closed s.phase ≡ true
      → results_closed s.phase ≡ false
      → 0 < waiting + (length working + length s.sending)
      → Moves s w
  crew-Moves s w buffer (msg ∷ rest) waiting e f g shut opened h = (_, _, finish [] msg rest f)
  crew-Moves s w (msg ∷ rest) [] (suc others) e f g shut opened h =
      (_, _, receive msg rest others e g)
  crew-Moves s w [] [] (suc others) e f g shut opened h = (_, _, leave others g e shut)
  crew-Moves s w buffer [] zero e f g shut opened h =
      log_or_send s w s.sending s.logging refl refl opened (omega arith)

  flushing-Moves :
      (s : Hub M) (w : W) (logging : Option JobWorkerResult) (done : Bool)
      → s.phase ≡ flushing
      → s.logging ≡ logging
      → s.logger_done ≡ done
      → Moves s w
  flushing-Moves s w (some r) done e f g = (_, _, log r f)
  flushing-Moves s w none true e f g = (_, _, stop_returns e g)
  flushing-Moves s w none false e f g =
      (_, _, logger_leaves (subst (λ (p : Phase). results_closed p ≡ true) (sym e) refl) f g)

  draining-Moves :
      (s : Hub M) (w : W) (left : ℕ)
      → HubInv workers s
      → s.phase ≡ draining
      → s.waiting + (length s.working + length s.sending) ≡ left
      → Moves s w
  draining-Moves s w zero inv e f = (_, _, workers_gone e (omega (arith, inv.crew)))
  draining-Moves s w (suc left) inv e f =
      crew-Moves s w s.buffer s.working s.waiting refl refl refl
        (subst (λ (p : Phase). messages_closed p ≡ true) (sym e) refl)
        (subst (λ (p : Phase). results_closed p ≡ false) (sym e) refl) (omega arith)

  pub stopped-or-Moves :
      (s : Hub M) (w : W) (p : Phase)
      → HubInv workers s
      → s.phase ≡ p
      → (s.phase ≡ stopped) ⊎ Moves s w
  stopped-or-Moves s w running inv e = inr (_, _, stop e)
  stopped-or-Moves s w draining inv e = inr (draining-Moves s w _ inv e refl)
  stopped-or-Moves s w flushing inv e = inr (flushing-Moves s w _ _ e refl refl)
  stopped-or-Moves s w stopped inv e = inl e

  -- From every state that the manager comes to, once no sender of messages is left: whichever
  -- goroutines go on, each step lowers the number of steps that are left by one, and until the stop
  -- function has returned some goroutine can go on, so that it returns after finitely many steps.
  pub stop_terminates :
      {w : W} {s : Hub M} {v : W}
      → Reaches serve workers w s v
      → s.producing ≡ false
      → (n : ℕ) (t : Hub M) (x : W) → Run serve workers s v n t x
      → (n + steps_left t ≡ steps_left s) × ((t.phase ≡ stopped) ⊎ Moves t x)
  stop_terminates (_, reached) quiet n t x run =
      let inv =
        Run-HubInv serve workers (Run-HubInv serve workers (start-HubInv workers) reached) run in
      let (still, left) = Run-steps_left run quiet in (left, stopped-or-Moves t x t.phase inv refl)
