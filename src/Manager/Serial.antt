-- ===== src/Manager/Serial.antt =====
-- The messages that the goroutines of internal/job/manager.go serve, as one list behind one another.
use mathlib.Core.List.{Perm, perm_middle}
use mathlib.Core.List.Perm
use golang_videoencoder_api.Prelude.{
  ℕ, ◌<◌, List, [], ◌∷◌, ◌++◌, append-nil, append_assoc, Option, none, some, ◌≡◌, refl, subst,
  subst₂,
}
use golang_videoencoder_api.Worker.{JobWorkerResult}
use golang_videoencoder_api.Manager.Channels.{
  stopped, Line, result_lines, Hub, start, Step, enqueue, stop_producing, receive, finish, send,
  log, leave, stop, workers_gone, logger_leaves, stop_returns, Run, here, next, Reaches, serve_all,
}
use golang_videoencoder_api.Manager.Crew.{stopped-Empty}
use golang_videoencoder_api.Manager.Perms.{perm_taken, perm_done, perm_new}

abbrev pub lines : List JobWorkerResult → List Line
lines [] = []
lines (r ∷ rs) = result_lines r ++ lines rs

pub lines-append : (rs qs : List JobWorkerResult) → lines (rs ++ qs) ≡ lines rs ++ lines qs
lines-append [] qs = refl
lines-append (r ∷ rs) qs = rw (lines-append rs qs, append_assoc) refl

abbrev pub held : Option JobWorkerResult → List JobWorkerResult
held none = []
held (some r) = r ∷ []

module _ {M W : Type 0} (serve : M → W → JobWorkerResult × W) where
  pub serve_all-snoc :
      (order : List M) (msg : M) (w v : W) (results : List JobWorkerResult)
      → serve_all serve order w ≡ (results, v)
      → serve_all serve (order ++ (msg ∷ [])) w
        ≡ (results ++ ((serve msg v).0 ∷ []), (serve msg v).1)
  unfolding serve_all
  serve_all-snoc [] msg w v results e =
      let same : v ≡ w = cc in let none_yet : results ≡ [] = cc in rw (same, none_yet) refl
  serve_all-snoc (m ∷ order) msg w v results e =
      let (r, w1) = serve m w in
      let (rs, w2) = serve_all serve order w1 in
      let later = serve_all-snoc order msg w1 w2 rs refl in
      let same : v ≡ w2 = cc in let made : results ≡ r ∷ rs = cc in rw (same, made, later) refl

  -- The messages that were served, in their order, and the results that the logger has had.
  pub record Served (w : W) (accepted buffer working : List M) (sending : List JobWorkerResult)
      (logging : Option JobWorkerResult) (logs : List Line) (v : W) : Type 0 where
    pub order : List M
    pub results : List JobWorkerResult
    pub heard : List JobWorkerResult
    pub ran : serve_all serve order w ≡ (results, v)
    pub took : Perm (order ++ (working ++ buffer)) accepted
    pub told : Perm (heard ++ (held logging ++ sending)) results
    pub logged : logs ≡ lines heard

  abbrev pub IsSerial : W → Hub M → W → Type 0
  IsSerial w s v = Served w s.accepted s.buffer s.working s.sending s.logging s.log v

  start-IsSerial : (workers : ℕ) (w : W) → IsSerial w (start workers) w
  unfolding start serve_all
  start-IsSerial workers w = record {
    order = [];
    results = [];
    heard = [];
    ran = refl;
    took = Perm.refl [];
    told = Perm.refl [];
    logged = refl;
  }

module _ {M W : Type 0} (serve : M → W → JobWorkerResult × W) (workers : ℕ) (w : W) where
  Step-IsSerial :
      {s : Hub M} {v : W} {t : Hub M} {x : W}
      → Step serve workers s v t x
      → IsSerial serve w s v
      → IsSerial serve w t x
  Step-IsSerial {s} (enqueue msg on opened room) i = record {
    order = i.order;
    results = i.results;
    heard = i.heard;
    ran = i.ran;
    took =
        rw
          (
            ← append_assoc s.working s.buffer (msg ∷ []),
            ← append_assoc i.order (s.working ++ s.buffer) (msg ∷ []),
          )
          (Perm.append_right (msg ∷ []) i.took);
    told = i.told;
    logged = i.logged;
  }
  Step-IsSerial {s} (receive msg rest others full free) i = record {
    order = i.order;
    results = i.results;
    heard = i.heard;
    ran = i.ran;
    took = Perm.trans (perm_taken i.order s.working rest s.buffer msg full) i.took;
    told = i.told;
    logged = i.logged;
  }
  Step-IsSerial {s} {v} (finish before msg after at) i = record {
    order = i.order ++ (msg ∷ []);
    results = i.results ++ ((serve msg v).0 ∷ []);
    heard = i.heard;
    ran = serve_all-snoc serve i.order msg w v i.results i.ran;
    took = Perm.trans (perm_done i.order s.working before after s.buffer msg at) i.took;
    told = rw (← append_assoc i.heard (held s.logging) ((serve msg v).0 ∷ s.sending)) (
        perm_new (i.heard ++ held s.logging) s.sending i.results (serve msg v).0
          (rw (append_assoc) i.told));
    logged = i.logged;
  }
  Step-IsSerial {s} (send before r after at free opened) i = record {
    order = i.order;
    results = i.results;
    heard = i.heard;
    ran = i.ran;
    took = i.took;
    told = Perm.trans (Perm.append_left i.heard (Perm.symm (perm_middle before after))) (
        subst₂
          (λ (o : Option JobWorkerResult) (l : List JobWorkerResult).
            Perm (i.heard ++ (held o ++ l)) i.results)
          free at i.told);
    logged = i.logged;
  }
  Step-IsSerial {s} (log r at) i = record {
    order = i.order;
    results = i.results;
    heard = i.heard ++ (r ∷ []);
    ran = i.ran;
    took = i.took;
    told = rw append_assoc (
        subst (λ (o : Option JobWorkerResult). Perm (i.heard ++ (held o ++ s.sending)) i.results) at
          i.told);
    logged = rw (lines-append, i.logged, append-nil) refl;
  }
  Step-IsSerial (stop_producing on) i = i
  Step-IsSerial (leave others free drained shut) i = i
  Step-IsSerial (stop at) i = i
  Step-IsSerial (workers_gone at all) i = i
  Step-IsSerial (logger_leaves shut free on) i = i
  Step-IsSerial (stop_returns at ended) i = i

  Run-IsSerial :
      {s : Hub M} {v : W} {n : ℕ} {t : Hub M} {x : W}
      → IsSerial serve w s v
      → Run serve workers s v n t x
      → IsSerial serve w t x
  Run-IsSerial i here = i
  Run-IsSerial i (next run step) = Step-IsSerial step (Run-IsSerial i run)

  pub Reaches-IsSerial : {s : Hub M} {v : W} → Reaches serve workers w s v → IsSerial serve w s v
  Reaches-IsSerial (_, run) = Run-IsSerial (start-IsSerial serve workers w) run

-- The messages that were served, with the results and the log.
pub record Drained {M W : Type 0} (serve : M → W → JobWorkerResult × W) (w : W) (accepted : List M)
    (logs : List Line) (v : W) : Type 0 where
  pub order : List M
  pub results : List JobWorkerResult
  pub heard : List JobWorkerResult
  pub ran : serve_all serve order w ≡ (results, v)
  pub took : Perm order accepted
  pub told : Perm heard results
  pub logged : logs ≡ lines heard

module _ {M W : Type 0} (serve : M → W → JobWorkerResult × W) (workers : ℕ) where
  -- What the manager has done when the stop function has returned, where it has at least one worker:
  -- whatever the goroutines did between, it was to serve, one behind the other and in some order,
  -- every message that was accepted exactly once, and the log has the lines of each result exactly
  -- once, in some order.
  pub stopped-Drained :
      {w : W} {s : Hub M} {v : W}
      → 0 < workers
      → Reaches serve workers w s v
      → s.phase ≡ stopped
      → Drained serve w s.accepted s.log v
  stopped-Drained {w} {s} {v} some_workers reached at =
      let i = Reaches-IsSerial serve workers w reached in
      let (no_buffer, no_working, no_sending, no_logging) =
        stopped-Empty serve workers some_workers at reached in
      record {
        order = i.order;
        results = i.results;
        heard = i.heard;
        ran = i.ran;
        took =
            subst (λ (l : List M). Perm l s.accepted) (append-nil i.order)
              (subst₂ (λ (a b : List M). Perm (i.order ++ (a ++ b)) s.accepted) no_working no_buffer
                i.took);
        told =
            subst (λ (l : List JobWorkerResult). Perm l i.results) (append-nil i.heard)
              (subst₂
                (λ (o : Option JobWorkerResult) (l : List JobWorkerResult).
                  Perm (i.heard ++ (held o ++ l)) i.results)
                no_logging no_sending i.told);
        logged = i.logged;
      }
