-- ===== src/Manager/Ordered.antt =====
-- The manager of internal/job/manager.go with one worker, which is its default.
use golang_videoencoder_api.Prelude.{
  ℕ, ◌≤◌, List, [], ◌∷◌, ◌++◌, append-nil, append_assoc, length, length-append, Option, ◌≡◌, refl,
  sym, ap, ◌∙◌, subst, subst₂, arith,
}
use golang_videoencoder_api.Worker.{JobWorkerResult}
use golang_videoencoder_api.Manager.Channels.{
  stopped, Line, Hub, start, Step, enqueue, stop_producing, receive, finish, send, log, leave, stop,
  workers_gone, logger_leaves, stop_returns, Run, here, next, Reaches, serve_all,
}
use golang_videoencoder_api.Manager.Phases.{HubInv, start-HubInv, none_left}
use golang_videoencoder_api.Manager.Crew.{Run-HubInv, stopped-Empty}
use golang_videoencoder_api.Manager.Serial.{lines, lines-append, held, serve_all-snoc}

module _ {A : Type 0} where
  -- A list of at most one element, around an element.
  alone :
      (xs before after : List A) (x : A)
      → xs ≡ before ++ (x ∷ after)
      → length xs ≤ 1
      → (before ++ after ≡ []) × (xs ≡ x ∷ [])
  alone xs [] [] x e h = (refl, e)
  alone xs [] (y ∷ after) x e h = absurd (omega (arith, ap (length {A = A}) e))
  alone xs (z ∷ before) after x e h =
      let total = ap (length {A = A}) e in
      let parts = length-append before (x ∷ after) in absurd (omega arith)

  told_next :
      (heard logging sending results : List A) (r : A)
      → sending ≡ []
      → heard ++ (logging ++ sending) ≡ results
      → heard ++ (logging ++ (r ∷ sending)) ≡ results ++ (r ∷ [])
  told_next heard logging sending results r e h =
      rw (e, ← append_assoc heard logging (r ∷ []))
        (ap (λ (l : List A). l ++ (r ∷ []))
          (ap (λ (l : List A). heard ++ l) (sym (append-nil logging))
            ∙ subst (λ (l : List A). heard ++ (logging ++ l) ≡ results) e h))

module _ {M W : Type 0} (serve : M → W → JobWorkerResult × W) where
  -- The messages that were served, in their order, and the results that the logger has had.
  record ServedInOrder (w : W) (accepted buffer working : List M) (sending : List JobWorkerResult)
      (logging : Option JobWorkerResult) (logs : List Line) (v : W) : Type 0 where
    order : List M
    results : List JobWorkerResult
    heard : List JobWorkerResult
    ran : serve_all serve order w ≡ (results, v)
    took : order ++ (working ++ buffer) ≡ accepted
    told : heard ++ (held logging ++ sending) ≡ results
    logged : logs ≡ lines heard

  abbrev InOrder : W → Hub M → W → Type 0
  InOrder w s v = ServedInOrder w s.accepted s.buffer s.working s.sending s.logging s.log v

  start-InOrder : (w : W) → InOrder w (start 1) w
  unfolding start serve_all
  start-InOrder w = record {
    order = [];
    results = [];
    heard = [];
    ran = refl;
    took = refl;
    told = refl;
    logged = refl;
  }

module _ {M W : Type 0} (serve : M → W → JobWorkerResult × W) (w : W) where
  Step-InOrder :
      {s : Hub M} {v : W} {t : Hub M} {x : W}
      → Step serve 1 s v t x
      → HubInv 1 s
      → InOrder serve w s v
      → InOrder serve w t x
  Step-InOrder {s} (enqueue msg on opened room) inv i = record {
    order = i.order;
    results = i.results;
    heard = i.heard;
    ran = i.ran;
    took =
        rw
          (
            ← append_assoc s.working s.buffer (msg ∷ []),
            ← append_assoc i.order (s.working ++ s.buffer) (msg ∷ []),
          )
          (ap (λ (l : List M). l ++ (msg ∷ [])) i.took);
    told = i.told;
    logged = i.logged;
  }
  Step-InOrder {s} (receive msg rest others full free) inv i =
      let no_working = none_left s.working (omega (arith, inv.crew)) in
      record {
        order = i.order;
        results = i.results;
        heard = i.heard;
        ran = i.ran;
        took =
            rw no_working
              (subst₂ (λ (a b : List M). i.order ++ (a ++ b) ≡ s.accepted) no_working full i.took);
        told = i.told;
        logged = i.logged;
      }
  Step-InOrder {s} {v} (finish before msg after at) inv i =
      let (none_other, one) = alone s.working before after msg at (omega (arith, inv.crew)) in
      let no_sending = none_left s.sending (omega (arith, inv.crew, ap (length {A = M}) one)) in
      record {
        order = i.order ++ (msg ∷ []);
        results = i.results ++ ((serve msg v).0 ∷ []);
        heard = i.heard;
        ran = serve_all-snoc serve i.order msg w v i.results i.ran;
        took =
            rw (none_other, append_assoc)
              (subst (λ (l : List M). i.order ++ (l ++ s.buffer) ≡ s.accepted) one i.took);
        told = told_next i.heard (held s.logging) s.sending i.results _ no_sending i.told;
        logged = i.logged;
      }
  Step-InOrder {s} (send before r after at free opened) inv i =
      let (none_other, one) = alone s.sending before after r at (omega (arith, inv.crew)) in
      record {
        order = i.order;
        results = i.results;
        heard = i.heard;
        ran = i.ran;
        took = i.took;
        told = rw none_other (
            subst₂
              (λ (o : Option JobWorkerResult) (l : List JobWorkerResult).
                i.heard ++ (held o ++ l) ≡ i.results)
              free one i.told);
        logged = i.logged;
      }
  Step-InOrder {s} (log r at) inv i = record {
    order = i.order;
    results = i.results;
    heard = i.heard ++ (r ∷ []);
    ran = i.ran;
    took = i.took;
    told = rw append_assoc (
        subst (λ (o : Option JobWorkerResult). i.heard ++ (held o ++ s.sending) ≡ i.results) at
          i.told);
    logged = rw (lines-append, i.logged, append-nil) refl;
  }
  Step-InOrder (stop_producing on) inv i = i
  Step-InOrder (leave others free drained shut) inv i = i
  Step-InOrder (stop at) inv i = i
  Step-InOrder (workers_gone at all) inv i = i
  Step-InOrder (logger_leaves shut free on) inv i = i
  Step-InOrder (stop_returns at ended) inv i = i

  Run-InOrder :
      {s : Hub M} {v : W} {n : ℕ} {t : Hub M} {x : W}
      → HubInv 1 s
      → InOrder serve w s v
      → Run serve 1 s v n t x
      → InOrder serve w t x
  Run-InOrder inv i here = i
  Run-InOrder inv i (next run step) =
      Step-InOrder step (Run-HubInv serve 1 inv run) (Run-InOrder inv i run)

  -- With one worker, the manager is the plain loop: when the stop function has returned, the messages
  -- that were accepted have been served in the order in which they were accepted, their effect on the
  -- world is that of serving them one behind the other, and the log has the lines of the results in
  -- that order.
  pub stopped-serve_all :
      {s : Hub M} {v : W}
      → Reaches serve 1 w s v
      → s.phase ≡ stopped
      → let (results, x) = serve_all serve s.accepted w in (v ≡ x) × (s.log ≡ lines results)
  stopped-serve_all {s} {v} (n, run) at =
      let i = Run-InOrder (start-HubInv 1) (start-InOrder serve w) run in
      let (no_buffer, no_working, no_sending, no_logging) =
        stopped-Empty serve 1 (omega arith) at (n, run) in
      let took : i.order ≡ s.accepted =
        sym (append-nil i.order)
        ∙ subst₂ (λ (a b : List M). i.order ++ (a ++ b) ≡ s.accepted) no_working no_buffer i.took in
      let told : i.heard ≡ i.results =
        sym (append-nil i.heard)
        ∙ subst₂
            (λ (o : Option JobWorkerResult) (l : List JobWorkerResult).
              i.heard ++ (held o ++ l) ≡ i.results)
            no_logging no_sending i.told in
      let ran = subst (λ (l : List M). serve_all serve l w ≡ (i.results, v)) took i.ran in
      (
        sym (ap (λ (p : List JobWorkerResult × W). p.1) ran),
        i.logged ∙ ap lines (told ∙ sym (ap (λ (p : List JobWorkerResult × W). p.0) ran)),
      )
