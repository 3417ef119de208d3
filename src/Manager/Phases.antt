-- ===== src/Manager/Phases.antt =====
-- What holds in each phase of the stop function of internal/job/manager.go.
use golang_videoencoder_api.Prelude.{
  ℕ, suc, ◌+◌, ◌<◌, List, [], ◌∷◌, length, Bool, true, false, Bool-cases, none, ◌≡◌, ◌⊎◌, inl, inr,
  refl, subst, arith,
}
use golang_videoencoder_api.Manager.Channels.{
  Phase, running, draining, flushing, stopped, messages_closed, results_closed, Hub, start,
}

-- What holds in each phase, of the workers that returned and the logger.
abbrev pub InPhase : ℕ → Phase → ℕ → Bool → Type 0
InPhase workers running returned logger_done = (returned ≡ 0) × (logger_done ≡ false)
InPhase workers draining returned logger_done = logger_done ≡ false
InPhase workers flushing returned logger_done = returned ≡ workers
InPhase workers stopped returned logger_done = (returned ≡ workers) × (logger_done ≡ true)

-- Kept by every step.
pub record HubInv {M : Type 0} (workers : ℕ) (s : Hub M) : Type 0 where
  pub crew : s.waiting + (length s.working + (length s.sending + s.returned)) ≡ workers
  pub in_phase : InPhase workers s.phase s.returned s.logger_done
  pub emptied : (s.returned ≡ 0) ⊎ (s.buffer ≡ [])
  pub silent : (s.logger_done ≡ false) ⊎ (s.logging ≡ none)

pub none_left : {A : Type 0} (xs : List A) → length xs ≡ 0 → xs ≡ []
none_left [] h = refl
none_left (_ ∷ _) h = absurd (omega arith)

module _ (workers : ℕ) where
  none_returned :
      (p : Phase) (returned : ℕ) (done : Bool)
      → InPhase workers p returned done
      → messages_closed p ≡ false
      → returned ≡ 0
  none_returned running returned done h e = h.0
  none_returned draining returned done h e = cc
  none_returned flushing returned done h e = cc
  none_returned stopped returned done h e = cc

  pub logger_there :
      (p : Phase) (returned : ℕ) (done : Bool)
      → InPhase workers p returned done
      → results_closed p ≡ false
      → done ≡ false
  logger_there running returned done h e = h.1
  logger_there draining returned done h e = h
  logger_there flushing returned done h e = cc
  logger_there stopped returned done h e = cc

  pub InPhase-leave :
      (p : Phase) (returned : ℕ) (done : Bool)
      → InPhase workers p returned done
      → messages_closed p ≡ true
      → returned < workers
      → InPhase workers p (suc returned) done
  InPhase-leave running returned done h e lt = cc
  InPhase-leave draining returned done h e lt = h
  InPhase-leave flushing returned done h e lt = absurd (omega (arith, h))
  InPhase-leave stopped returned done h e lt = absurd (omega (arith, h.0))

  pub InPhase-silent :
      (p : Phase) (returned : ℕ) (done : Bool)
      → InPhase workers p returned done
      → results_closed p ≡ true
      → InPhase workers p returned true
  InPhase-silent running returned done h e = cc
  InPhase-silent draining returned done h e = cc
  InPhase-silent flushing returned done h e = h
  InPhase-silent stopped returned done h e = (h.0, refl)

  pub all_returned :
      (p : Phase) (returned : ℕ) (done : Bool)
      → InPhase workers p returned done
      → results_closed p ≡ true
      → returned ≡ workers
  all_returned running returned done h e = cc
  all_returned draining returned done h e = cc
  all_returned flushing returned done h e = h
  all_returned stopped returned done h e = h.0

  module _ {M : Type 0} where
    pub start-HubInv : HubInv {M = M} workers (start workers)
    unfolding start
    start-HubInv = record {
      crew = omega arith;
      in_phase = (refl, refl);
      emptied = inl refl;
      silent = inl refl;
    }

    pub at_phase :
        (s : Hub M) (p : Phase)
        → HubInv workers s
        → s.phase ≡ p
        → InPhase workers p s.returned s.logger_done
    at_phase s p inv e =
        subst (λ (q : Phase). InPhase workers q s.returned s.logger_done) e inv.in_phase

    pub while_open :
        (s : Hub M) → HubInv workers s → messages_closed s.phase ≡ false → s.returned ≡ 0
    while_open s inv e = none_returned s.phase s.returned s.logger_done inv.in_phase e

    -- When the stop function has returned, nothing is left in the channels or with a worker.
    pub HubInv-Empty :
        (s : Hub M)
        → 0 < workers
        → s.phase ≡ stopped
        → HubInv workers s
        → (s.buffer ≡ []) × (s.working ≡ []) × (s.sending ≡ []) × (s.logging ≡ none)
    HubInv-Empty s some_workers at inv =
        let (all, ended) = at_phase s stopped inv at in
        (
          elim inv.emptied [ inl e ↦ absurd (omega arith) | inr e ↦ e ],
          none_left s.working (omega (arith, inv.crew)),
          none_left s.sending (omega (arith, inv.crew)),
          elim inv.silent [ inl e ↦ cc | inr e ↦ e ],
        )

    -- `ResultChannel` is open, or every worker has returned and no result is left to send.
    abbrev pub ResultsSafe : Hub M → Type 0
    ResultsSafe s =
        (results_closed s.phase ≡ false)
        ⊎ ((s.returned ≡ workers) × (s.waiting ≡ 0) × (s.working ≡ []) × (s.sending ≡ []))

    pub HubInv-ResultsSafe : (s : Hub M) → HubInv workers s → ResultsSafe s
    HubInv-ResultsSafe s inv = elim (Bool-cases (results_closed s.phase)) [
      | inl shut ↦
          let all = all_returned s.phase s.returned s.logger_done inv.in_phase shut in
          inr (
            all,
            omega (arith, inv.crew),
            none_left s.working (omega (arith, inv.crew)),
            none_left s.sending (omega (arith, inv.crew)),
          )
      | inr opened ↦ inl opened
    ]
