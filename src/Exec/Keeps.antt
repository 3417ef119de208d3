-- ===== src/Exec/Keeps.antt =====
-- Parts of the world that calls leave as they were, one rule for each way to build a call.
use golang_videoencoder_api.Prelude.{◌≡◌, refl, ◌∙◌}
use golang_videoencoder_api.Result.{Error, Result, ok, err}
use golang_videoencoder_api.Exec.{
  Exec, pure, raise, lift, continue, rescue, finally, best_effort, ◌>>=◌,
}

-- The call `m` leaves `view` as it was, whether it fails or not.
pub record Keeps {ℓ} {W A V : Type ℓ} (view : W → V) (m : Exec W A) : Type ℓ where
  pub at : (w : W) → view (m w).1 ≡ view w

module _ {ℓ} {W V : Type ℓ} {view : W → V} where
  pub Keeps-pure : {A : Type ℓ} (a : A) → Keeps view (pure {W = W} a)
  Keeps-pure a = record { at = λ w. refl }

  pub Keeps-raise : {A : Type ℓ} (e : Error) → Keeps view (raise {W = W} {A = A} e)
  Keeps-raise e = record { at = λ w. refl }

  pub Keeps-lift :
      {A : Type ℓ} (f : W → A × W) → ((w : W) → view (f w).1 ≡ view w) → Keeps view (lift f)
  Keeps-lift f kept = record { at = kept }

  Keeps-continue :
      {A B : Type ℓ} (r : Result A) (f : A → Exec W B)
      → ((a : A) → Keeps view (f a))
      → Keeps view (continue r f)
  Keeps-continue (ok a) f kept = kept a
  Keeps-continue (err e) f kept = record { at = λ w. refl }

  pub Keeps-bind :
      {A B : Type ℓ} (m : Exec W A) (f : A → Exec W B)
      → Keeps view m
      → ((a : A) → Keeps view (f a))
      → Keeps view (m >>= f)
  Keeps-bind m f first rest = record {
    at = λ w. (Keeps-continue (m w).0 f rest).at (m w).1 ∙ first.at w;
  }

  pub Keeps-rescue :
      {A : Type ℓ} (f : Error → Error) (m : Exec W A) → Keeps view m → Keeps view (rescue f m)
  Keeps-rescue f m kept = record { at = λ w. kept.at w }

  pub Keeps-finally :
      {A B : Type ℓ} (m : Exec W A) (cleanup : Exec W B)
      → Keeps view m
      → Keeps view cleanup
      → Keeps view (finally m cleanup)
  Keeps-finally m cleanup first last = record { at = λ w. last.at (m w).1 ∙ first.at w }

  pub Keeps-best_effort : {A : Type ℓ} (m : Exec W A) → Keeps view m → Keeps view (best_effort m)
  Keeps-best_effort m kept = record { at = λ w. kept.at w }

pub ruleset keeps_rules = (
  Keeps-pure, Keeps-raise, Keeps-lift, Keeps-bind, Keeps-rescue, Keeps-finally, Keeps-best_effort,
)
