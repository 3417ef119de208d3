-- ===== src/Exec.antt =====
-- Calls that act on the outside world of type `W` (database, broker, disk, clock) and may fail.
-- What was done before an error stays done, so the world comes back beside the error too.
pub mod Keeps
pub mod Ends
use golang_videoencoder_api.Prelude.{◌≡◌, ap}
use golang_videoencoder_api.Result.{Error, Result, ok, err}

abbrev pub Exec {ℓ} : Type ℓ → Type ℓ → Type ℓ
Exec W A = W → Result A × W

module _ {ℓ} {W A : Type ℓ} where
  abbrev pub pure : A → Exec W A
  pure a w = (ok a, w)

  abbrev pub raise : Error → Exec W A
  raise e w = (err e, w)

  -- A call that has no error.
  abbrev pub lift : (W → A × W) → Exec W A
  lift f w = let (a, w') = f w in (ok a, w')

module _ {ℓ} {W A B : Type ℓ} where
  abbrev pub continue : Result A → (A → Exec W B) → Exec W B
  continue (ok a) f w = f a w
  continue (err e) f w = (err e, w)

  infixl 5 ◌>>=◌ ◌>>◌
  -- `x, err := m(); if err != nil { return nil, err }; f(x)`
  abbrev pub ◌>>=◌ : Exec W A → (A → Exec W B) → Exec W B
  ◌>>=◌ m f w = let (r, w') = m w in continue r f w'

  abbrev pub ◌>>◌ : Exec W A → Exec W B → Exec W B
  m >> n = m >>= λ _. n

-- `if err := m(); err != nil { return fmt.Errorf(p + "%w", err) }`
abbrev pub map_error {ℓ} : {A : Type ℓ} → (Error → Error) → Result A → Result A
map_error f (ok a) = ok a
map_error f (err e) = err (f e)

module _ {ℓ} {W A : Type ℓ} where
  abbrev pub rescue : (Error → Error) → Exec W A → Exec W A
  rescue f m w = let (r, w') = m w in (map_error f r, w')

-- `defer cleanup()`, with the error of the cleanup dropped: it runs on every way out.
module _ {ℓ} {W A B : Type ℓ} where
  abbrev pub finally : Exec W A → Exec W B → Exec W A
  finally m cleanup w = let (r, w') = m w in let (_, w'') = cleanup w' in (r, w'')

-- A call whose error is logged and dropped.
module _ {ℓ} {W A : Type ℓ} where
  abbrev pub best_effort : Exec W A → Exec W (Unit {ℓ})
  best_effort m w = let (_, w') = m w in (ok tt, w')

-- A bind behind a call whose result is known.
module _ {W A B : Type 0} (m : Exec W A) (f : A → Exec W B) (w v : W) where
  pub bind_ok : (a : A) → m w ≡ (ok a, v) → (m >>= f) w ≡ f a v
  bind_ok a e = ap (λ (r : Result A × W). continue r.0 f r.1) e

  pub bind_err : (e : Error) → m w ≡ (err e, v) → (m >>= f) w ≡ (err e, v)
  bind_err e h = ap (λ (r : Result A × W). continue r.0 f r.1) h

pub rescue_eq :
    {W A : Type 0} (f : Error → Error) (m : Exec W A) (w : W) (r : Result A) (v : W)
    → m w ≡ (r, v)
    → rescue f m w ≡ (map_error f r, v)
rescue_eq {W} {A} f m w r v e = ap (λ (s : Result A × W). (map_error f s.0, s.1)) e
