-- ===== src/Exec/Ends.antt =====
-- What holds behind a call that succeeds.
use golang_videoencoder_api.Result.{Error, Result, ok, err}
use golang_videoencoder_api.Exec.{Exec, continue, map_error, rescue, ◌>>=◌}

module _ {W A : Type 0} where
  -- A success satisfies the predicate.
  abbrev pub Ends : (A → W → Type 0) → Result A × W → Type 0
  Ends p (ok a, w) = p a w
  Ends p (err e, w) = Unit

  pub Ends-map_error :
      (p : A → W → Type 0) (f : Error → Error) (r : Result A) (w : W)
      → Ends p (r, w)
      → Ends p (map_error f r, w)
  Ends-map_error p f (ok a) w h = h
  Ends-map_error p f (err e) w h = tt

  pub Ends-weaken :
      (p q : A → W → Type 0) (r : Result A) (w : W)
      → Ends p (r, w)
      → ((a : A) → p a w → q a w)
      → Ends q (r, w)
  Ends-weaken p q (ok a) w h f = f a h
  Ends-weaken p q (err e) w h f = tt

module _ {W A B : Type 0} where
  pub Ends-continue :
      (p : A → W → Type 0) (q : B → W → Type 0) (r : Result A) (f : A → Exec W B) (w : W)
      → Ends p (r, w)
      → ((a : A) (v : W) → p a v → Ends q (f a v))
      → Ends q (continue r f w)
  Ends-continue p q (ok a) f w h rest = rest a w h
  Ends-continue p q (err e) f w h rest = tt

  pub Ends-bind :
      (p : A → W → Type 0) (q : B → W → Type 0) (m : Exec W A) (f : A → Exec W B) (w : W)
      → Ends p (m w)
      → ((a : A) (v : W) → p a v → Ends q (f a v))
      → Ends q ((m >>= f) w)
  Ends-bind p q m f w h rest = Ends-continue p q (m w).0 f (m w).1 h rest

-- From every world with `p`, a success of `m` ends with `q`.
pub record Triple {W A : Type 0} (p : W → Type 0) (m : Exec W A) (q : A → W → Type 0) : Type 0 where
  pub at : (w : W) → p w → Ends q (m w)

module _ {W : Type 0} where
  pub Triple-bind :
      {A B : Type 0} (p : W → Type 0) (m : Exec W A) (f : A → Exec W B) (q : A → W → Type 0)
      (r : B → W → Type 0)
      → Triple p m q
      → ((a : A) → Triple (q a) (f a) r)
      → Triple p (m >>= f) r
  Triple-bind p m f q r first later = record {
    at = λ w h. Ends-continue q r (m w).0 f (m w).1 (first.at w h) (λ a v g. (later a).at v g);
  }

  pub Triple-rescue :
      {A : Type 0} (p : W → Type 0) (f : Error → Error) (m : Exec W A) (q : A → W → Type 0)
      → Triple p m q
      → Triple p (rescue f m) q
  Triple-rescue p f m q first = record {
    at = λ w h. Ends-map_error q f (m w).0 (m w).1 (first.at w h);
  }

  pub anyway : {A : Type 0} (p : W → Type 0) (r : Result A) (v : W) → p v → Ends (λ _ u. p u) (r, v)
  anyway p (ok a) v h = h
  anyway p (err e) v h = tt

  -- A call that keeps `p`, whatever its result.
  pub Triple-kept :
      {A : Type 0} (p : W → Type 0) (m : Exec W A)
      → ((w : W) → p w → p (m w).1)
      → Triple p m (λ _. p)
  Triple-kept p m kept = record { at = λ w h. anyway p (m w).0 (m w).1 (kept w h) }

module _ {W A : Type 0} (q r : A → W → Type 0) where
  Ends-both :
      (x : Result A) (v : W) → Ends q (x, v) → Ends r (x, v) → Ends (λ a u. q a u × r a u) (x, v)
  Ends-both (ok a) v h g = (h, g)
  Ends-both (err e) v h g = tt

  -- Two things that hold behind the same call.
  pub Triple-both :
      (p s : W → Type 0) (m : Exec W A)
      → Triple p m q
      → Triple s m r
      → Triple (λ w. p w × s w) m (λ a u. q a u × r a u)
  Triple-both p s m first second = record {
    at = λ w h. Ends-both (m w).0 (m w).1 (first.at w h.0) (second.at w h.1);
  }

-- A fact beside the world.
pub Triple-given :
    {W A F : Type 0} (p : W → Type 0) (m : Exec W A) (q : A → W → Type 0)
    → (F → Triple p m q)
    → Triple (λ w. F × p w) m q
Triple-given p m q h = record { at = λ w g. (h g.0).at w g.1 }
