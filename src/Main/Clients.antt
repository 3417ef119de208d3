-- ===== src/Main/Clients.antt =====
-- The two clients of the queue that cmd/main.go makes.
use golang_videoencoder_api.Prelude.{
  ℕ, ℤ, pos, Bytes, bytes, is_empty, false, Bool-cases, some, ◌≡◌, inl, inr, refl, sym, subst,
}
use golang_videoencoder_api.Result.{Result, ok, err}
use golang_videoencoder_api.Exec.{Exec}
use golang_videoencoder_api.Exec.Ends.{Ends, Triple, Triple-bind, Triple-rescue, Triple-given}
use golang_videoencoder_api.Domain.{Platform}
use golang_videoencoder_api.Repository.{Gorm}
use golang_videoencoder_api.Database.{Orm}
use golang_videoencoder_api.Queue.{Amqp, Client, new_client_from_env, connect}
use golang_videoencoder_api.Queue.Topology.{
  Fact, DeclarationLaws, DeadLetters, dead_letter_queue, declare, declare-Declared,
}
use golang_videoencoder_api.Queue.Links.{IsLinked, connect-OkLinked, ConnectKeeps, connect-known}
use golang_videoencoder_api.Main.{
  Sql, of_result, beside, with_client, start_consumer, start_publisher,
}

module _ (getenv : Bytes → Bytes) where
  -- A client for the queue that the environment names, with these values from the environment.
  pub record IsSetUp (c : Client) : Type 0 where
    pub queue : c.queue_name ≡ getenv (bytes "RABBITMQ_QUEUE")
    pub url : c.url ≡ getenv (bytes "RABBITMQ_URL")
    pub named : is_empty c.queue_name ≡ false

  pub new_client_from_env-IsSetUp :
      {W : Type 0} (p : W → Type 0)
      → Triple p
          (of_result (new_client_from_env getenv))
          (λ c w. (IsSetUp c × (c.prefetch ≡ pos 0)) × p w)
  unfolding new_client_from_env
  new_client_from_env-IsSetUp p = elim (Bool-cases (is_empty (getenv (bytes "RABBITMQ_QUEUE")))) [
    | inl e ↦ rw e (record { at = λ w h. tt })
    | inr named ↦ rw named (elim (Bool-cases (is_empty (getenv (bytes "RABBITMQ_URL")))) [
      | inl e ↦ rw e (record { at = λ w h. tt })
      | inr e ↦
          rw e
            (record { at = λ w h. ((record { queue = refl; url = refl; named = named }, refl), h) })
    ])
  ]

module _ {W A : Type 0} where
  beside-Ends :
      (q : A → Client → W → Type 0) (r : Result A) (c : Client) (v : W)
      → Ends (λ a (s : Client × W). q a s.0 s.1) (r, (c, v))
      → Ends (λ (x : A × Client) u. q x.0 x.1 u) (beside c r, v)
  beside-Ends q (ok a) c v h = h
  beside-Ends q (err e) c v h = tt

  pub with_client-Triple :
      (p : W → Type 0) (q : A → Client → W → Type 0) (m : Exec (Client × W) A) (c : Client)
      → ((w : W) → p w → Ends (λ a (s : Client × W). q a s.0 s.1) (m (c, w)))
      → Triple p (with_client m c) (λ x. q x.0 x.1)
  with_client-Triple p q m c h = record {
    at = λ w g. beside-Ends q (m (c, w)).0 (m (c, w)).1.0 (m (c, w)).1.1 (h w g);
  }

limited-IsSetUp :
    {getenv : Bytes → Bytes} {c : Client} {prefetch : ℤ}
    → IsSetUp getenv c
    → IsSetUp getenv (record c { prefetch = prefetch })
limited-IsSetUp up = record { queue = up.queue; url = up.url; named = up.named }

-- A client for the queue of the environment that is connected, with this prefetch.
pub record Serves (getenv : Bytes → Bytes) (prefetch : ℤ) (c : Client) : Type 0 where
  pub queue : c.queue_name ≡ getenv (bytes "RABBITMQ_QUEUE")
  pub url : c.url ≡ getenv (bytes "RABBITMQ_URL")
  pub named : is_empty c.queue_name ≡ false
  pub limit : c.prefetch ≡ prefetch
  pub conn : ℕ
  pub connected : c.connection ≡ some conn
  pub ch : ℕ
  pub channeled : c.channel ≡ some ch

abbrev joined : Client → ℕ → ℕ → Client
joined settings conn ch = record settings { connection = some conn; channel = some ch }

pub joined-Serves :
    (getenv : Bytes → Bytes) (settings : Client) (conn ch : ℕ)
    → IsSetUp getenv settings
    → Serves getenv settings.prefetch (joined settings conn ch)
joined-Serves getenv settings conn ch up = record {
  queue = up.queue;
  url = up.url;
  named = up.named;
  limit = refl;
  conn = conn;
  connected = refl;
  ch = ch;
  channeled = refl;
}

-- The queue of the environment has a queue for its rejected messages.
abbrev pub HasDeadLetters : {W : Type 0} → (W → Fact → Type 0) → (Bytes → Bytes) → W → Type 0
HasDeadLetters known getenv v =
    let name = getenv (bytes "RABBITMQ_QUEUE") in DeadLetters known name (dead_letter_queue name) v

module _ {W : Type 0} (known : W → Fact → Type 0) (amqp : Amqp W)
    (laws : DeclarationLaws known amqp) (keeps : ConnectKeeps known amqp)
    (getenv : Bytes → Bytes) where
  served-Ends :
      {A : Type 0} (settings : Client) (conn ch : ℕ) (r : Result A) (s : Client × W)
      → IsSetUp getenv settings
      → s.0 ≡ joined settings conn ch
      → Ends
          (λ _ v. DeadLetters known settings.queue_name (dead_letter_queue settings.queue_name) v)
          (r, s.1)
      → Ends
          (λ _ (t : Client × W).
            Serves getenv settings.prefetch t.0 × HasDeadLetters known getenv t.1)
          (r, s)
  served-Ends settings conn ch (ok a) (c, v) up same dead = (
    subst (Serves getenv settings.prefetch) (sym same) (joined-Serves getenv settings conn ch up),
    subst (λ (name : Bytes). DeadLetters known name (dead_letter_queue name) v) up.queue dead,
  )
  served-Ends settings conn ch (err e) s up same dead = tt

  declare-Triple :
      (settings c : Client)
      → IsSetUp getenv settings
      → Triple
          (λ _. IsLinked settings c)
          (with_client (declare amqp) c)
          (λ x v. Serves getenv settings.prefetch x.1 × HasDeadLetters known getenv v)
  declare-Triple settings c up =
      with_client-Triple _
        (λ _ c' v. Serves getenv settings.prefetch c' × HasDeadLetters known getenv v)
        (declare amqp) c
        (λ w link.
          subst
            (λ (d : Client).
              Ends
                (λ _ (s : Client × W).
                  Serves getenv settings.prefetch s.0 × HasDeadLetters known getenv s.1)
                (declare amqp (d, w)))
            (sym link.linked) (at_joined link.conn link.ch w))
    where
      at_joined :
          (conn ch : ℕ) (w : W)
          → Ends
              (λ _ (s : Client × W).
                Serves getenv settings.prefetch s.0 × HasDeadLetters known getenv s.1)
              (declare amqp (joined settings conn ch, w))
      at_joined conn ch w =
          let d = joined settings conn ch in
          let (same, dead) = declare-Declared known amqp laws (d, w) in
          served-Ends settings conn ch (declare amqp (d, w)).0 (declare amqp (d, w)).1 up same dead

  connect-HasDeadLetters :
      (c : Client) (w : W)
      → HasDeadLetters known getenv w
      → HasDeadLetters known getenv (connect amqp (c, w)).1.1
  connect-HasDeadLetters c w dead = record {
    through = dead.through;
    work_queue = connect-known known amqp keeps c _ w dead.work_queue;
    exchange_exists = connect-known known amqp keeps c _ w dead.exchange_exists;
    bound = connect-known known amqp keeps c _ w dead.bound;
    target_queue = connect-known known amqp keeps c _ w dead.target_queue;
  }

beside_fact-Ends :
    {W A : Type 0} (q : Client → Type 0) (p : W → Type 0) (r : Result A × (Client × W))
    → Ends (λ _ (s : Client × W). q s.0) r
    → p r.1.1
    → Ends (λ _ (s : Client × W). q s.0 × p s.1) r
beside_fact-Ends q p (ok a, (c, v)) h g = (h, g)
beside_fact-Ends q p (err e, (c, v)) h g = tt

module _ {W : Type 0} (platform : Platform W) (orm : Orm W) (sql : Sql W) (amqp : Amqp W)
    (gorm : ℕ → Gorm W) (fraction : ℕ → ℕ → ℕ → ℕ) (getenv : Bytes → Bytes)
    (known : W → Fact → Type 0) (laws : DeclarationLaws known amqp)
    (keeps : ConnectKeeps known amqp) where
  pub start_consumer-Serves :
      (prefetch : ℤ)
      → Triple
          (λ _. Unit {0})
          (start_consumer platform orm sql amqp gorm fraction getenv prefetch)
          (λ x v. Serves getenv prefetch x.1 × HasDeadLetters known getenv v)
  unfolding start_consumer
  start_consumer-Serves prefetch =
      Triple-bind {A = Client} _ _ _ (λ c _. (IsSetUp getenv c × (c.prefetch ≡ pos 0)) × Unit {0}) _
        (Triple-rescue _ _ _ _ (new_client_from_env-IsSetUp getenv (λ _. Unit {0})))
        (λ settings.
          let limited = record settings { prefetch = prefetch } in
          Triple-given (λ _. Unit {0}) _ _
            (λ up.
              Triple-bind _ _ _ (λ x _. IsLinked limited x.1) _
                (Triple-rescue _ _ _ _ (
                  with_client-Triple _ (λ _ c _. IsLinked limited c) (connect amqp) limited
                    (λ w _. connect-OkLinked amqp limited w)))
                (λ x. Triple-rescue _ _ _ _ (
                  declare-Triple known amqp laws keeps getenv limited x.1 (limited-IsSetUp up.0)))))

  pub start_publisher-Serves :
      Triple
        (HasDeadLetters known getenv)
        (start_publisher platform orm sql amqp gorm fraction getenv)
        (λ c v. Serves getenv (pos 0) c × HasDeadLetters known getenv v)
  unfolding start_publisher
  start_publisher-Serves =
      Triple-bind {A = Client} _ _ _
        (λ c v. (IsSetUp getenv c × (c.prefetch ≡ pos 0)) × HasDeadLetters known getenv v) _
        (Triple-rescue _ _ _ _ (new_client_from_env-IsSetUp getenv (HasDeadLetters known getenv)))
        (λ settings. Triple-given (HasDeadLetters known getenv) _ _ (λ up.
          Triple-bind _ _ _ (λ x v. IsLinked settings x.1 × HasDeadLetters known getenv v) _
            (Triple-rescue _ _ _ _ (
              with_client-Triple _ (λ _ c v. IsLinked settings c × HasDeadLetters known getenv v)
                (connect amqp) settings
                (λ w dead.
                  beside_fact-Ends _ _ (connect amqp (settings, w))
                    (connect-OkLinked amqp settings w)
                    (connect-HasDeadLetters known amqp laws keeps getenv settings w dead))))
            (λ x. record {
              at = λ w h. (
                subst (Serves getenv (pos 0)) (sym h.0.linked) (
                    subst (λ (n : ℤ). Serves getenv n (joined settings h.0.conn h.0.ch)) up.1
                      (joined-Serves getenv settings h.0.conn h.0.ch up.0)),
                h.1,
              );
            })))
