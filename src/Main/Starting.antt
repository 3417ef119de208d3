-- ===== src/Main/Starting.antt =====
-- What cmd/main.go has when it has started everything.
use golang_videoencoder_api.Prelude.{
  ℕ, pos, is_positive, pos_part, Option, some, Bytes, bytes, is_empty, true, false, Bool-cases, ◌≡◌,
  inl, inr, refl,
}
use golang_videoencoder_api.Exec.Ends.{
  Ends, Triple, Triple-bind, Triple-kept, Triple-given, Triple-both,
}
use golang_videoencoder_api.Exec.{Exec}
use golang_videoencoder_api.Domain.{Platform}
use golang_videoencoder_api.Repository.{Gorm}
use golang_videoencoder_api.Database.{Orm}
use golang_videoencoder_api.Queue.{Amqp}
use golang_videoencoder_api.Queue.Topology.{Fact, DeclarationLaws}
use golang_videoencoder_api.Queue.Links.{ConnectKeeps}
use golang_videoencoder_api.Manager.{worker_concurrency_from_env_positive}
use golang_videoencoder_api.Manager.Setup.{new_manager}
use golang_videoencoder_api.Main.{
  Sql, Service, required_env, open_database, manager_on, start_clients, start_up, or_fatal,
}
use golang_videoencoder_api.Main.Clients.{
  Serves, HasDeadLetters, start_consumer-Serves, start_publisher-Serves,
}
use golang_videoencoder_api.Main.Limits.{
  LimitLaws, Limited, Limited-positive, start_consumer-Limited, start_publisher-Limited,
}

-- What `main` has when it starts the workers.
pub record IsReady {W : Type 0} (known : W → Fact → Type 0) (limits : W → ℕ → Option ℕ)
    (getenv : Bytes → Bytes) (s : Service W) (w : W) : Type 0 where
  pub consumer_named : s.consumer_name ≡ getenv (bytes "RABBITMQ_CONSUMER")
  pub name_given : is_empty s.consumer_name ≡ false
  pub some_workers : is_positive s.manager.workers ≡ true
  pub consumer : Serves getenv s.manager.workers s.consumer
  pub deliveries : limits w consumer.ch ≡ some (pos_part s.manager.workers)
  pub publisher : Serves getenv (pos 0) s.publisher
  pub dead_letters : HasDeadLetters known getenv w

module _ {W : Type 0} (platform : Platform W) (orm : Orm W) (sql : Sql W) (amqp : Amqp W)
    (gorm : ℕ → Gorm W) (fraction : ℕ → ℕ → ℕ → ℕ) (getenv : Bytes → Bytes)
    (known : W → Fact → Type 0) (laws : DeclarationLaws known amqp)
    (keeps : ConnectKeeps known amqp) (limits : W → ℕ → Option ℕ)
    (limit_laws : LimitLaws limits amqp) where
  abbrev Nothing : W → Type 0
  Nothing _ = Unit

  required_env-given :
      (key : Bytes)
      → Triple Nothing
          (required_env getenv key)
          (λ v _. ((v ≡ getenv key) × (is_empty v ≡ false)) × Unit {0})
  unfolding required_env
  required_env-given key = elim (Bool-cases (is_empty (getenv key))) [
    | inl e ↦ rw e (record { at = λ w h. tt })
    | inr e ↦ rw e (record { at = λ w h. ((refl, e), tt) })
  ]

  start_anywhere :
      {A : Type 0} (m : Exec W A) (q : A → W → Type 0)
      → Triple (λ w. Nothing w × Nothing w) m q
      → Triple Nothing m q
  start_anywhere m q t = record { at = λ w h. t.at w (tt, tt) }

  facts_first :
      {A F : Type 0} (p r : W → Type 0) (m : Exec W A) (q : A → W → Type 0)
      → (F → Triple (λ w. p w × r w) m q)
      → Triple (λ w. (F × p w) × r w) m q
  facts_first p r m q h = record { at = λ w g. (h g.0.0).at w (g.0.1, g.1) }

  -- The clients, behind the database.
  clients-IsReady :
      (name : Bytes) (conn sql_db : ℕ)
      → (name ≡ getenv (bytes "RABBITMQ_CONSUMER")) × (is_empty name ≡ false)
      → Triple Nothing
          (start_clients platform orm sql amqp gorm fraction getenv name conn sql_db)
          (IsReady known limits getenv)
  unfolding start_clients manager_on new_manager
  clients-IsReady name conn sql_db named =
      let manager = manager_on platform orm sql amqp gorm fraction getenv conn in
      let workers = manager.workers in
      let asked = Limited limits workers in
      Triple-bind Nothing _ _
        (λ x v. (Serves getenv workers x.1 × HasDeadLetters known getenv v) × asked x.1.channel v) _
        (start_anywhere _ _ (
          Triple-both _ _ _ _ _
            (start_consumer-Serves platform orm sql amqp gorm fraction getenv known laws keeps
              workers)
            (start_consumer-Limited platform orm sql amqp gorm fraction getenv limits limit_laws
              workers)))
        (λ declared. facts_first _ _ _ _ (λ consumer.
          Triple-bind _ _ _
            (λ c v.
              (Serves getenv (pos 0) c × HasDeadLetters known getenv v)
              × asked declared.1.channel v)
            _
            (Triple-both _ _ _ _ _
              (start_publisher-Serves platform orm sql amqp gorm fraction getenv known laws keeps)
              (start_publisher-Limited platform orm sql amqp gorm fraction getenv limits limit_laws
                workers declared.1.channel))
            (λ publisher. record {
              at = λ w h. record {
                consumer_named = named.0;
                name_given = named.1;
                some_workers = worker_concurrency_from_env_positive getenv;
                consumer = consumer;
                deliveries =
                    Limited-positive limits workers declared.1.channel consumer.ch w
                      consumer.channeled (worker_concurrency_from_env_positive getenv) h.1;
                publisher = h.0.0;
                dead_letters = h.0.1;
              };
            })))

  start_up_triple :
      Triple Nothing
        (start_up platform orm sql amqp gorm fraction getenv)
        (IsReady known limits getenv)
  unfolding start_up
  start_up_triple =
      let database = open_database platform orm sql amqp gorm fraction getenv in
      Triple-bind {A = Bytes} Nothing _ _
        (λ name _.
          ((name ≡ getenv (bytes "RABBITMQ_CONSUMER")) × (is_empty name ≡ false)) × Unit {0})
        _ (required_env-given (bytes "RABBITMQ_CONSUMER"))
        (λ name. Triple-given Nothing _ _ (λ named.
          Triple-bind {A = Bytes} Nothing _ _ (λ _. Nothing) _
            (Triple-kept Nothing (required_env getenv (bytes "DSN")) (λ v h. tt))
            (λ _.
              Triple-bind Nothing _ _ (λ _. Nothing) _ (Triple-kept Nothing database (λ v h. tt))
                (λ conn.
                  Triple-bind Nothing _ _ (λ _. Nothing) _
                    (Triple-kept Nothing
                      (or_fatal (bytes "database handle error: ") (sql.handle conn)) (λ v h. tt))
                    (λ sql_db. clients-IsReady name conn sql_db named)))))

  -- What `main` has when it starts the workers, over calls of the broker that declare what they are
  -- asked for and of which `Connect` forgets Nothing. The name of the consumer is the one of the
  -- environment and not empty; there is at least one worker; both clients are for the queue that the
  -- environment names, which is not empty, and have a connection and a channel; on the channel of the
  -- consumer the broker has the count of workers as the limit of deliveries without an answer, where
  -- `Qos` sets it as documented, and the publisher asks for no limit; and rejected messages of the queue
  -- go to a queue of their own.
  pub start_up-IsReady :
      (w : W)
      → Ends (IsReady known limits getenv) (start_up platform orm sql amqp gorm fraction getenv w)
  start_up-IsReady w = start_up_triple.at w tt
