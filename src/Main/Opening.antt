-- ===== src/Main/Opening.antt =====
-- The connections to RabbitMQ that cmd/main.go opens when it starts.
use golang_videoencoder_api.Prelude.{
  ℕ, ℤ, Bytes, bytes, is_empty, Bool, true, false, Bool-cases, some, if◌then◌else◌, inl, inr,
}
use golang_videoencoder_api.Result.{Result, ok, err}
use golang_videoencoder_api.Exec.{Exec}
use golang_videoencoder_api.Exec.Ends.{Ends, Triple, Triple-bind, Triple-rescue, Triple-kept}
use golang_videoencoder_api.Domain.{Platform}
use golang_videoencoder_api.Repository.{Gorm}
use golang_videoencoder_api.Database
use golang_videoencoder_api.Database.{Dialector, Opened, opened, failed, Orm, dialector}
use golang_videoencoder_api.Queue.{Amqp, Client, connect}
use golang_videoencoder_api.Queue.Topology.{declare}
use golang_videoencoder_api.Queue.Ownership.{ConnectionLaws, HoldsNone, Owns, connect_locked-Owns}
use golang_videoencoder_api.Queue.Lifetime.{declaring, perform-Owns}
use golang_videoencoder_api.Queue.Pairs.{Share, Share-swap, connect-Share}
use golang_videoencoder_api.Main.{
  Sql, Service, beside, with_client, required_env, database_settings, open_database, start_consumer,
  start_publisher, start_clients, start_up,
}

module _ {W : Type 0} (held : W → ℕ → Type 0) where
  -- No connection to RabbitMQ is opened between the two worlds.
  abbrev pub Quiet : W → W → Type 0
  Quiet w v = (k : ℕ) → held v k → held w k

  -- The calls for the database open no connection to RabbitMQ.
  pub record DatabaseQuiet (orm : Orm W) (sql : Sql W) : Type 0 where
    pub open_db : (x : Dialector) (w : W) → Quiet w (orm.open_db x w).1
    pub session : (db : ℕ) (w : W) → Quiet w (orm.session db w).1
    pub auto_migrate : (db : ℕ) (w : W) → Quiet w (orm.auto_migrate db w).1
    pub handle : (db : ℕ) (w : W) → Quiet w (sql.handle db w).1
    pub close_handle : (db : ℕ) (w : W) → Quiet w (sql.close_handle db w).1

  abbrev pub SharedBy : Service W → W → Type 0
  SharedBy s w = Share held s.consumer s.publisher w

  picked-Quiet :
      {A B : Type 0} (b : Bool) (p q : A × (B × W)) (w : W)
      → Quiet w p.1.1
      → Quiet w q.1.1
      → Quiet w (if b then p else q).1.1
  picked-Quiet true p q w h g = h
  picked-Quiet false p q w h g = g

  chosen-Quiet :
      {A : Type 0} (b : Bool) (p q : A × W) (w : W)
      → Quiet w p.1
      → Quiet w q.1
      → Quiet w (if b then p else q).1
  chosen-Quiet true p q w h g = h
  chosen-Quiet false p q w h g = g

  module _ (orm : Orm W) (sql : Sql W) (quiet : DatabaseQuiet orm sql) where
    migrate-Quiet :
        (db : ℕ) (d : Database.Database) (w : W) → Quiet w (Database.migrate orm db (d, w)).1.1
    unfolding Database.migrate
    migrate-Quiet db d w =
        picked-Quiet d.auto_migrate_db
          (let (e, w') = orm.auto_migrate db w in (Database.migrated orm db e, (d, w')))
          (ok db, (d, w)) w (quiet.auto_migrate db w) (λ k h. h)

    connected-Quiet :
        (o : Opened) (d : Database.Database) (w : W) → Quiet w (Database.connected orm o (d, w)).1.1
    unfolding Database.connected
    connected-Quiet (failed db e) d w = λ k h. h
    connected-Quiet (opened db) d w =
        let (db', w') = if d.debug then orm.session db w else (db, w) in
        λ k h.
          chosen-Quiet d.debug (orm.session db w) (db, w) w (quiet.session db w) (λ k h. h) k
            (migrate-Quiet db' (record d { db = some db' }) w' k h)

  beside-Ends :
      {A : Type 0} (q : Client → W → Type 0) (c : Client) (r : Result A) (v : W)
      → q c v
      → Ends (λ (x : A × Client) u. q x.1 u) (beside c r, v)
  beside-Ends q c (ok a) v h = h
  beside-Ends q c (err e) v h = tt

  with_client-Triple :
      {A : Type 0} (p : W → Type 0) (q : Client → W → Type 0) (m : Exec (Client × W) A) (c : Client)
      → ((w : W) → p w → (let (_, (c', w')) = m (c, w) in q c' w'))
      → Triple p (with_client m c) (λ x. q x.1)
  with_client-Triple p q m c h = record {
    at = λ w g. beside-Ends q (m (c, w)).1.0 (m (c, w)).0 (m (c, w)).1.1 (h w g);
  }

  module _ (platform : Platform W) (orm : Orm W) (sql : Sql W) (amqp : Amqp W) (gorm : ℕ → Gorm W)
      (fraction : ℕ → ℕ → ℕ → ℕ) (getenv : Bytes → Bytes) (quiet : DatabaseQuiet orm sql)
      (laws : ConnectionLaws held amqp) where
    required_env-Triple :
        (key : Bytes)
        → Triple (HoldsNone held) (required_env {W = W} getenv key) (λ _. HoldsNone held)
    unfolding required_env
    required_env-Triple key = elim (Bool-cases (is_empty (getenv key))) [
      | inl e ↦ rw e (record { at = λ w nothing. tt })
      | inr e ↦ rw e (record { at = λ w nothing. nothing })
    ]

    open_database-Triple :
        Triple
          (HoldsNone held)
          (open_database platform orm sql amqp gorm fraction getenv)
          (λ _. HoldsNone held)
    unfolding open_database Database.connect
    open_database-Triple = Triple-rescue _ _ _ _ (
        Triple-kept (HoldsNone held) _ (λ w nothing k h.
          let d = database_settings getenv in
          let (o, v) = orm.open_db (dialector d) w in
          nothing k (quiet.open_db (dialector d) w k (connected-Quiet orm sql quiet o d v k h))))

    start_consumer-Triple :
        (prefetch : ℤ)
        → Triple
            (HoldsNone held)
            (start_consumer platform orm sql amqp gorm fraction getenv prefetch)
            (λ x v. Owns held (x.1, v))
    unfolding start_consumer connect declare
    start_consumer-Triple prefetch =
        Triple-bind {A = Client} _ _ _ (λ _. HoldsNone held) _
          (Triple-rescue _ _ _ _ (Triple-kept (HoldsNone held) _ (λ w nothing. nothing)))
          (λ settings.
            let c = record settings { prefetch = prefetch } in
            Triple-bind _ _ _ (λ x v. Owns held (x.1, v)) _
              (Triple-rescue _ _ _ _ (
                with_client-Triple (HoldsNone held) (λ c' v. Owns held (c', v)) (connect amqp) c
                  (λ w nothing. connect_locked-Owns held amqp laws (c, w) nothing)))
              (λ connected. Triple-rescue _ _ _ _ (
                with_client-Triple _ (λ c' v. Owns held (c', v)) (declare amqp) connected.1
                  (λ w own. perform-Owns held amqp laws declaring (connected.1, w) own))))

    start_publisher-Triple :
        (consumer : Client)
        → Triple
            (λ v. Owns held (consumer, v))
            (start_publisher platform orm sql amqp gorm fraction getenv)
            (λ p v. Share held consumer p v)
    unfolding start_publisher
    start_publisher-Triple consumer =
        Triple-bind _ _ _ (λ _ v. Owns held (consumer, v)) _
          (Triple-rescue _ _ _ _ (Triple-kept (λ v. Owns held (consumer, v)) _ (λ w own. own)))
          (λ settings.
            Triple-bind _ _ _ (λ x v. Share held consumer x.1 v) _
              (Triple-rescue _ _ _ _ (
                with_client-Triple _ (λ c' v. Share held consumer c' v) (connect amqp) settings
                  (λ w own.
                    Share-swap held (connect amqp (settings, w)).1.0 consumer _
                      (connect-Share held amqp laws settings consumer w own))))
              (λ connected. record { at = λ w share. share }))

    pub start_up-Triple :
        Triple (HoldsNone held) (start_up platform orm sql amqp gorm fraction getenv) SharedBy
    unfolding start_up start_clients
    start_up-Triple =
        Triple-bind _ _ _ (λ _. HoldsNone held) _ (required_env-Triple (bytes "RABBITMQ_CONSUMER"))
          (λ consumer_name.
            Triple-bind _ _ _ (λ _. HoldsNone held) _ (required_env-Triple (bytes "DSN"))
              (λ _.
                Triple-bind _ _ _ (λ _. HoldsNone held) _ open_database-Triple
                  (λ conn.
                    Triple-bind _ _ _ (λ _. HoldsNone held) _
                      (Triple-rescue _ _ _ _ (
                        Triple-kept (HoldsNone held) (sql.handle conn)
                          (λ w nothing k h. nothing k (quiet.handle conn w k h))))
                      (λ sql_db.
                        Triple-bind _ _ _ (λ x v. Owns held (x.1, v)) _ (start_consumer-Triple _)
                          (λ declared.
                            Triple-bind _ _ _ (λ p v. Share held declared.1 p v) _
                              (start_publisher-Triple declared.1)
                              (λ publisher. record { at = λ w share. share }))))))
