-- ===== src/Main/Failing.antt =====
-- The checks of the configuration in cmd/main.go.
use golang_videoencoder_api.Prelude.{
  ℕ, Bytes, bytes, is_empty, List, Bool, true, false, ◌≡◌, refl, ap, ◌∙◌,
}
use golang_videoencoder_api.Result.{Error, ok, err, wrap, message}
use golang_videoencoder_api.Exec.{bind_ok, bind_err, rescue_eq}
use golang_videoencoder_api.Domain.{Platform}
use golang_videoencoder_api.Repository.{Gorm}
use golang_videoencoder_api.Database.{Orm}
use golang_videoencoder_api.Queue.{Amqp, required, new_client_from_env}
use golang_videoencoder_api.Main.{
  Sql, exited, Event, Late, missing, open_database, start_consumer, start_clients, start_up,
  run_service, main, required_env, or_fatal,
}

module _ {W : Type 0} (platform : Platform W) (orm : Orm W) (sql : Sql W) (amqp : Amqp W)
    (gorm : ℕ → Gorm W) (fraction : ℕ → ℕ → ℕ → ℕ) (getenv : Bytes → Bytes) where
  abbrev consumer_unset : Bool
  consumer_unset = is_empty (getenv (bytes "RABBITMQ_CONSUMER"))

  abbrev dsn_unset : Bool
  dsn_unset = is_empty (getenv (bytes "DSN"))

  abbrev queue_unset : Bool
  queue_unset = is_empty (getenv (bytes "RABBITMQ_QUEUE"))

  abbrev url_unset : Bool
  url_unset = is_empty (getenv (bytes "RABBITMQ_URL"))

  -- The database is opened, from one world to the other.
  pub record DatabaseOpened (w v : W) : Type 0 where
    pub conn : ℕ
    pub handle : ℕ
    pub before : W
    pub opens : open_database platform orm sql amqp gorm fraction getenv w ≡ (ok conn, before)
    pub handles : sql.handle conn before ≡ (ok handle, v)

  -- A setting that is missing, the message with which `main` exits, and the world then.
  pub data Misconfigured (w : W) : Bytes → W → Type 0 where
    no_consumer :
        consumer_unset ≡ true → Misconfigured w (message (missing (bytes "RABBITMQ_CONSUMER"))) w
    no_dsn :
        consumer_unset ≡ false
        → dsn_unset ≡ true
        → Misconfigured w (message (missing (bytes "DSN"))) w
    no_queue :
        (v : W)
        → consumer_unset ≡ false
        → dsn_unset ≡ false
        → DatabaseOpened w v
        → queue_unset ≡ true
        → Misconfigured w (bytes "queue configuration error: RABBITMQ_QUEUE is required") v
    no_url :
        (v : W)
        → consumer_unset ≡ false
        → dsn_unset ≡ false
        → DatabaseOpened w v
        → queue_unset ≡ false
        → url_unset ≡ true
        → Misconfigured w (bytes "queue configuration error: RABBITMQ_URL is required") v

  set_env :
      (key : Bytes) (w : W)
      → is_empty (getenv key) ≡ false
      → required_env getenv key w ≡ (ok (getenv key), w)
  unfolding required_env
  set_env key w set = rw set refl

  unset_env :
      (key : Bytes) (w : W)
      → is_empty (getenv key) ≡ true
      → required_env getenv key w ≡ (err (missing key), w)
  unfolding required_env
  unset_env key w unset = rw unset refl

  -- The start with both settings and an open database goes on with the client of the consumer.
  past_database :
      (w v : W)
      → consumer_unset ≡ false
      → dsn_unset ≡ false
      → (db : DatabaseOpened w v)
      → start_up platform orm sql amqp gorm fraction getenv w
        ≡ start_clients platform orm sql amqp gorm fraction getenv
            (getenv (bytes "RABBITMQ_CONSUMER"))
            db.conn
            db.handle
            v
  unfolding start_up
  past_database w v set set' db =
      bind_ok (required_env getenv (bytes "RABBITMQ_CONSUMER")) _ w w _ (set_env _ w set)
      ∙ bind_ok (required_env getenv (bytes "DSN")) _ w w _ (set_env _ w set')
      ∙ bind_ok (open_database platform orm sql amqp gorm fraction getenv) _ w db.before db.conn
          db.opens
      ∙ bind_ok (or_fatal (bytes "database handle error: ") (sql.handle db.conn)) _ db.before v
          db.handle (rescue_eq _ (sql.handle db.conn) db.before (ok db.handle) v db.handles)

  no_settings :
      (name : Bytes) (conn handle : ℕ) (v : W) (e : Error)
      → new_client_from_env getenv ≡ err e
      → start_clients platform orm sql amqp gorm fraction getenv name conn handle v
        ≡ (err (wrap (bytes "queue configuration error: ") e), v)
  unfolding start_clients start_consumer
  no_settings name conn handle v e h = rw h refl

  exits :
      (events : List (Event W)) (late : Late W) (w v : W) (e : Error)
      → start_up platform orm sql amqp gorm fraction getenv w ≡ (err e, v)
      → main platform orm sql amqp gorm fraction getenv events late w ≡ (exited (message e), v)
  unfolding main run_service
  exits events late w v e h = ap (run_service sql amqp events late) h

  -- Where the name of the consumer or the data source name is not set, `main` exits with its message
  -- before it does anything. But where the name or the address of the queue is not set, it first opens
  -- the database, and exits with that message and the database open.
  pub main-Misconfigured :
      (events : List (Event W)) (late : Late W) (w : W) {m : Bytes} {v : W}
      → Misconfigured w m v
      → main platform orm sql amqp gorm fraction getenv events late w ≡ (exited m, v)
  unfolding message bytes
  main-Misconfigured events late w (no_consumer unset) =
      exits events late w w (missing (bytes "RABBITMQ_CONSUMER")) (
        unfold start_up in
        bind_err (required_env getenv (bytes "RABBITMQ_CONSUMER")) _ w w _ (unset_env _ w unset))
  main-Misconfigured events late w (no_dsn set unset) =
      exits events late w w (missing (bytes "DSN")) (
        unfold start_up in
        bind_ok (required_env getenv (bytes "RABBITMQ_CONSUMER")) _ w w _ (set_env _ w set)
        ∙ bind_err (required_env getenv (bytes "DSN")) _ w w _ (unset_env _ w unset))
  main-Misconfigured events late w (no_queue v set set' db unset) =
      exits events late w v
        (wrap (bytes "queue configuration error: ") (required (bytes "RABBITMQ_QUEUE")))
        (past_database w v set set' db
          ∙ no_settings _ db.conn db.handle v (required (bytes "RABBITMQ_QUEUE"))
              (unfold new_client_from_env in rw unset refl))
  main-Misconfigured events late w (no_url v set set' db set'' unset) =
      exits events late w v
        (wrap (bytes "queue configuration error: ") (required (bytes "RABBITMQ_URL")))
        (past_database w v set set' db
          ∙ no_settings _ db.conn db.handle v (required (bytes "RABBITMQ_URL"))
              (unfold new_client_from_env in rw (set'', unset) refl))
