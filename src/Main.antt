-- ===== src/Main.antt =====
-- cmd/main.go: the settings, the start, and the shutdown. `log.Fatal` ends the process without the
-- deferred calls; here it is an error, with the message that is logged.
pub mod Opening
pub mod Stopping
pub mod Clients
pub mod Limits
pub mod Starting
pub mod Probing
pub mod Failing
pub mod Delivery
pub mod Tracking
pub mod Shutdown
pub mod Unwinding
pub mod Finishing
use golang_videoencoder_api.Prelude.{
  ℕ, ℤ, Bytes, bytes, is_empty, if◌then◌else◌, ◌++◌, List, [], ◌∷◌, Bool, false, Option, none, some,
}
use golang_videoencoder_api.Result.{Error, Result, ok, err, text, wrap, message}
use golang_videoencoder_api.Exec.{Exec, pure, raise, rescue, ◌>>=◌, ◌>>◌}
use golang_videoencoder_api.GoStrconv.{parse_bool}
use golang_videoencoder_api.Domain.{Platform}
use golang_videoencoder_api.Machine.{Context}
use golang_videoencoder_api.Repository.{Gorm, job_repository_db, video_repository_db}
use golang_videoencoder_api.JobService.{new_job_service}
use golang_videoencoder_api.Queue.{Amqp, Client, new_client_from_env, connect, ensure_ready, close}
use golang_videoencoder_api.Queue.Topology.{declare}
use golang_videoencoder_api.Queue.Lifetime.{Call, perform}
use golang_videoencoder_api.Manager.Setup.{Manager, new_manager}
use golang_videoencoder_api.Database
use golang_videoencoder_api.Database.{Orm, new_db}

-- The value of a setting that is a Boolean; one that cannot be read is false.
abbrev is_true : Option Bool → Bool
is_true none = false
is_true (some b) = b

-- `init`, behind the loading of the file `.env`.
unfoldable pub database_settings : (Bytes → Bytes) → Database.Database
unfolding new_db parse_bool
database_settings getenv = record new_db {
  auto_migrate_db = is_true (parse_bool (getenv (bytes "AUTO_MIGRATE_DB")));
  debug = is_true (parse_bool (getenv (bytes "DEBUG")));
  dsn = getenv (bytes "DSN");
  env = getenv (bytes "ENV");
}

abbrev pub missing : Bytes → Error
missing key = text (bytes "required environment variable is missing: " ++ key)

-- `httpAddr`
unfoldable pub http_addr : (Bytes → Bytes) → Bytes
http_addr getenv =
    let addr = getenv (bytes "HTTP_ADDR") in if is_empty addr then bytes ":8080" else addr

-- The calls of `database/sql`, with `conn.DB()`; a handle is known by a number.
pub record Sql (W : Type 0) : Type 0 where
  pub handle : ℕ → Exec W ℕ
  pub ping : Context → ℕ → Exec W (Unit {0})
  pub close_handle : ℕ → Exec W (Unit {0})

-- What `main` has when it has started everything.
pub record Service (W : Type 0) : Type 0 where
  pub consumer_name : Bytes
  pub sql_db : ℕ
  pub manager : Manager W
  pub consumer : Client
  pub publisher : Client
  pub queue_name : Bytes

-- How `main` ends: by `log.Fatal` with a message, or by its last line.
pub data Ending : Type 0 where
  exited : (message : Bytes) → Ending
  completed : Ending

-- What happens while the service runs: the consumer's client or the publisher is called (`Connect` is
-- not: `main` calls it once on each at the start), or a worker, the server or anything outside acts.
pub data Event (W : Type 0) : Type 0 where
  by_consumer by_publisher : Call → Event W
  elsewhere : (W → W) → Event W

-- What happens behind the three deferred calls that close something: `main` goes on when
-- `httpServer.Shutdown` gives up, and a handler that still runs can call the publisher.
pub record Late (W : Type 0) : Type 0 where
  pub behind_publisher : List (Event W)
  pub behind_consumer : List (Event W)
  pub behind_database : List (Event W)

abbrev pub of_result : {W A : Type 0} → Result A → Exec W A
of_result r w = (r, w)

abbrev pub beside : {A B : Type 0} → B → Result A → Result (A × B)
beside b (ok a) = ok (a, b)
beside b (err e) = err e

-- A method of a client, with the client that it leaves.
abbrev pub with_client : {W A : Type 0} → Exec (Client × W) A → Client → Exec W (A × Client)
with_client m c w = let (r, (c', w')) = m (c, w) in (beside c' r, w')

-- `log.Fatalf(prefix + "%v", err)`
abbrev pub or_fatal : {W A : Type 0} → Bytes → Exec W A → Exec W A
or_fatal prefix = rescue (wrap prefix)

-- `requiredEnv`
unfoldable pub required_env : {W : Type 0} → (Bytes → Bytes) → Bytes → Exec W Bytes
required_env getenv key =
    let value = getenv key in if is_empty value then raise (missing key) else pure value

module _ {W : Type 0} (amqp : Amqp W) where
  unfoldable pub probed : Result (Unit {0}) → Exec (Client × W) (Unit {0})
  probed (err e) s = (err (text (bytes "database unavailable")), s)
  probed (ok _) s = rescue (λ _. text (bytes "queue unavailable")) (ensure_ready amqp) s

  -- The function `ready` of `main`, on the client of the publisher and the world.
  unfoldable pub ready : Sql W → Context → ℕ → Exec (Client × W) (Unit {0})
  unfolding probed
  ready sql ctx sql_db (c, w) = let (r, w') = sql.ping ctx sql_db w in probed r (c, w')

  unfoldable pub happens : Event W → Service W × W → Service W × W
  happens (by_consumer call) (s, w) =
      let (c, w') = perform amqp call (s.consumer, w) in (record s { consumer = c }, w')
  happens (by_publisher call) (s, w) =
      let (c, w') = perform amqp call (s.publisher, w) in (record s { publisher = c }, w')
  happens (elsewhere act) (s, w) = (s, act w)

  unfoldable pub all_happen : List (Event W) → Service W × W → Service W × W
  unfolding happens
  all_happen [] s = s
  all_happen (event ∷ rest) s = all_happen rest (happens event s)

  unfoldable pub close_publisher : Service W × W → Service W × W
  close_publisher (s, w) =
      let (_, (c, w')) = close amqp (s.publisher, w) in (record s { publisher = c }, w')

  unfoldable pub close_consumer : Service W × W → Service W × W
  close_consumer (s, w) =
      let (_, (c, w')) = close amqp (s.consumer, w) in (record s { consumer = c }, w')

module _ {W : Type 0} (sql : Sql W) where
  unfoldable pub close_database : Service W × W → Service W × W
  close_database (s, w) = let (_, w') = sql.close_handle s.sql_db w in (s, w')

module _ {W : Type 0} (sql : Sql W) (amqp : Amqp W) where
  -- The deferred calls behind the end of the workers, last one first; errors are only logged.
  unfoldable pub close_all : Late W → Service W × W → Service W × W
  unfolding all_happen close_publisher close_consumer close_database
  close_all late s =
      let s1 = all_happen amqp late.behind_publisher (close_publisher amqp s) in
      let s2 = all_happen amqp late.behind_consumer (close_consumer amqp s1) in
      all_happen amqp late.behind_database (close_database sql s2)

  -- The end of the consumer and of the workers are the last of the events.
  unfoldable pub run_service : List (Event W) → Late W → Result (Service W) × W → Ending × W
  unfolding all_happen close_all
  run_service events late (err e, w) = (exited (message e), w)
  run_service events late (ok s, w) =
      let (_, w') = close_all late (all_happen amqp events (s, w)) in (completed, w')

module _ {W : Type 0} (platform : Platform W) (orm : Orm W) (sql : Sql W) (amqp : Amqp W)
    (gorm : ℕ → Gorm W) (fraction : ℕ → ℕ → ℕ → ℕ) (getenv : Bytes → Bytes) where
  unfoldable pub open_database : Exec W ℕ
  unfolding Database.connect database_settings
  open_database =
      or_fatal (bytes "database connection error: ")
        (λ w. let (r, (_, w')) = Database.connect orm (database_settings getenv, w) in (r, w'))

  unfoldable pub manager_on : ℕ → Manager W
  unfolding new_manager
  manager_on conn =
      new_manager fraction getenv
        (new_job_service (job_repository_db (gorm conn)) (video_repository_db platform (gorm conn)))

  -- The client of the consumer, with the name of the queue that it declares.
  unfoldable pub start_consumer : ℤ → Exec W (Bytes × Client)
  unfolding new_client_from_env connect declare
  start_consumer prefetch = do
    settings ←
        or_fatal (bytes "queue configuration error: ") (of_result (new_client_from_env getenv))
    connected ←
        or_fatal (bytes "rabbitmq connection error: ")
          (with_client (connect amqp) (record settings { prefetch = prefetch }))
    or_fatal (bytes "queue declare error: ") (with_client (declare amqp) connected.1)

  unfoldable pub start_publisher : Exec W Client
  unfolding new_client_from_env connect
  start_publisher = do
    settings ←
        or_fatal (bytes "publisher configuration error: ") (of_result (new_client_from_env getenv))
    connected ←
        or_fatal (bytes "publisher connection error: ") (with_client (connect amqp) settings)
    pure connected.1

  -- The part of `main` behind the database, up to `manager.Start()`.
  unfoldable pub start_clients : Bytes → ℕ → ℕ → Exec W (Service W)
  unfolding manager_on start_consumer start_publisher
  start_clients consumer_name conn sql_db = do
    declared ← start_consumer (manager_on conn).workers
    publisher ← start_publisher
    pure (record {
      consumer_name = consumer_name;
      sql_db = sql_db;
      manager = manager_on conn;
      consumer = declared.1;
      publisher = publisher;
      queue_name = declared.0;
    })

  -- `main` up to `manager.Start()`.
  unfoldable pub start_up : Exec W (Service W)
  unfolding required_env open_database start_clients
  start_up = do
    consumer_name ← required_env getenv (bytes "RABBITMQ_CONSUMER")
    required_env getenv (bytes "DSN")
    conn ← open_database
    sql_db ← or_fatal (bytes "database handle error: ") (sql.handle conn)
    start_clients consumer_name conn sql_db

  -- `main`
  unfoldable pub main : List (Event W) → Late W → W → Ending × W
  unfolding start_up run_service
  main events late w = run_service sql amqp events late (start_up w)
