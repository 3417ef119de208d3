-- ===== src/Examples/Services.antt =====
-- The start and the end of the service on the broker that loses its first channel.
use golang_videoencoder_api.Prelude.{
  ℕ, ◌*◌, ◌/◌, Bytes, bytes, bytes_eq, List, [], ◌∷◌, Bool, true, false, none, some, ◌≡◌, refl,
  if◌then◌else◌, arith,
}
use golang_videoencoder_api.Result.{ok, err, text}
use golang_videoencoder_api.Exec.{Exec, raise}
use golang_videoencoder_api.Exec.Ends.{Ends}
use golang_videoencoder_api.Domain.{Platform}
use golang_videoencoder_api.Machine.{background}
use golang_videoencoder_api.Repository.{Gorm, VideoRepository}
use golang_videoencoder_api.Queue.{Client}
use golang_videoencoder_api.Queue.Lifetime.{ensuring, publishing, reconnecting}
use golang_videoencoder_api.Queue.Links.{ConnectKeeps}
use golang_videoencoder_api.Database
use golang_videoencoder_api.Database.{Dialector, Opened, opened, Orm, dialector, connect}
use golang_videoencoder_api.Database.Opening.{OrmLaws, Chosen, Connected, connect-Connected}
use golang_videoencoder_api.Api.{Publisher, new_server}
use golang_videoencoder_api.Api.Handlers.{handle_readyz}
use golang_videoencoder_api.GoStrconv.{atoi}
use golang_videoencoder_api.Manager.{worker_concurrency_from_env}
use golang_videoencoder_api.Main.{
  Sql, exited, Event, Late, by_consumer, by_publisher, elsewhere, open_database, start_up, main,
  ready,
}
use golang_videoencoder_api.Main.Opening.{DatabaseQuiet}
use golang_videoencoder_api.Main.Stopping.{Closed, main-Closed}
use golang_videoencoder_api.Main.Limits.{LimitLaws}
use golang_videoencoder_api.Main.Starting.{IsReady, start_up-IsReady}
use golang_videoencoder_api.Main.Probing.{Probed, handle_readyz-Probed}
use golang_videoencoder_api.Main.Failing.{no_queue, main-Misconfigured}
use golang_videoencoder_api.Examples.Queues.{
  Rabbit, Held, Known, amqp, amqp-ConnectionLaws, amqp-DeclarationLaws, client, broker, offline,
}

abbrev failing : {A : Type 0} → Exec Rabbit A
failing = raise (text (bytes "no row"))

abbrev gorm : ℕ → Gorm Rabbit
gorm conn = record {
  create_job = λ _. failing;
  first_job = λ _. failing;
  save_job = λ _. failing;
  create_video = λ _. failing;
  first_video = λ _. failing;
}

abbrev platform : Platform Rabbit
platform = record {
  new_uuid = λ b. (bytes "id", b);
  now = λ b. (0, b);
  validate_job = λ _. none;
  validate_video = λ _. none;
}

abbrev orm : Orm Rabbit
orm = record {
  open_db = λ _ b. (opened 7, b);
  session = λ db b. (db, b);
  auto_migrate = λ _ b. (none, b);
}

abbrev sql : Sql Rabbit
sql = record {
  handle = λ db b. (ok db, b);
  ping = λ _ _ b. (ok tt, b);
  close_handle = λ _ b. (ok tt, b);
}

abbrev exact : ℕ → ℕ → ℕ → ℕ
exact f unit scale = f * unit / scale

-- Every variable is set.
abbrev all_set : Bytes → Bytes
all_set name = bytes "x"

-- Only two variables are set.
abbrev no_queue_set : Bytes → Bytes
no_queue_set name =
    if bytes_eq name (bytes "DSN")
    then bytes "x"
    else if bytes_eq name (bytes "RABBITMQ_CONSUMER")
    then bytes "x"
    else []

sql-DatabaseQuiet : DatabaseQuiet Held orm sql
sql-DatabaseQuiet = record {
  open_db = λ _ w k h. h;
  session = λ _ w k h. h;
  auto_migrate = λ _ w k h. h;
  handle = λ _ w k h. h;
  close_handle = λ _ w k h. h;
}

-- The database that `DSN` names has the tables once they are asked for.
abbrev migrating : Orm Bool
migrating = record {
  open_db = λ _ b. (opened 7, b);
  session = λ db b. (db, b);
  auto_migrate = λ _ b. (none, true);
}

abbrev IsMigrated : Bool → Dialector → Type 0
IsMigrated b x = b ≡ true

abbrev IsOpen : Bool → ℕ → Dialector → Type 0
IsOpen b db x = db ≡ 7

migrating-OrmLaws : OrmLaws IsOpen IsMigrated migrating
migrating-OrmLaws = record {
  open_db = λ x w. refl;
  session = λ db x w h. h;
  auto_migrate = λ db x w h. (h, refl);
}

abbrev settings : Database.Database
settings = record {
  db = none;
  dsn = bytes "postgres";
  dsn_test = [];
  debug = true;
  auto_migrate_db = true;
  env = bytes "prod";
}

connect-Connected_example :
    (x : Dialector) × Chosen settings x
    × Connected IsOpen IsMigrated settings x
        (migrating.open_db x false).0
        (connect migrating (settings, false))
connect-Connected_example =
    connect-Connected IsOpen IsMigrated migrating migrating-OrmLaws settings false

abbrev publisher : Publisher (Client × Rabbit)
publisher = record { publish_json = λ m s. (ok tt, s) }

abbrev videos : VideoRepository (Client × Rabbit)
videos = record { insert = λ v s. (ok v, s); find = λ id s. (err (text (bytes "no row")), s) }

handle_readyz-Probed_example :
    let server =
      new_server videos
        (record { job_repository = none; video_repository = some videos })
        publisher
        (some (ready amqp sql background 7)) in
    let (response, (c, b)) = handle_readyz server (client, broker) in
    Probed sql amqp background 7 client broker response c b
handle_readyz-Probed_example =
    handle_readyz-Probed sql amqp background 7 videos
      (record { job_repository = none; video_repository = some videos }) publisher client broker

amqp-ConnectKeeps : ConnectKeeps Known amqp
amqp-ConnectKeeps = record {
  dial = λ _ w f h. h;
  open_channel = λ _ w f h. h;
  qos = λ _ _ w f h. h;
  close_channel = λ _ w f h. h;
  close_connection = λ _ w f h. h;
}

abbrev events : List (Event Rabbit)
events =
    by_publisher (publishing background (bytes "body"))
    ∷ by_consumer reconnecting
    ∷ elsewhere (λ b. record b { sent = [] })
    ∷ by_publisher ensuring
    ∷ []

-- A handler publishes behind `pub.Close()`, and the other late lists are empty.
abbrev late : Late Rabbit
late = record {
  behind_publisher = by_publisher (publishing background (bytes "late")) ∷ [];
  behind_consumer = elsewhere (λ b. b) ∷ [];
  behind_database = [];
}

main-Closed_example :
    Closed Held late (main platform orm sql amqp gorm exact all_set events late offline).1
unfolding main worker_concurrency_from_env atoi
main-Closed_example =
    main-Closed Held platform orm sql amqp gorm exact all_set sql-DatabaseQuiet amqp-ConnectionLaws
      events late offline _ (tt, (tt, ((λ w k h. h), (tt, tt)))) ((tt, tt), ((λ w k h. h), tt), tt)
      (λ k h. cc) refl

amqp-LimitLaws : LimitLaws Rabbit.limit_of amqp
amqp-LimitLaws = record {
  qos = λ ch n w. ground arith;
  dial = λ _. record { at = λ w. refl };
  open_channel = λ _. record { at = λ w. refl };
  exchange_declare = λ _ _. record { at = λ w. refl };
  queue_declare = λ _ _ _. record { at = λ w. refl };
  queue_bind = λ _ _ _. record { at = λ w. refl };
}

start_up-IsReady_example :
    Ends
      (IsReady Known Rabbit.limit_of all_set)
      (start_up platform orm sql amqp gorm exact all_set offline)
start_up-IsReady_example =
    start_up-IsReady platform orm sql amqp gorm exact all_set Known amqp-DeclarationLaws
      amqp-ConnectKeeps Rabbit.limit_of amqp-LimitLaws offline

main-Misconfigured_example :
    main platform orm sql amqp gorm exact no_queue_set events late offline
    ≡ (exited (bytes "queue configuration error: RABBITMQ_QUEUE is required"), offline)
unfolding open_database bytes bytes_eq
main-Misconfigured_example =
    main-Misconfigured platform orm sql amqp gorm exact no_queue_set events late offline (
      no_queue offline refl refl
        (record { conn = 7; handle = 7; before = offline; opens = refl; handles = refl }) refl)
