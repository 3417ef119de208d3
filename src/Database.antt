-- ===== src/Database.antt =====
-- internal/database/db.go, over gorm.io/gorm and its drivers.
pub mod Opening
use golang_videoencoder_api.Prelude.{
  ℕ, Bytes, bytes, bytes_eq, [], Bool, true, false, not, Option, none, some, if◌then◌else◌,
}
use golang_videoencoder_api.Result.{Error, Result, ok, err}

-- What `postgres.Open` and `sqlite.Open` make of a data source name.
pub data Dialector : Type 0 where
  postgres sqlite : (dsn : Bytes) → Dialector

-- What `gorm.Open` returns; beside an error the handle may be nil.
pub data Opened : Type 0 where
  opened : (db : ℕ) → Opened
  failed : (db : Option ℕ) (e : Error) → Opened

-- The calls of gorm; a handle `*gorm.DB` is known by a number.
pub record Orm (W : Type 0) : Type 0 where
  pub open_db : Dialector → W → Opened × W
  -- `db.Session` with a logger for every statement: another handle on the same connection
  pub session : ℕ → W → ℕ × W
  -- `db.AutoMigrate(&domain.Video{}, &domain.Job{})`
  pub auto_migrate : ℕ → W → Option Error × W

-- `Database`
pub record Database : Type 0 where
  pub db : Option ℕ
  pub dsn : Bytes
  pub dsn_test : Bytes
  pub debug : Bool
  pub auto_migrate_db : Bool
  pub env : Bytes

-- `NewDb`
unfoldable pub new_db : Database
new_db = record {
  db = none;
  dsn = [];
  dsn_test = [];
  debug = false;
  auto_migrate_db = false;
  env = [];
}

-- The driver that `Connect` chooses.
unfoldable pub dialector : Database → Dialector
unfolding bytes_eq bytes
dialector d = if not (bytes_eq d.env (bytes "test")) then postgres d.dsn else sqlite d.dsn_test

module _ {W : Type 0} (orm : Orm W) where
  unfoldable pub migrated : ℕ → Option Error → Result ℕ
  migrated db none = ok db
  migrated db (some e) = err e

  -- The end of `Connect`: the optional migration.
  unfoldable pub migrate : ℕ → Database × W → Result ℕ × (Database × W)
  unfolding migrated
  migrate db (d, w) =
      if d.auto_migrate_db
      then (let (e, w') = orm.auto_migrate db w in (migrated db e, (d, w')))
      else (ok db, (d, w))

  -- `Connect` behind `gorm.Open`.
  unfoldable pub connected : Opened → Database × W → Result ℕ × (Database × W)
  unfolding migrate
  connected (failed db e) (d, w) = (err e, (record d { db = db }, w))
  connected (opened db) (d, w) =
      let (db', w') = if d.debug then orm.session db w else (db, w) in
      migrate db' (record d { db = some db' }, w')

  -- `Connect`; the receiver is changed also where an error is returned.
  unfoldable pub connect : Database × W → Result ℕ × (Database × W)
  unfolding dialector connected
  connect (d, w) = let (o, w') = orm.open_db (dialector d) w in connected o (d, w')

  -- `NewDbTest`; its `log.Fatalf` is the error.
  unfoldable pub new_db_test : W → Result ℕ × W
  unfolding new_db connect
  new_db_test w =
      let d = record new_db {
        env = bytes "test";
        dsn_test = bytes ":memory:";
        auto_migrate_db = true;
        debug = true;
      } in
      let (r, (_, w')) = connect (d, w) in (r, w')
