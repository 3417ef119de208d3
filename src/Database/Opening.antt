-- ===== src/Database/Opening.antt =====
-- What `Connect` of internal/database/db.go leaves behind.
use golang_videoencoder_api.Prelude.{
  ℕ, bytes, bytes_eq, bytes_eq_sound, bytes_eq_self, Bool, true, false, Bool-cases, Option, none,
  some, ◌≡◌, ◌≢◌, ◌∙◌, ap, ◌⊎◌, inl, inr, refl, sym, subst, if◌then◌else◌,
}
use golang_videoencoder_api.Result.{Error, Result, ok, err}
use golang_videoencoder_api.Database.{
  Dialector, postgres, sqlite, Opened, opened, failed, Orm, Database, dialector, migrated, migrate,
  connected, connect,
}

not_equal : false ≢ true
not_equal e = cc

-- The database of the settings: SQLite on the test DSN if the environment is "test", else PostgreSQL on
-- the DSN.
pub data Chosen (d : Database) : Dialector → Type 0 where
  in_test : d.env ≡ bytes "test" → Chosen d (sqlite d.dsn_test)
  elsewhere : d.env ≢ bytes "test" → Chosen d (postgres d.dsn)

dialector-Chosen : (d : Database) → Chosen d (dialector d)
unfolding dialector
dialector-Chosen d = elim (Bool-cases (bytes_eq d.env (bytes "test"))) [
  | inl e ↦ rw e (in_test (bytes_eq_sound d.env (bytes "test") e))
  | inr e ↦ rw e (
      elsewhere (λ same.
        not_equal
          (sym e ∙ ap (λ s. bytes_eq s (bytes "test")) same ∙ bytes_eq_self (bytes "test"))))
]

abbrev pub FailedWith : Error → Opened → Type 0
FailedWith e (opened db) = ⊥
FailedWith e (failed db f) = e ≡ f

-- `on w db x`: the handle works on the database that `x` names. `tables w x`: that database has the
-- tables of videos and jobs.
module _ {W : Type 0} (on : W → ℕ → Dialector → Type 0) (tables : W → Dialector → Type 0) where
  abbrev pub OpensOn : Dialector → Opened × W → Type 0
  OpensOn x (opened db, v) = on v db x
  OpensOn x (failed db e, v) = Unit

  abbrev pub Migrates : ℕ → Dialector → Option Error × W → Type 0
  Migrates db x (none, v) = on v db x × tables v x
  Migrates db x (some e, v) = Unit

  -- The documented effect of the calls of gorm.
  pub record OrmLaws (orm : Orm W) : Type 0 where
    pub open_db : (x : Dialector) (w : W) → OpensOn x (orm.open_db x w)
    pub session :
        (db : ℕ) (x : Dialector) (w : W)
        → on w db x
        → on (orm.session db w).1 (orm.session db w).0 x
    pub auto_migrate :
        (db : ℕ) (x : Dialector) (w : W) → on w db x → Migrates db x (orm.auto_migrate db w)

  abbrev pub HasTables : Bool → W → Dialector → Type 0
  HasTables true w x = tables w x
  HasTables false w x = Unit

  -- The result of `Connect` on these settings and this database, from this outcome of `gorm.Open`.
  abbrev pub Connected : Database → Dialector → Opened → Result ℕ × (Database × W) → Type 0
  Connected d x o (ok db, (d', v)) =
      (d' ≡ record d { db = some db }) × on v db x × HasTables d.auto_migrate_db v x
  Connected d x o (err e, (d', v)) =
      (d' ≡ record d { db = d'.db }) × (FailedWith e o ⊎ (d.auto_migrate_db ≡ true))

  module _ (orm : Orm W) (laws : OrmLaws orm) (d : Database) (o : Opened) where
    migrated-Connected :
        (db : ℕ) (e : Option Error) (v : W)
        → d.auto_migrate_db ≡ true
        → Migrates db (dialector d) (e, v)
        → Connected d (dialector d) o (migrated orm db e, (record d { db = some db }, v))
    unfolding migrated
    migrated-Connected db none v set m =
        (refl, m.0, subst (λ (b : Bool). HasTables b v (dialector d)) (sym set) m.1)
    migrated-Connected db (some e) v set m = (refl, inr set)

    migrate-Connected :
        (db : ℕ) (w : W)
        → on w db (dialector d)
        → Connected d (dialector d) o (migrate orm db (record d { db = some db }, w))
    unfolding migrate
    migrate-Connected db w at =
        let after : Database = record d { db = some db } in
        let (e, v) = orm.auto_migrate db w in
        let done : Result ℕ × (Database × W) = (migrated orm db e, (after, v)) in
        let left : Result ℕ × (Database × W) = (ok db, (after, w)) in
        elim (Bool-cases d.auto_migrate_db) [
          | inl set ↦
              subst (λ (b : Bool). Connected d (dialector d) o (if b then done else left)) (sym set)
                (migrated-Connected db e v set (laws.auto_migrate db (dialector d) w at))
          | inr unset ↦
              subst (λ (b : Bool). Connected d (dialector d) o (if b then done else left))
                (sym unset)
                (refl, at, subst (λ (b : Bool). HasTables b w (dialector d)) (sym unset) tt)
        ]

  module _ (orm : Orm W) (laws : OrmLaws orm) where
    connected-Connected :
        (d : Database) (o : Opened) (w : W)
        → OpensOn (dialector d) (o, w)
        → Connected d (dialector d) o (connected orm o (d, w))
    unfolding connected
    connected-Connected d (failed db e) w at = (refl, inl refl)
    connected-Connected d (opened db) w at =
        let ends = λ (s : ℕ × W).
          Connected d (dialector d) (opened db)
            (migrate orm s.0 (record d { db = some s.0 }, s.1)) in
        elim (Bool-cases d.debug) [
          | inl logs ↦
              subst (λ (b : Bool). ends (if b then orm.session db w else (db, w))) (sym logs)
                (migrate-Connected orm laws d (opened db) _ _ (laws.session db (dialector d) w at))
          | inr quiet ↦
              subst (λ (b : Bool). ends (if b then orm.session db w else (db, w))) (sym quiet)
                (migrate-Connected orm laws d (opened db) db w at)
        ]

    -- `Connect`, over a gorm that does what is documented. It opens SQLite on `DsnTest` if `Env` is
    -- "test", and PostgreSQL on `Dsn` if it is not. After a success the handle that is returned is the
    -- one in the receiver, it works on that database, and the tables exist there if `AutoMigrateDb` is
    -- set. After an error `gorm.Open` has failed with it, or a migration was asked for. The settings do
    -- not change.
    pub connect-Connected :
        (d : Database) (w : W)
        → (x : Dialector) × Chosen d x × Connected d x (orm.open_db x w).0 (connect orm (d, w))
    unfolding connect
    connect-Connected d w =
        let (o, v) = orm.open_db (dialector d) w in
        (dialector d, dialector-Chosen d, connected-Connected d o v (laws.open_db (dialector d) w))
