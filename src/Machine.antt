-- ===== src/Machine.antt =====
-- What the media code calls outside the repository: the operating system, the packaging tools that
-- it runs, and the client of Google Cloud Storage. Each call acts on a world of type `W`.
pub mod Frame
use golang_videoencoder_api.Prelude.{ℕ, Bytes, Bool, List, Option}
use golang_videoencoder_api.Result.{Error}
use golang_videoencoder_api.Exec.{Exec}

-- `context.Background()`, or a context that ends that many nanoseconds after it is made.
pub data Context : Type 0 where
  background : Context
  with_timeout : ℕ → Context

-- One call that `filepath.Walk` makes of its function: the path, whether it is a directory, and the
-- error with which it was found.
pub record WalkEntry : Type 0 where
  pub path : Bytes
  pub is_dir : Bool
  pub error : Option Error

-- `os`, `os/exec`, `path/filepath`; open files and clients are known by a number.
pub record Os (W : Type 0) : Type 0 where
  pub getenv : Bytes → Bytes
  pub mkdir : Bytes → Exec W (Unit {0})
  pub create : Bytes → Exec W ℕ
  pub open_file : Bytes → Exec W ℕ
  pub close_file : ℕ → Exec W (Unit {0})
  pub remove_all : Bytes → Exec W (Unit {0})
  -- `exec.CommandContext(ctx, name, args...).CombinedOutput()`
  pub command : Context → Bytes → List Bytes → Exec W Bytes
  -- The calls that `filepath.Walk` would make if none of them returned an error.
  pub walk : Bytes → W → List WalkEntry × W
  -- The scheduler's choices among the goroutines that can move, one for each step.
  pub schedule : W → (ℕ → ℕ) × W

-- `cloud.google.com/go/storage`; a client, a reader and a writer are known by a number.
pub record Storage (W : Type 0) : Type 0 where
  pub new_client : Exec W ℕ
  pub close_client : ℕ → Exec W (Unit {0})
  -- client, bucket, object
  pub new_reader : Context → ℕ → Bytes → Bytes → Exec W ℕ
  pub close_reader : ℕ → Exec W (Unit {0})
  -- file, reader: `f.ReadFrom(reader)`
  pub read_from : ℕ → ℕ → Exec W ℕ
  pub new_writer : Context → ℕ → Bytes → Bytes → W → ℕ × W
  -- writer, file: `io.Copy(wc, f)`
  pub copy : ℕ → ℕ → Exec W ℕ
  pub close_writer : ℕ → Exec W (Unit {0})
