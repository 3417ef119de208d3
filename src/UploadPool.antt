-- ===== src/UploadPool.antt =====
-- The goroutines of `ProcessUpload` in internal/upload/manager.go: workers that receive paths from a
-- channel, upload them, and append the ones that failed under a mutex.
pub mod Conservation
pub mod Honesty
pub mod Frame
use golang_videoencoder_api.Prelude.{
  ℕ, zero, suc, Bytes, if◌then◌else◌, List, [], ◌∷◌, ◌++◌, Bool, true, false, Option, none, some,
  length,
}
use golang_videoencoder_api.Result.{Result, ok, err}
use golang_videoencoder_api.Exec.{Exec}
use Prim.Native.Nat.{◌%◌}

-- The goroutines of `ProcessUpload`. The channel carries the indexes of `Paths` in order; here it
-- carries the paths at these indexes. `busy` holds the path of each worker that has one, `idle`
-- counts the workers that wait for one. `done` records each finished upload and whether it succeeded.
pub record Pool : Type 0 where
  pub pending : List Bytes
  pub busy : List Bytes
  pub idle : ℕ
  pub errors : List Bytes
  pub done : List (Bytes × Bool)

-- A worker that waits receives from the channel, if it holds anything.
abbrev pub receive : List Bytes → ℕ → Pool → Option Pool
receive [] idle pool = none
receive (_ ∷ _) zero pool = none
receive (path ∷ rest) (suc idle) pool =
    some (record pool { pending = rest; busy = pool.busy ++ (path ∷ []); idle = idle })

-- The element at an index, and the others.
unfoldable pub pick : List Bytes → ℕ → Option (Bytes × List Bytes)
pick [] k = none
pick (x ∷ xs) zero = some (x, xs)
pick (x ∷ xs) (suc k) = elim (pick xs k) [ none ↦ none | some (y, ys) ↦ some (y, x ∷ ys) ]

abbrev pub succeeded {ℓ} : {A : Type ℓ} → Result A → Bool
succeeded (ok _) = true
succeeded (err _) = false

-- The upload of a path ends: its worker waits again, and a failed path is appended to `Errors`.
unfoldable pub report : Bytes → List Bytes → Result (Unit {0}) → Pool → Pool
report path others r pool = record pool {
  busy = others;
  idle = suc pool.idle;
  errors = if succeeded r then pool.errors else pool.errors ++ (path ∷ []);
  done = pool.done ++ ((path, succeeded r) ∷ []);
}

-- The goroutines, over any way to upload one path.
module _ {W : Type 0} (upload : Bytes → Exec W (Unit {0})) where
  unfoldable pub finish_upload : Option (Bytes × List Bytes) → Pool → W → Pool × W
  unfolding report
  finish_upload none pool w = (pool, w)
  finish_upload (some (path, others)) pool w =
      let (r, w') = upload path w in (report path others r pool, w')

  -- Where a worker can receive, the choice is between that and the end of an upload.
  unfoldable pub receive_or_finish : Pool → ℕ → Pool → W → Pool × W
  receive_or_finish received zero pool w = (received, w)
  receive_or_finish received (suc k) pool w = finish_upload (pick pool.busy k) pool w

  unfoldable pub move : Option Pool → ℕ → Pool → W → Pool × W
  move none choice pool w = finish_upload (pick pool.busy (choice % length pool.busy)) pool w
  move (some received) choice pool w =
      receive_or_finish received (choice % suc (length pool.busy)) pool w

  -- One move of a goroutine that can move: `choice` says which.
  unfoldable pub pool_step : ℕ → Pool → W → Pool × W
  pool_step choice pool w = move (receive pool.pending pool.idle pool) choice pool w

  -- So many moves, by the choices of the scheduler.
  unfoldable pub run_pool : ℕ → (ℕ → ℕ) → Pool → W → Pool × W
  run_pool zero choices pool w = (pool, w)
  run_pool (suc n) choices pool w =
      let (pool', w') = pool_step (choices n) pool w in run_pool n choices pool' w'

-- The pool of `ProcessUpload`, which has reset `vu.Errors` before it starts the workers.
unfoldable pub start_pool : ℕ → List Bytes → Pool
start_pool workers paths = record {
  pending = paths;
  busy = [];
  idle = workers;
  errors = [];
  done = [];
}
