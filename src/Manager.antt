-- ===== src/Manager.antt =====
-- internal/job/manager.go: the settings of the manager and the loop that consumes the queue.
pub mod Consumer
pub mod Backoff
pub mod Handoff
pub mod Endurance
pub mod Channels
pub mod Phases
pub mod Crew
pub mod Draining
pub mod Perms
pub mod Serial
pub mod Ordered
pub mod Deliveries
pub mod Setup
use golang_videoencoder_api.Prelude.{
  ℕ, ◌*◌, ◌^◌, ltb, ℤ, pos, is_positive, Bytes, bytes, is_empty, Bool, true, false, ◌≡◌, refl,
  arith, Option, none, some, if◌then◌else◌,
}
use golang_videoencoder_api.Exec.{Exec}
use golang_videoencoder_api.GoStrconv.{atoi}
use golang_videoencoder_api.Worker.{Acknowledger}

abbrev pub default_worker_concurrency : ℤ
default_worker_concurrency = pos 1

-- In nanoseconds.
abbrev second : ℕ
second = 10 ^ 9

abbrev pub min_reconnect_backoff : ℕ
min_reconnect_backoff = 1 * second

abbrev pub max_reconnect_backoff : ℕ
max_reconnect_backoff = 30 * second

-- `nextBackoff`
unfoldable pub next_backoff : ℕ → ℕ
next_backoff current =
    let next = current * 2 in if ltb max_reconnect_backoff next then max_reconnect_backoff else next

abbrev positive_or_default : Option ℤ → ℤ
positive_or_default none = default_worker_concurrency
positive_or_default (some workers) =
    if is_positive workers then workers else default_worker_concurrency

-- `workerConcurrencyFromEnv`
unfoldable pub worker_concurrency_from_env : (Bytes → Bytes) → ℤ
worker_concurrency_from_env getenv =
    let value = getenv (bytes "CONCURRENCY_WORKERS") in
    if is_empty value then default_worker_concurrency else positive_or_default (atoi value)

positive_or_default_positive : (o : Option ℤ) → is_positive (positive_or_default o) ≡ true
positive_or_default_positive none = refl
positive_or_default_positive (some workers) = ground arith

-- Whatever the environment says, the manager has at least one worker.
pub worker_concurrency_from_env_positive :
    (getenv : Bytes → Bytes) → is_positive (worker_concurrency_from_env getenv) ≡ true
unfolding worker_concurrency_from_env
worker_concurrency_from_env_positive getenv =
    ground (arith, positive_or_default_positive (atoi (getenv (bytes "CONCURRENCY_WORKERS"))))

-- The methods of a delivery of the broker: its tag, `multiple`, `requeue`.
pub record Broker (W : Type 0) : Type 0 where
  pub ack : ℕ → Bool → Exec W (Unit {0})
  pub nack : ℕ → Bool → Bool → Exec W (Unit {0})

-- `deliveryAck`
unfoldable pub delivery_ack : {W : Type 0} → Broker W → ℕ → Acknowledger W
delivery_ack broker tag = record {
  ack = broker.ack tag false;
  nack = λ requeue. broker.nack tag false requeue;
}
