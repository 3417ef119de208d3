-- ===== src/Processor/Settings.antt =====
-- The settings of internal/job/processor.go.
use golang_videoencoder_api.Prelude.{
  ℕ, zero, suc, ◌-◌, ◌*◌, ◌^◌, ◌<◌, ltb, ℤ, pos, negsuc, is_positive, pos_part, Bytes, bytes,
  decimal, ◌++◌, is_empty, bytes_eq, length, Bool, true, false, Bool-cases, Option, none, some, inl,
  inr, if◌then◌else◌, ◌≡◌, refl, arith,
}
use golang_videoencoder_api.JobService.{JobService}
use golang_videoencoder_api.GoTime.{parse_duration, with_sign, sum_terms, sign_split}
use golang_videoencoder_api.GoTime.Minutes.{minute, minutes_given, parse_duration-minutes}
use golang_videoencoder_api.Processor.{
  Processor, default_upload_concurrency, default_process_timeout,
}

abbrev positive_or_default : Option ℤ → ℤ
positive_or_default none = pos default_process_timeout
positive_or_default (some d) = if is_positive d then d else pos default_process_timeout

-- A number that fits into 64 bits with a sign.
abbrev Fits : Option ℤ → Type 0
Fits none = Unit
Fits (some z) = pos_part z < 2 ^ 63

with_sign-Fits : (neg : Bool) (o : Option ℕ) → Fits (with_sign neg o)
unfolding with_sign
with_sign-Fits true none = tt
with_sign-Fits false none = tt
with_sign-Fits true (some zero) = omega arith
with_sign-Fits true (some (suc d)) = omega arith
with_sign-Fits false (some d) = elim (Bool-cases (ltb (2 ^ 63 - 1) d)) [
  | inl e ↦ rw e tt
  | inr e ↦ rw e (ground arith)
]

IsTimeout : ℤ → Type 0
IsTimeout d = (is_positive d ≡ true) × (pos_part d < 2 ^ 63)

positive_or_default-IsTimeout : (o : Option ℤ) → Fits o → IsTimeout (positive_or_default o)
unfolding IsTimeout
positive_or_default-IsTimeout none h = (refl, omega arith)
positive_or_default-IsTimeout (some (pos zero)) h = (refl, omega arith)
positive_or_default-IsTimeout (some (pos (suc n))) h = (refl, h)
positive_or_default-IsTimeout (some (negsuc n)) h = (refl, omega arith)

positive_or_default-positive : (d : ℕ) → 0 < d → positive_or_default (some (pos d)) ≡ pos d
positive_or_default-positive zero h = elim h [ ]
positive_or_default-positive (suc d) h = refl

-- The functions over the arithmetic of `float64` in `time.ParseDuration`.
module _ (fraction : ℕ → ℕ → ℕ → ℕ) where
  -- `processTimeoutFromEnv`
  unfoldable pub process_timeout_from_env : (Bytes → Bytes) → ℤ
  unfolding parse_duration
  process_timeout_from_env getenv =
      let v = getenv (bytes "PROCESS_TIMEOUT") in
      if is_empty v
      then pos default_process_timeout
      else positive_or_default (parse_duration fraction v)

  -- `NewProcessorFromEnv`
  unfoldable pub new_processor_from_env :
      {W : Type 0} → (Bytes → Bytes) → Option (JobService W) → Processor W
  unfolding process_timeout_from_env
  new_processor_from_env getenv job_service = record {
    job_service = job_service;
    source_bucket = getenv (bytes "VIDEO_SOURCE_BUCKET");
    output_bucket = getenv (bytes "VIDEO_OUTPUT_BUCKET");
    upload_concurrency = default_upload_concurrency;
    timeout = process_timeout_from_env getenv;
  }

  parse_duration-Fits : (text : Bytes) → Fits (parse_duration fraction text)
  unfolding parse_duration
  parse_duration-Fits text =
      let (neg, s) = sign_split text in
      elim (Bool-cases (bytes_eq s (bytes "0"))) [
        | inl e ↦ rw e (omega arith)
        | inr e ↦ rw e (elim (Bool-cases (is_empty s)) [
          | inl g ↦ rw g tt
          | inr g ↦ rw g (with_sign-Fits neg (sum_terms fraction (length s) 0 s))
        ])
      ]

  -- Whatever the environment says, a job has a positive time limit that fits into 64 bits with a sign.
  pub process_timeout_from_env_bounds :
      (getenv : Bytes → Bytes)
      → let d = process_timeout_from_env getenv in (is_positive d ≡ true) × (pos_part d < 2 ^ 63)
  unfolding process_timeout_from_env IsTimeout
  process_timeout_from_env_bounds getenv =
      let v = getenv (bytes "PROCESS_TIMEOUT") in
      elim (Bool-cases (is_empty v)) [
        | inl e ↦ rw e (refl, omega arith)
        | inr e ↦
            rw e (positive_or_default-IsTimeout (parse_duration fraction v) (parse_duration-Fits v))
      ]

  -- A `PROCESS_TIMEOUT` of so many minutes, written as decimal digits and an `m`, is the time limit of
  -- a job, where the number is not zero and the limit fits into 64 bits with a sign.
  pub process_timeout_from_env-minutes :
      (getenv : Bytes → Bytes) (n : ℕ)
      → getenv (bytes "PROCESS_TIMEOUT") ≡ decimal n ++ bytes "m"
      → 0 < n
      → n * minute < 2 ^ 63
      → process_timeout_from_env getenv ≡ pos (n * minute)
  unfolding process_timeout_from_env
  process_timeout_from_env-minutes getenv n set some_minutes fits =
      rw (set, minutes_given n, parse_duration-minutes fraction n fits)
        (positive_or_default-positive (n * minute) (omega arith))
