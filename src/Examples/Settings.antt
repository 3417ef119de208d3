-- ===== src/Examples/Settings.antt =====
-- The settings of the processor on two environments.
use golang_videoencoder_api.Prelude.{
  ℕ, ◌*◌, ◌/◌, ◌^◌, ◌<◌, pos, is_positive, pos_part, Bytes, bytes, decimal, true, ◌≡◌, refl, arith,
}
use golang_videoencoder_api.GoTime.Minutes.{minute}
use golang_videoencoder_api.Processor.Settings.{
  process_timeout_from_env, process_timeout_from_env_bounds, process_timeout_from_env-minutes,
}

abbrev exact : ℕ → ℕ → ℕ → ℕ
exact f unit scale = f * unit / scale

abbrev everywhere : Bytes → Bytes → Bytes
everywhere text name = text

process_timeout_from_env_bounds_example :
    let d = process_timeout_from_env exact (everywhere (bytes "-5m")) in
    (is_positive d ≡ true) × (pos_part d < 2 ^ 63)
process_timeout_from_env_bounds_example =
    process_timeout_from_env_bounds exact (everywhere (bytes "-5m"))

process_timeout_from_env-minutes_example :
    process_timeout_from_env exact (everywhere (bytes "45m")) ≡ pos (45 * minute)
unfolding bytes decimal
process_timeout_from_env-minutes_example =
    process_timeout_from_env-minutes exact (everywhere (bytes "45m")) 45 refl (omega arith)
      (omega arith)
