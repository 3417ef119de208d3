-- ===== src/Result.antt =====
-- Go's `error` values, and a pair `(T, error)` of which exactly one part is used.
use golang_videoencoder_api.Prelude.{
  Bytes, bytes, Bool, true, false, ◌++◌, ◌≡◌, is_empty, is_empty-append,
}

-- The errors that the program compares by identity: `gorm.ErrRecordNotFound` and the two that
-- internal/repositories declares.
pub data Sentinel : Type 0 where
  record_not_found job_not_found video_not_found : Sentinel

-- `text` is an error known by its message alone (`errors.New`, `fmt.Errorf` without `%w`, an error
-- of another package); `wrap p e` is `fmt.Errorf(p + "%w", e)`.
pub data Error : Type 0 where
  sentinel : Sentinel → Error
  text : Bytes → Error
  wrap : Bytes → Error → Error

pub data Result {ℓ} (A : Type ℓ) : Type ℓ where
  ok : A → Result A
  err : Error → Result A

-- The messages of the `errors.New` values.
unfoldable pub sentinel_message : Sentinel → Bytes
sentinel_message record_not_found = bytes "record not found"
sentinel_message job_not_found = bytes "job does not exist"
sentinel_message video_not_found = bytes "video does not exist"

-- `err.Error()`
unfoldable pub message : Error → Bytes
message (sentinel s) = sentinel_message s
message (text t) = t
message (wrap p e) = p ++ message e

abbrev pub sentinel_eq : Sentinel → Sentinel → Bool
sentinel_eq record_not_found record_not_found = true
sentinel_eq job_not_found job_not_found = true
sentinel_eq video_not_found video_not_found = true
sentinel_eq _ _ = false

-- `errors.Is(err, target)`: the chain of wrapped errors is searched.
unfoldable pub errors_is : Error → Sentinel → Bool
errors_is (sentinel s) target = sentinel_eq s target
errors_is (text t) target = false
errors_is (wrap p e) target = errors_is e target

-- An error wrapped behind a prefix that is not empty has a message that is not empty.
pub message-wrap :
    (p : Bytes) (e : Error) → is_empty p ≡ false → is_empty (message (wrap p e)) ≡ false
unfolding message
message-wrap p e h = is_empty-append p (message e) h
