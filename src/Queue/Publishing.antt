-- ===== src/Queue/Publishing.antt =====
-- `Publish`, `PublishJSON` and `Consume` of internal/queue/queue.go.
use golang_videoencoder_api.Prelude.{ℕ, Bytes, bytes, if◌then◌else◌, ◌++◌, Bool, Option, none, some}
use golang_videoencoder_api.Result.{Error, Result, ok, err, wrap, message}
use golang_videoencoder_api.Json.Structs.{marshal}
use golang_videoencoder_api.Machine.{Context}
use golang_videoencoder_api.Queue.{
  Amqp, Method, channel_missing, nil_channel, ready_locked, reconnect_locked,
}

abbrev pub retry_error : Error → Error → Error
retry_error e = wrap (bytes "publish failed: " ++ (message e ++ bytes "; reconnect failed: "))

module _ {W : Type 0} (amqp : Amqp W) where
  unfoldable pub publish_on : Context → Bytes → Option ℕ → Method amqp (Unit {0})
  publish_on ctx body none s = (err nil_channel, s)
  publish_on ctx body (some ch) (c, w) =
      let (r, w') = amqp.publish ctx ch c.queue_name body w in (r, (c, w'))

  -- `publishOnce`
  unfoldable pub publish_once : Context → Bytes → Method amqp (Unit {0})
  unfolding publish_on
  publish_once ctx body (c, w) = publish_on ctx body c.channel (c, w)

  unfoldable pub second_attempt :
      Context → Bytes → Error → Result (Unit {0}) → Method amqp (Unit {0})
  second_attempt ctx body e (err e') s = (err (retry_error e e'), s)
  second_attempt ctx body e (ok _) s = publish_once ctx body s

  -- The channel may have died: reconnect once and retry.
  unfoldable pub after_attempt : Context → Bytes → Result (Unit {0}) → Method amqp (Unit {0})
  unfolding second_attempt
  after_attempt ctx body (ok _) s = (ok tt, s)
  after_attempt ctx body (err e) s =
      let (r, s') = reconnect_locked amqp s in second_attempt ctx body e r s'

  unfoldable pub attempt : Context → Bytes → Method amqp (Unit {0})
  unfolding after_attempt
  attempt ctx body s = let (r, s') = publish_once ctx body s in after_attempt ctx body r s'

  unfoldable pub attempt_prepared : Context → Bytes → Result (Unit {0}) → Method amqp (Unit {0})
  attempt_prepared ctx body (err e) s = (err (wrap (bytes "publish: queue unavailable: ") e), s)
  attempt_prepared ctx body (ok _) s = attempt ctx body s

  -- `Publish`
  unfoldable pub publish : Context → Bytes → Method amqp (Unit {0})
  unfolding attempt_prepared
  publish ctx body s =
      if ready_locked amqp s
      then attempt ctx body s
      else (let (r, s') = reconnect_locked amqp s in attempt_prepared ctx body r s')

  unfoldable pub consume_on : Bytes → Bool → Option ℕ → Method amqp ℕ
  consume_on name auto_ack none s = (err channel_missing, s)
  consume_on name auto_ack (some ch) (c, w) =
      let (r, w') = amqp.consume ch c.queue_name name auto_ack w in (r, (c, w'))

  -- `Consume`
  unfoldable pub consume : Bytes → Bool → Method amqp ℕ
  unfolding consume_on
  consume name auto_ack (c, w) = consume_on name auto_ack c.channel (c, w)

  -- `PublishJSON`, of a struct of two strings; such a struct can always be marshalled.
  unfoldable pub publish_json : Context → Bytes → Bytes → Bytes → Bytes → Method amqp (Unit {0})
  publish_json ctx first_name second_name first second s =
      publish ctx (marshal first_name second_name first second) s
