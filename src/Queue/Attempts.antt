-- ===== src/Queue/Attempts.antt =====
-- What one call of `Publish` of internal/queue/queue.go can do.
use golang_videoencoder_api.Prelude.{
  ℕ, Bytes, bytes, true, false, Bool-cases, some, ◌≡◌, ◌⊎◌, inl, inr, refl, is_positive, subst,
  arith,
}
use golang_videoencoder_api.Result.{Error, Result, ok, err, wrap}
use golang_videoencoder_api.Machine.{Context}
use golang_videoencoder_api.Queue.{
  Amqp, Client, limited, limit, opened, dialed, connect_locked, close_locked, ready_locked,
  reconnect_locked,
}
use golang_videoencoder_api.Queue.Publishing.{
  publish_on, publish_once, retry_error, second_attempt, after_attempt, attempt, attempt_prepared,
  publish,
}

module _ {W : Type 0} (amqp : Amqp W) where
  abbrev pub HasChannel : Client × W → Type 0
  HasChannel (c, w) = (ch : ℕ) × (c.channel ≡ some ch)

  -- A successful connection has a channel.
  abbrev Connects : Result (Unit {0}) × (Client × W) → Type 0
  Connects (ok _, s) = HasChannel s
  Connects (err _, s) = Unit

  limited-Connects :
      (conn ch : ℕ) (r : Result (Unit {0})) (s : Client × W) → Connects (limited amqp conn ch r s)
  unfolding limited
  limited-Connects conn ch (ok _) s = (ch, refl)
  limited-Connects conn ch (err e) s = tt

  limit-Connects : (conn ch : ℕ) (s : Client × W) → Connects (limit amqp conn ch s)
  unfolding limit
  limit-Connects conn ch (c, w) = elim (Bool-cases (is_positive c.prefetch)) [
    | inl e ↦ rw e (limited-Connects conn ch _ _)
    | inr e ↦ rw e (ch, refl)
  ]

  opened-Connects : (conn : ℕ) (r : Result ℕ) (s : Client × W) → Connects (opened amqp conn r s)
  unfolding opened
  opened-Connects conn (ok ch) s = limit-Connects conn ch s
  opened-Connects conn (err e) s = tt

  dialed-Connects : (r : Result ℕ) (s : Client × W) → Connects (dialed amqp r s)
  unfolding dialed
  dialed-Connects (ok conn) (c, w) =
      opened-Connects conn (amqp.open_channel conn w).0 (c, (amqp.open_channel conn w).1)
  dialed-Connects (err e) s = tt

  reconnect_locked-Connects : (s : Client × W) → Connects (reconnect_locked amqp s)
  unfolding reconnect_locked connect_locked
  reconnect_locked-Connects s =
      let (_, (c, w)) = close_locked amqp s in
      dialed-Connects (amqp.dial c.url w).0 (c, (amqp.dial c.url w).1)

  ready-HasChannel : (s : Client × W) → ready_locked amqp s ≡ true → HasChannel s
  unfolding ready_locked
  ready-HasChannel (c, w) h = ground arith

  -- The state before a publication: as it was, when the client was ready, or after a reconnection.
  abbrev Prepared : Client × W → Client × W → Type 0
  Prepared s s1 =
      ((ready_locked amqp s ≡ true) × (s1 ≡ s))
      ⊎ ((ready_locked amqp s ≡ false) × (reconnect_locked amqp s ≡ (ok tt, s1)))

  -- One call of the broker, on the client's channel.
  abbrev pub Sends : Context → Bytes → Client × W → Result (Unit {0}) → Client × W → Type 0
  Sends ctx body (c, w) r (c', w') =
      (ch : ℕ) × (c.channel ≡ some ch)
      × (amqp.publish ctx ch c.queue_name body w ≡ (r, w'))
      × (c' ≡ c)

  pub data Published (ctx : Context) (body : Bytes) (s : Client × W)
      : Result (Unit {0}) × (Client × W) → Type 0 where
    -- no call: the client was not ready and could not reconnect
    unavailable :
        {e : Error} {s' : Client × W}
        → ready_locked amqp s ≡ false
        → reconnect_locked amqp s ≡ (err e, s')
        → Published ctx body s (err (wrap (bytes "publish: queue unavailable: ") e), s')
    -- one call, which succeeded
    sent :
        {s1 s' : Client × W}
        → Prepared s s1
        → Sends ctx body s1 (ok tt) s'
        → Published ctx body s (ok tt, s')
    -- one call, which failed, after which the client could not reconnect
    gave_up :
        {e e' : Error} {s1 s2 s' : Client × W}
        → Prepared s s1
        → Sends ctx body s1 (err e) s2
        → reconnect_locked amqp s2 ≡ (err e', s')
        → Published ctx body s (err (retry_error e e'), s')
    -- a second call, on a new connection
    retried :
        {e : Error} {s1 s2 s3 s' : Client × W} {r : Result (Unit {0})}
        → Prepared s s1
        → Sends ctx body s1 (err e) s2
        → reconnect_locked amqp s2 ≡ (ok tt, s3)
        → Sends ctx body s3 r s'
        → Published ctx body s (r, s')

  publish_once-Sends :
      (ctx : Context) (body : Bytes) (s : Client × W)
      → HasChannel s
      → Sends ctx body s (publish_once amqp ctx body s).0 (publish_once amqp ctx body s).1
  unfolding publish_once publish_on
  publish_once-Sends ctx body (c, w) (ch, e) = rw e (ch, refl, refl, refl)

  second_attempt-Published :
      (ctx : Context) (body : Bytes) (s s1 s2 : Client × W) (e : Error)
      → Prepared s s1
      → Sends ctx body s1 (err e) s2
      → (r : Result (Unit {0})) (s3 : Client × W) → reconnect_locked amqp s2 ≡ (r, s3)
      → Published ctx body s (second_attempt amqp ctx body e r s3)
  unfolding second_attempt
  second_attempt-Published ctx body s s1 s2 e p sends (err e') s3 h = gave_up p sends h
  second_attempt-Published ctx body s s1 s2 e p sends (ok _) s3 h = retried p sends h (
      publish_once-Sends ctx body s3
        (subst (λ x. Connects (x.0, x.1)) h (reconnect_locked-Connects s2)))

  after_attempt-Published :
      (ctx : Context) (body : Bytes) (s s1 : Client × W)
      → Prepared s s1
      → (r : Result (Unit {0})) (s2 : Client × W) → Sends ctx body s1 r s2
      → Published ctx body s (after_attempt amqp ctx body r s2)
  unfolding after_attempt
  after_attempt-Published ctx body s s1 p (ok _) s2 sends = sent p sends
  after_attempt-Published ctx body s s1 p (err e) s2 sends =
      second_attempt-Published ctx body s s1 s2 e p sends (reconnect_locked amqp s2).0
        (reconnect_locked amqp s2).1 refl

  attempt-Published :
      (ctx : Context) (body : Bytes) (s s1 : Client × W)
      → Prepared s s1
      → HasChannel s1
      → Published ctx body s (attempt amqp ctx body s1)
  unfolding attempt
  attempt-Published ctx body s s1 p h =
      after_attempt-Published ctx body s s1 p (publish_once amqp ctx body s1).0
        (publish_once amqp ctx body s1).1 (publish_once-Sends ctx body s1 h)

  attempt_prepared-Published :
      (ctx : Context) (body : Bytes) (s : Client × W)
      → ready_locked amqp s ≡ false
      → (r : Result (Unit {0})) (s1 : Client × W) → reconnect_locked amqp s ≡ (r, s1)
      → Published ctx body s (attempt_prepared amqp ctx body r s1)
  unfolding attempt_prepared
  attempt_prepared-Published ctx body s e (err e') s1 h = unavailable e h
  attempt_prepared-Published ctx body s e (ok _) s1 h =
      attempt-Published ctx body s s1 (inr (e, h))
        (subst (λ x. Connects (x.0, x.1)) h (reconnect_locked-Connects s))

  -- `Publish` hands the body to the broker at most twice: once on the client's channel, which is
  -- renewed first when the client is not ready, and once more, on a new connection, only after the
  -- first call failed. It never calls through a missing channel, it reports success exactly when the
  -- last call succeeded, and it reports a failed reconnection with the error of the call before it.
  pub publish-Published :
      (ctx : Context) (body : Bytes) (s : Client × W)
      → Published ctx body s (publish amqp ctx body s)
  unfolding publish
  publish-Published ctx body s = elim (Bool-cases (ready_locked amqp s)) [
    | inl e ↦ rw e (attempt-Published ctx body s s (inl (e, refl)) (ready-HasChannel s e))
    | inr e ↦ rw e (
        attempt_prepared-Published ctx body s e (reconnect_locked amqp s).0
          (reconnect_locked amqp s).1 refl)
  ]
