-- ===== src/Queue/Ownership.antt =====
-- The connections to RabbitMQ that the methods of internal/queue/queue.go open and close.
use golang_videoencoder_api.Prelude.{
  ℕ, Bytes, Bool, Bool-cases, Option, none, some, ◌≡◌, ◌≢◌, ◌⊎◌, inl, inr, refl, sym, ap,
  is_positive, pos_part,
}
use golang_videoencoder_api.Result.{Error, Result, ok, err}
use golang_videoencoder_api.Exec.{Exec}
use golang_videoencoder_api.Machine.{Context}
use golang_videoencoder_api.Queue.{
  Amqp, Client, connected, limited, limit, opened, dialed, connect_locked, close_if, close_locked,
  ready_locked, reconnect_locked, ensure_ready,
}
use golang_videoencoder_api.Queue.Publishing.{
  publish_on, publish_once, second_attempt, after_attempt, attempt, attempt_prepared, publish,
  consume_on,
}

module _ {W : Type 0} (held : W → ℕ → Type 0) where
  -- The call opens no connection.
  abbrev pub OpensNone : {A : Type 0} → Exec W A → Type 0
  OpensNone m = (w : W) (k : ℕ) → held (m w).1 k → held w k

  abbrev pub Dials : W → Result ℕ × W → Type 0
  Dials w (ok n, v) = (k : ℕ) → held v k → (k ≡ n) ⊎ held w k
  Dials w (err e, v) = (k : ℕ) → held v k → held w k

  -- The documented effect of the calls on the open connections of this process.
  pub record ConnectionLaws (amqp : Amqp W) : Type 0 where
    pub dial : (url : Bytes) (w : W) → Dials w (amqp.dial url w)
    pub close_connection :
        (n : ℕ) (w : W) (k : ℕ) → held (amqp.close_connection n w).1 k → (k ≢ n) × held w k
    pub open_channel : (n : ℕ) → OpensNone (amqp.open_channel n)
    pub qos : (ch prefetch : ℕ) → OpensNone (amqp.qos ch prefetch)
    pub close_channel : (ch : ℕ) → OpensNone (amqp.close_channel ch)
    pub exchange_declare : (ch : ℕ) (name : Bytes) → OpensNone (amqp.exchange_declare ch name)
    pub queue_declare :
        (ch : ℕ) (name : Bytes) (dead_letters : Option Bytes)
        → OpensNone (amqp.queue_declare ch name dead_letters)
    pub queue_bind :
        (ch : ℕ) (queue exchange : Bytes) → OpensNone (amqp.queue_bind ch queue exchange)
    pub publish :
        (ctx : Context) (ch : ℕ) (queue body : Bytes) → OpensNone (amqp.publish ctx ch queue body)
    pub consume :
        (ch : ℕ) (queue consumer : Bytes) (auto_ack : Bool)
        → OpensNone (amqp.consume ch queue consumer auto_ack)

  abbrev pub HoldsNone : W → Type 0
  HoldsNone w = (k : ℕ) → ¬ (held w k)

  -- Every open connection is the one of the client.
  abbrev pub Owns : Client × W → Type 0
  Owns (c, w) = (k : ℕ) → held w k → c.connection ≡ some k

  -- The client has no connection, and none is open.
  abbrev pub IsIdle : Client × W → Type 0
  IsIdle (c, w) = (c.connection ≡ none) × HoldsNone w

  pub IsIdle-Owns : (s : Client × W) → IsIdle s → Owns s
  IsIdle-Owns (c, w) (_, nothing) k h = absurd (nothing k h)

  module _ (amqp : Amqp W) (laws : ConnectionLaws amqp) where
    close_if-HoldsNone :
        (o : Option ℕ) (w : W)
        → ((k : ℕ) → held w k → o ≡ some k)
        → HoldsNone (close_if amqp.close_connection o w).1
    unfolding close_if
    close_if-HoldsNone none w own k h = cc (own k h)
    close_if-HoldsNone (some n) w own k h =
        let (ne, before) = laws.close_connection n w k h in absurd (ne (cc (own k before)))

    close_if-Owns :
        (o p : Option ℕ) (w : W)
        → ((k : ℕ) → held w k → p ≡ some k)
        → (k : ℕ) → held (close_if amqp.close_channel o w).1 k
        → p ≡ some k
    unfolding close_if
    close_if-Owns none p w own k h = own k h
    close_if-Owns (some ch) p w own k h = own k (laws.close_channel ch w k h)

    pub close_locked-IsIdle : (s : Client × W) → Owns s → IsIdle (close_locked amqp s).1
    unfolding close_locked
    close_locked-IsIdle (c, w) own =
        (refl, close_if-HoldsNone c.connection _ (close_if-Owns c.channel c.connection w own))

    -- Only this connection is open.
    abbrev HoldsOnly : ℕ → W → Type 0
    HoldsOnly n w = (k : ℕ) → held w k → k ≡ n

    after_close : (n : ℕ) (w : W) → HoldsOnly n w → HoldsNone (amqp.close_connection n w).1
    after_close n w only k h =
        let (ne, before) = laws.close_connection n w k h in ne (only k before)

    limited-Owns :
        (conn ch : ℕ) (r : Result (Unit {0})) (c : Client) (w : W)
        → HoldsOnly conn w
        → Owns (limited amqp conn ch r (c, w)).1
    unfolding limited connected
    limited-Owns conn ch (ok _) c w only k h = ap some (sym (only k h))
    limited-Owns conn ch (err e) c w only k h =
        absurd (after_close conn _ (λ j g. only j (laws.close_channel ch w j g)) k h)

    limit-Owns :
        (conn ch : ℕ) (c : Client) (w : W) → HoldsOnly conn w → Owns (limit amqp conn ch (c, w)).1
    unfolding limit connected
    limit-Owns conn ch c w only = elim (Bool-cases (is_positive c.prefetch)) [
      | inl e ↦ rw e (
          limited-Owns conn ch (amqp.qos ch (pos_part c.prefetch) w).0 c _
            (λ j g. only j (laws.qos ch (pos_part c.prefetch) w j g)))
      | inr e ↦ rw e (λ k h. ap some (sym (only k h)))
    ]

    opened-Owns :
        (conn : ℕ) (r : Result ℕ) (c : Client) (w : W)
        → HoldsOnly conn w
        → Owns (opened amqp conn r (c, w)).1
    unfolding opened
    opened-Owns conn (ok ch) c w only = limit-Owns conn ch c w only
    opened-Owns conn (err e) c w only = λ k h. absurd (after_close conn w only k h)

    dialed-Owns :
        (r : Result ℕ) (c : Client) (w v : W)
        → HoldsNone w
        → Dials w (r, v)
        → Owns (dialed amqp r (c, v)).1
    unfolding dialed
    dialed-Owns (ok n) c w v nothing dials = opened-Owns n (amqp.open_channel n v).0 c _ (λ k h.
        elim (dials k (laws.open_channel n v k h)) [
          | inl e ↦ e
          | inr before ↦ absurd (nothing k before)
        ])
    dialed-Owns (err e) c w v nothing dials = λ k h. absurd (nothing k (dials k h))

    pub connect_locked-Owns : (s : Client × W) → HoldsNone s.1 → Owns (connect_locked amqp s).1
    unfolding connect_locked
    connect_locked-Owns (c, w) nothing =
        dialed-Owns (amqp.dial c.url w).0 c w _ nothing (laws.dial c.url w)

    pub reconnect_locked-Owns : (s : Client × W) → Owns s → Owns (reconnect_locked amqp s).1
    unfolding reconnect_locked
    reconnect_locked-Owns s own = connect_locked-Owns _ (close_locked-IsIdle s own).1

    pub ensure_ready-Owns : (s : Client × W) → Owns s → Owns (ensure_ready amqp s).1
    unfolding ensure_ready
    ensure_ready-Owns s own = elim (Bool-cases (ready_locked amqp s)) [
      | inl e ↦ rw e own
      | inr e ↦ rw e (reconnect_locked-Owns s own)
    ]

    publish_on-Owns :
        (ctx : Context) (body : Bytes) (o : Option ℕ) (s : Client × W)
        → Owns s
        → Owns (publish_on amqp ctx body o s).1
    unfolding publish_on
    publish_on-Owns ctx body none s own = own
    publish_on-Owns ctx body (some ch) (c, w) own =
        λ k h. own k (laws.publish ctx ch c.queue_name body w k h)

    publish_once-Owns :
        (ctx : Context) (body : Bytes) (s : Client × W)
        → Owns s
        → Owns (publish_once amqp ctx body s).1
    unfolding publish_once
    publish_once-Owns ctx body (c, w) own = publish_on-Owns ctx body c.channel (c, w) own

    second_attempt-Owns :
        (ctx : Context) (body : Bytes) (e : Error) (r : Result (Unit {0})) (s : Client × W)
        → Owns s
        → Owns (second_attempt amqp ctx body e r s).1
    unfolding second_attempt
    second_attempt-Owns ctx body e (err e') s own = own
    second_attempt-Owns ctx body e (ok _) s own = publish_once-Owns ctx body s own

    after_attempt-Owns :
        (ctx : Context) (body : Bytes) (r : Result (Unit {0})) (s : Client × W)
        → Owns s
        → Owns (after_attempt amqp ctx body r s).1
    unfolding after_attempt
    after_attempt-Owns ctx body (ok _) s own = own
    after_attempt-Owns ctx body (err e) s own =
        second_attempt-Owns ctx body e _ _ (reconnect_locked-Owns s own)

    attempt-Owns :
        (ctx : Context) (body : Bytes) (s : Client × W) → Owns s → Owns (attempt amqp ctx body s).1
    unfolding attempt
    attempt-Owns ctx body s own = after_attempt-Owns ctx body _ _ (publish_once-Owns ctx body s own)

    attempt_prepared-Owns :
        (ctx : Context) (body : Bytes) (r : Result (Unit {0})) (s : Client × W)
        → Owns s
        → Owns (attempt_prepared amqp ctx body r s).1
    unfolding attempt_prepared
    attempt_prepared-Owns ctx body (err e) s own = own
    attempt_prepared-Owns ctx body (ok _) s own = attempt-Owns ctx body s own

    pub publish-Owns :
        (ctx : Context) (body : Bytes) (s : Client × W) → Owns s → Owns (publish amqp ctx body s).1
    unfolding publish
    publish-Owns ctx body s own = elim (Bool-cases (ready_locked amqp s)) [
      | inl e ↦ rw e (attempt-Owns ctx body s own)
      | inr e ↦ rw e (attempt_prepared-Owns ctx body _ _ (reconnect_locked-Owns s own))
    ]

    pub consume_on-Owns :
        (name : Bytes) (auto_ack : Bool) (o : Option ℕ) (s : Client × W)
        → Owns s
        → Owns (consume_on amqp name auto_ack o s).1
    unfolding consume_on
    consume_on-Owns name auto_ack none s own = own
    consume_on-Owns name auto_ack (some ch) (c, w) own =
        λ k h. own k (laws.consume ch c.queue_name name auto_ack w k h)
