-- ===== src/Queue/Pairs.antt =====
-- Two clients of internal/queue/queue.go in one process, as cmd/main.go has them.
use native.Mathlib.Decide.{ℕ_discrete}
use golang_videoencoder_api.Prelude.{ℕ, Option, none, some, ◌≡◌, ◌≢◌, ◌⊎◌, inl, inr, ap}
use golang_videoencoder_api.Result.{Result, ok, err}
use golang_videoencoder_api.Queue.{Amqp, Client, connect, close}
use golang_videoencoder_api.Queue.Ownership.{
  Dials, ConnectionLaws, Owns, close_locked-IsIdle, connect_locked-Owns,
}
use golang_videoencoder_api.Queue.Lifetime.{Call, perform, perform-Owns}

connection_cases : (o : Option ℕ) (k : ℕ) → (o ≡ some k) ⊎ (o ≢ some k)
connection_cases none k = inr (λ e. cc e)
connection_cases (some n) k = elim (ℕ_discrete n k) [
  | yes e ↦ inl (ap some e)
  | no ne ↦ inr (λ e. ne (cc e))
]

module _ {W : Type 0} (held : W → ℕ → Type 0) where
  -- The open connections without that of the other client.
  abbrev pub Apart : Option ℕ → W → ℕ → Type 0
  Apart other w k = held w k × (other ≢ some k)

  -- Every open connection is one of those of the two clients.
  abbrev pub Share : Client → Client → W → Type 0
  Share c d w = (k : ℕ) → held w k → (c.connection ≡ some k) ⊎ (d.connection ≡ some k)

  pub Share-swap : (c d : Client) (w : W) → Share c d w → Share d c w
  Share-swap c d w share k h = elim (share k h) [ inl e ↦ inr e | inr e ↦ inl e ]

  module _ (other : Option ℕ) where
    Apart-Dials : (w : W) (r : Result ℕ × W) → Dials held w r → Dials (Apart other) w r
    Apart-Dials w (ok n, v) dials =
        λ k p. elim (dials k p.0) [ inl e ↦ inl e | inr before ↦ inr (before, p.1) ]
    Apart-Dials w (err e, v) dials = λ k p. (dials k p.0, p.1)

    Apart-ConnectionLaws :
        (amqp : Amqp W) → ConnectionLaws held amqp → ConnectionLaws (Apart other) amqp
    Apart-ConnectionLaws amqp laws = record {
      dial = λ url w. Apart-Dials w (amqp.dial url w) (laws.dial url w);
      close_connection =
          λ n w k p. let (ne, before) = laws.close_connection n w k p.0 in (ne, (before, p.1));
      open_channel = λ n w k p. (laws.open_channel n w k p.0, p.1);
      qos = λ ch prefetch w k p. (laws.qos ch prefetch w k p.0, p.1);
      close_channel = λ ch w k p. (laws.close_channel ch w k p.0, p.1);
      exchange_declare = λ ch name w k p. (laws.exchange_declare ch name w k p.0, p.1);
      queue_declare =
          λ ch name dead_letters w k p. (laws.queue_declare ch name dead_letters w k p.0, p.1);
      queue_bind = λ ch queue exchange w k p. (laws.queue_bind ch queue exchange w k p.0, p.1);
      publish = λ ctx ch queue body w k p. (laws.publish ctx ch queue body w k p.0, p.1);
      consume = λ ch queue consumer auto_ack w k p.
          (laws.consume ch queue consumer auto_ack w k p.0, p.1);
    }

  Share-Owns : (c d : Client) (w : W) → Share c d w → Owns (Apart d.connection) (c, w)
  Share-Owns c d w share k (h, ne) = elim (share k h) [ inl e ↦ e | inr e ↦ absurd (ne e) ]

  Owns-Share : (c d : Client) (w : W) → Owns (Apart d.connection) (c, w) → Share c d w
  Owns-Share c d w own k h = elim (connection_cases d.connection k) [
    | inl e ↦ inr e
    | inr ne ↦ inl (own k (h, ne))
  ]

  module _ (amqp : Amqp W) (laws : ConnectionLaws held amqp) where
    -- A call of the first client.
    pub perform-Share :
        (call : Call) (c d : Client) (w : W)
        → Share c d w
        → let (c', w') = perform amqp call (c, w) in Share c' d w'
    perform-Share call c d w share =
        let (c', w') = perform amqp call (c, w) in
        Owns-Share c' d w' (
          perform-Owns (Apart d.connection) amqp (Apart-ConnectionLaws d.connection amqp laws) call
            (c, w) (Share-Owns c d w share))

    -- The first client connects, while all open connections are of the second.
    pub connect-Share :
        (c d : Client) (w : W)
        → Owns held (d, w)
        → let (_, (c', w')) = connect amqp (c, w) in Share c' d w'
    unfolding connect
    connect-Share c d w own =
        let (_, (c', w')) = connect amqp (c, w) in
        Owns-Share c' d w' (
          connect_locked-Owns (Apart d.connection) amqp
            (Apart-ConnectionLaws d.connection amqp laws) (c, w) (λ k p. p.1 (own k p.0)))

    -- The first client closes: what is open is of the second.
    pub close-Owns :
        (c d : Client) (w : W)
        → Share c d w
        → let (_, (c', w')) = close amqp (c, w) in Owns held (d, w')
    unfolding close
    close-Owns c d w share k h =
        let (_, nothing) =
          close_locked-IsIdle (Apart d.connection) amqp
            (Apart-ConnectionLaws d.connection amqp laws) (c, w) (Share-Owns c d w share) in
        elim (connection_cases d.connection k) [ inl e ↦ e | inr ne ↦ absurd (nothing k (h, ne)) ]
