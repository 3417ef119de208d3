-- ===== src/Queue/Lifetime.antt =====
-- The client of internal/queue/queue.go over any sequence of its calls.
use golang_videoencoder_api.Prelude.{ℕ, Bytes, List, [], ◌∷◌, Bool, Option, none, some, ◌≡◌}
use golang_videoencoder_api.Result.{Error, Result, ok, err}
use golang_videoencoder_api.Exec.{Exec, continue, rescue, ◌>>=◌}
use golang_videoencoder_api.Machine.{Context}
use golang_videoencoder_api.Queue.{
  Amqp, Client, close_locked, reconnect, connect, ensure_ready, close,
}
use golang_videoencoder_api.Queue.Publishing.{publish, consume}
use golang_videoencoder_api.Queue.Topology.{declare_on, declare_through, declare}
use golang_videoencoder_api.Queue.Ownership.{
  OpensNone, ConnectionLaws, HoldsNone, Owns, IsIdle, IsIdle-Owns, close_locked-IsIdle,
  connect_locked-Owns, reconnect_locked-Owns, ensure_ready-Owns, publish-Owns, consume_on-Owns,
}

-- A call of a method other than `Connect`.
pub data Call : Type 0 where
  reconnecting ensuring closing declaring : Call
  publishing : (ctx : Context) (body : Bytes) → Call
  consuming : (consumer : Bytes) (auto_ack : Bool) → Call

-- Any call of a method of a client.
pub data Use : Type 0 where
  connecting : Use
  calling : Call → Use

module _ {W : Type 0} (amqp : Amqp W) where
  abbrev pub perform : Call → Client × W → Client × W
  perform reconnecting s = (reconnect amqp s).1
  perform ensuring s = (ensure_ready amqp s).1
  perform closing s = (close amqp s).1
  perform declaring s = (declare amqp s).1
  perform (publishing ctx body) s = (publish amqp ctx body s).1
  perform (consuming consumer auto_ack) s = (consume amqp consumer auto_ack s).1

  abbrev pub perform_use : Use → Client × W → Client × W
  perform_use connecting s = (connect amqp s).1
  perform_use (calling call) s = perform call s

  abbrev pub perform_all : List Use → Client × W → Client × W
  perform_all [] s = s
  perform_all (used ∷ rest) s = perform_all rest (perform_use used s)

  -- Each `Connect` of these calls finds a client that has no connection.
  abbrev pub ConnectsAfresh : List Use → Client × W → Type 0
  ConnectsAfresh [] s = Unit
  ConnectsAfresh (connecting ∷ rest) s =
      (s.0.connection ≡ none) × ConnectsAfresh rest (perform_use connecting s)
  ConnectsAfresh (calling call ∷ rest) s = ConnectsAfresh rest (perform_use (calling call) s)

-- Every open connection is the client's, and `Close` leaves none.
abbrev pub IsTidy : {W : Type 0} → (W → ℕ → Type 0) → Amqp W → Client × W → Type 0
IsTidy held amqp t = Owns held t × IsIdle held (close amqp t).1

module _ {W : Type 0} (held : W → ℕ → Type 0) where
  record IsQuiet {A : Type 0} (m : Exec W A) : Type 0 where
    at : OpensNone held m

  IsQuiet-continue :
      {A B : Type 0} (r : Result A) (f : A → Exec W B)
      → ((a : A) → IsQuiet (f a))
      → IsQuiet (continue r f)
  IsQuiet-continue (ok a) f later = later a
  IsQuiet-continue (err e) f later = record { at = λ w k h. h }

  IsQuiet-bind :
      {A B : Type 0} (m : Exec W A) (f : A → Exec W B)
      → IsQuiet m
      → ((a : A) → IsQuiet (f a))
      → IsQuiet (m >>= f)
  IsQuiet-bind m f first later = record {
    at = λ w k h. first.at w k ((IsQuiet-continue (m w).0 f later).at (m w).1 k h);
  }

  IsQuiet-rescue :
      {A : Type 0} (f : Error → Error) (m : Exec W A) → IsQuiet m → IsQuiet (rescue f m)
  IsQuiet-rescue f m first = record { at = λ w k h. first.at w k h }

  module _ (amqp : Amqp W) (laws : ConnectionLaws held amqp) where
    exchange_declare-IsQuiet : (ch : ℕ) (name : Bytes) → IsQuiet (amqp.exchange_declare ch name)
    exchange_declare-IsQuiet ch name = record { at = laws.exchange_declare ch name }

    queue_declare-IsQuiet :
        (ch : ℕ) (name : Bytes) (dead_letters : Option Bytes)
        → IsQuiet (amqp.queue_declare ch name dead_letters)
    queue_declare-IsQuiet ch name dead_letters = record {
      at = laws.queue_declare ch name dead_letters;
    }

    queue_bind-IsQuiet :
        (ch : ℕ) (queue exchange : Bytes) → IsQuiet (amqp.queue_bind ch queue exchange)
    queue_bind-IsQuiet ch queue exchange = record { at = laws.queue_bind ch queue exchange }

    declare_on-IsQuiet : (ch : ℕ) (name : Bytes) → IsQuiet (declare_on amqp ch name)
    unfolding declare_on
    declare_on-IsQuiet ch name =
        search
          (
            IsQuiet-bind, IsQuiet-rescue, exchange_declare-IsQuiet, queue_declare-IsQuiet,
            queue_bind-IsQuiet,
          )
          depth 8

    declare_through-Owns :
        (o : Option ℕ) (s : Client × W) → Owns held s → Owns held (declare_through amqp o s).1
    unfolding declare_through
    declare_through-Owns none s own = own
    declare_through-Owns (some ch) (c, w) own =
        λ k h. own k ((declare_on-IsQuiet ch c.queue_name).at w k h)

    pub perform-Owns :
        (call : Call) (s : Client × W) → Owns held s → Owns held (perform amqp call s)
    unfolding close declare consume
    perform-Owns reconnecting s own = reconnect_locked-Owns held amqp laws s own
    perform-Owns ensuring s own = ensure_ready-Owns held amqp laws s own
    perform-Owns closing s own =
        IsIdle-Owns held (close_locked amqp s).1 (close_locked-IsIdle held amqp laws s own)
    perform-Owns declaring (c, w) own = declare_through-Owns c.channel (c, w) own
    perform-Owns (publishing ctx body) s own = publish-Owns held amqp laws ctx body s own
    perform-Owns (consuming consumer auto_ack) (c, w) own =
        consume_on-Owns held amqp laws consumer auto_ack c.channel (c, w) own

    -- A client with no connection, while every open connection is the client's.
    Owns-HoldsNone : (s : Client × W) → Owns held s → s.0.connection ≡ none → HoldsNone held s.1
    Owns-HoldsNone s own gone k h = cc (own k h)

    perform_all-Owns :
        (uses : List Use) (s : Client × W)
        → ConnectsAfresh amqp uses s
        → Owns held s
        → Owns held (perform_all amqp uses s)
    unfolding connect
    perform_all-Owns [] s afresh own = own
    perform_all-Owns (connecting ∷ rest) s (gone, afresh) own =
        perform_all-Owns rest _ afresh
          (connect_locked-Owns held amqp laws s (Owns-HoldsNone s own gone))
    perform_all-Owns (calling call ∷ rest) s afresh own =
        perform_all-Owns rest _ afresh (perform-Owns call s own)

    -- No connection leaks while `Connect` is not called over an open one. Where the broker's calls open
    -- and close connections as documented, none is open at first, and each `Connect` finds a client that
    -- has no connection: after any calls of the client, failed ones included, every open connection is
    -- the one the client has, and a `Close` then leaves the client without one and none open.
    pub perform_all-IsTidy :
        (uses : List Use) (s : Client × W)
        → ConnectsAfresh amqp uses s
        → HoldsNone held s.1
        → IsTidy held amqp (perform_all amqp uses s)
    unfolding close
    perform_all-IsTidy uses s afresh nothing =
        let own = perform_all-Owns uses s afresh (λ k h. absurd (nothing k h)) in
        (own, close_locked-IsIdle held amqp laws (perform_all amqp uses s) own)
