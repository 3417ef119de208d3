-- ===== src/Queue.antt =====
-- internal/queue/queue.go: a client of RabbitMQ that reconnects. Each method holds the client's mutex
-- from its first line to its last, so a method is one step on the client and the world.
pub mod Publishing
pub mod Attempts
pub mod Ownership
pub mod Lifetime
pub mod Topology
pub mod Pairs
pub mod Links
use golang_videoencoder_api.Prelude.{
  [], ℕ, ℤ, is_positive, pos_part, Bytes, bytes, is_empty, if◌then◌else◌, ◌++◌, Bool, false, not,
  ◌&&◌, Option, none, some,
}
use golang_videoencoder_api.Result.{Error, Result, ok, err, text, wrap, message}
use golang_videoencoder_api.Exec.{Exec, pure, raise, continue, rescue, ◌>>=◌, ◌>>◌}
use golang_videoencoder_api.Machine.{Context}

-- The calls of github.com/rabbitmq/amqp091-go; connections, channels and streams of deliveries are
-- known by a number. `dial` carries the time limit of five seconds.
pub record Amqp (W : Type 0) : Type 0 where
  pub dial : Bytes → Exec W ℕ
  pub open_channel : ℕ → Exec W ℕ
  pub qos : ℕ → ℕ → Exec W (Unit {0})
  pub close_channel : ℕ → Exec W (Unit {0})
  pub close_connection : ℕ → Exec W (Unit {0})
  pub connection_is_closed : ℕ → W → Bool
  pub channel_is_closed : ℕ → W → Bool
  -- channel, name: a durable exchange of the kind `fanout`
  pub exchange_declare : ℕ → Bytes → Exec W (Unit {0})
  -- channel, name, the argument `x-dead-letter-exchange`: a durable queue; its name is returned
  pub queue_declare : ℕ → Bytes → Option Bytes → Exec W Bytes
  -- channel, queue, exchange
  pub queue_bind : ℕ → Bytes → Bytes → Exec W (Unit {0})
  -- channel, queue, body
  pub publish : Context → ℕ → Bytes → Bytes → Exec W (Unit {0})
  -- channel, queue, consumer, autoAck
  pub consume : ℕ → Bytes → Bytes → Bool → Exec W ℕ

-- `Client`; the connection and the channel are pointers.
pub record Client : Type 0 where
  pub url : Bytes
  pub queue_name : Bytes
  pub prefetch : ℤ
  pub connection : Option ℕ
  pub channel : Option ℕ

-- `NewClient`
unfoldable pub new_client : Client
new_client = record {
  url = [];
  queue_name = [];
  prefetch = ℤ.pos 0;
  connection = none;
  channel = none;
}

abbrev pub required : Bytes → Error
required name = text (name ++ bytes " is required")

-- `NewClientFromEnv`
unfoldable pub new_client_from_env : (Bytes → Bytes) → Result Client
new_client_from_env getenv =
    let queue_name = getenv (bytes "RABBITMQ_QUEUE") in
    let rabbit_url = getenv (bytes "RABBITMQ_URL") in
    if is_empty queue_name
    then err (required (bytes "RABBITMQ_QUEUE"))
    else if is_empty rabbit_url
    then err (required (bytes "RABBITMQ_URL"))
    else ok (record {
      url = rabbit_url;
      queue_name = queue_name;
      prefetch = ℤ.pos 0;
      connection = none;
      channel = none;
    })

-- The error of the channel comes first.
abbrev first_error : Result (Unit {0}) → Result (Unit {0}) → Result (Unit {0})
first_error (err e) _ = err e
first_error (ok _) r = r

abbrev pub channel_missing : Error
channel_missing = text (bytes "rabbitmq channel is not initialized")

-- A call through the nil channel, which is a panic.
abbrev pub nil_channel : Error
nil_channel = text (bytes "runtime error: invalid memory address or nil pointer dereference")

-- The handle is closed unless the pointer is nil.
unfoldable pub close_if : {W : Type 0} → (ℕ → Exec W (Unit {0})) → Option ℕ → Exec W (Unit {0})
close_if close_handle none w = (ok tt, w)
close_if close_handle (some handle) w = close_handle handle w

module _ {W : Type 0} (amqp : Amqp W) where
  -- A method acts on the client and the world.
  abbrev pub Method : Type 0 → Type 0
  Method A = Exec (Client × W) A

  unfoldable pub connected : ℕ → ℕ → Method (Unit {0})
  connected conn ch (c, w) = (ok tt, (record c { connection = some conn; channel = some ch }, w))

  unfoldable pub limited : ℕ → ℕ → Result (Unit {0}) → Method (Unit {0})
  unfolding connected
  limited conn ch (ok _) s = connected conn ch s
  limited conn ch (err e) (c, w) =
      let (_, w1) = amqp.close_channel ch w in
      let (_, w2) = amqp.close_connection conn w1 in (err e, (c, w2))

  unfoldable pub limit : ℕ → ℕ → Method (Unit {0})
  unfolding limited
  limit conn ch (c, w) =
      if is_positive c.prefetch
      then (let (r, w') = amqp.qos ch (pos_part c.prefetch) w in limited conn ch r (c, w'))
      else connected conn ch (c, w)

  unfoldable pub opened : ℕ → Result ℕ → Method (Unit {0})
  unfolding limit
  opened conn (ok ch) s = limit conn ch s
  opened conn (err e) (c, w) = let (_, w') = amqp.close_connection conn w in (err e, (c, w'))

  unfoldable pub dialed : Result ℕ → Method (Unit {0})
  unfolding opened
  dialed (err e) s = (err e, s)
  dialed (ok conn) (c, w) = let (r, w') = amqp.open_channel conn w in opened conn r (c, w')

  -- `connectLocked`
  unfoldable pub connect_locked : Method (Unit {0})
  unfolding dialed
  connect_locked (c, w) = let (r, w') = amqp.dial c.url w in dialed r (c, w')

  -- `closeLocked`
  unfoldable pub close_locked : Method (Unit {0})
  unfolding close_if
  close_locked (c, w) =
      let (r1, w1) = close_if amqp.close_channel c.channel w in
      let (r2, w2) = close_if amqp.close_connection c.connection w1 in
      (first_error r1 r2, (record c { connection = none; channel = none }, w2))

  abbrev is_open : (ℕ → W → Bool) → Option ℕ → W → Bool
  is_open is_closed none w = false
  is_open is_closed (some handle) w = not (is_closed handle w)

  -- `readyLocked`
  unfoldable pub ready_locked : Client × W → Bool
  ready_locked (c, w) =
      is_open amqp.connection_is_closed c.connection w && is_open amqp.channel_is_closed c.channel w

  -- `reconnectLocked`
  unfoldable pub reconnect_locked : Method (Unit {0})
  unfolding close_locked connect_locked
  reconnect_locked s = let (_, s') = close_locked s in connect_locked s'

  -- `Reconnect`
  abbrev pub reconnect : Method (Unit {0})
  reconnect s = reconnect_locked s

  -- `Connect`
  unfoldable pub connect : Method (Unit {0})
  unfolding connect_locked
  connect s = connect_locked s

  -- `EnsureReady`
  unfoldable pub ensure_ready : Method (Unit {0})
  unfolding ready_locked reconnect_locked
  ensure_ready s = if ready_locked s then (ok tt, s) else reconnect_locked s

  -- `IsReady`
  unfoldable pub is_ready : Client × W → Bool
  unfolding ready_locked
  is_ready s = ready_locked s

  -- `Close`
  unfoldable pub close : Method (Unit {0})
  unfolding close_locked
  close s = close_locked s
