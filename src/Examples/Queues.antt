-- ===== src/Examples/Queues.antt =====
-- A broker that loses its first channel.
use golang_videoencoder_api.Prelude.{
  Bool, ◌≢◌, ◌⊎◌, inl, inr, arith, none, true, ℕ, suc, pos, Bytes, bytes, [], ◌∷◌, ◌++◌, List,
  false, if◌then◌else◌, some, Option, ◌==◌, ◌≡◌, refl,
}
use golang_videoencoder_api.Result.{Result, ok, err, text}
use golang_videoencoder_api.Machine.{background}
use golang_videoencoder_api.Queue.{Amqp, Client, ready_locked, reconnect_locked, connect, close}
use golang_videoencoder_api.Queue.Publishing.{publish, attempt, publish_once}
use golang_videoencoder_api.Queue.Attempts.{Published, publish-Published}
use golang_videoencoder_api.Worker.Settlement.{Settled}
use golang_videoencoder_api.Queue.Topology.{
  Fact, exchange, queue, binding, DeclarationLaws, Declared, declare, declare-Declared,
}
use golang_videoencoder_api.Queue.Ownership.{ConnectionLaws}
use golang_videoencoder_api.Queue.Lifetime.{
  reconnecting, ensuring, closing, declaring, publishing, consuming, Use, connecting, calling,
  perform_all, IsTidy, perform_all-IsTidy,
}

pub record Rabbit : Type 0 where
  pub next : ℕ
  pub sent : List Bytes
  pub connections : List ℕ
  pub facts : List Fact
  pub told : Settled
  pub limit_of : ℕ → Option ℕ

abbrev pub contains : List ℕ → ℕ → Bool
contains [] k = false
contains (n ∷ rest) k = if n == k then true else contains rest k

abbrev without : ℕ → List ℕ → List ℕ
without n [] = []
without n (m ∷ rest) = if m == n then without n rest else m ∷ without n rest

abbrev pub Held : Rabbit → ℕ → Type 0
Held b k = contains b.connections k ≡ true

abbrev pub Among : Fact → List Fact → Type 0
Among fact [] = ⊥
Among fact (other ∷ rest) = (fact ≡ other) ⊎ Among fact rest

abbrev pub Known : Rabbit → Fact → Type 0
Known b fact = Among fact b.facts

abbrev fresh : Rabbit → Result ℕ × Rabbit
fresh b = (ok b.next, record b { next = suc b.next })

abbrev done : Rabbit → Result (Unit {0}) × Rabbit
done b = (ok tt, b)

abbrev dialled : Rabbit → Result ℕ × Rabbit
dialled b = (ok b.next, record b { next = suc b.next; connections = b.next ∷ b.connections })

abbrev hung_up : ℕ → Rabbit → Result (Unit {0}) × Rabbit
hung_up n b = (ok tt, record b { connections = without n b.connections })

abbrev declared : {A : Type 0} → A → Fact → Rabbit → Result A × Rabbit
declared a fact b = (ok a, record b { facts = fact ∷ b.facts })

-- Channel 1 is closed by the broker, which the client learns from the call.
abbrev deliver : ℕ → Bytes → Rabbit → Result (Unit {0}) × Rabbit
deliver ch body b =
    if ch == 1
    then (err (text (bytes "channel closed")), b)
    else (ok tt, record b { sent = b.sent ++ (body ∷ []) })

abbrev limited_to : ℕ → ℕ → Rabbit → Rabbit
limited_to ch n b = record b { limit_of = λ k. if k == ch then some n else b.limit_of k }

abbrev pub amqp : Amqp Rabbit
amqp = record {
  dial = λ _. dialled;
  open_channel = λ _. fresh;
  qos = λ ch n b. (ok tt, limited_to ch n b);
  close_channel = λ _. done;
  close_connection = hung_up;
  connection_is_closed = λ _ _. false;
  channel_is_closed = λ _ _. false;
  exchange_declare = λ _ name. declared tt (exchange name);
  queue_declare = λ _ name x. declared name (queue name x);
  queue_bind = λ _ name x. declared tt (binding name x);
  publish = λ _ ch _ body. deliver ch body;
  consume = λ _ _ _ _. fresh;
}

abbrev pub client : Client
client = record {
  url = bytes "amqp://localhost";
  queue_name = bytes "videos";
  prefetch = pos 2;
  connection = some 0;
  channel = some 1;
}

abbrev pub broker : Rabbit
broker = record {
  next = 2;
  sent = [];
  connections = 0 ∷ [];
  facts = [];
  told = [];
  limit_of = λ _. none;
}

publish_lost_channel : publish amqp background (bytes "body") (client, broker) ≡ (
  ok tt,
  (
    record client { connection = some 2; channel = some 3 },
    record {
      next = 4;
      sent = bytes "body" ∷ [];
      connections = 2 ∷ [];
      facts = [];
      told = [];
      limit_of = λ k. if k == 3 then some 2 else none;
    },
  ),
)
unfolding publish ready_locked attempt publish_once reconnect_locked
publish_lost_channel = refl

publish-Published_example :
    Published amqp background
      (bytes "body")
      (client, broker)
      (publish amqp background (bytes "body") (client, broker))
publish-Published_example = publish-Published amqp background (bytes "body") (client, broker)

without_lem :
    (n : ℕ) (l : List ℕ) (k : ℕ) → contains (without n l) k ≡ true → (k ≢ n) × (contains l k ≡ true)
without_lem n [] k h = cc
without_lem n (m ∷ rest) k h = ground (arith, without_lem n rest k)

pub amqp-ConnectionLaws : ConnectionLaws Held amqp
amqp-ConnectionLaws = record {
  dial = λ url w k h. ground arith;
  close_connection = λ n w. without_lem n w.connections;
  open_channel = λ _ w k h. h;
  qos = λ _ _ w k h. h;
  close_channel = λ _ w k h. h;
  exchange_declare = λ _ _ w k h. h;
  queue_declare = λ _ _ _ w k h. h;
  queue_bind = λ _ _ _ w k h. h;
  publish = λ _ ch _ body w k h. ground arith;
  consume = λ _ _ _ _ w k h. h;
}

pub amqp-DeclarationLaws : DeclarationLaws Known amqp
amqp-DeclarationLaws = record {
  exchange_declare = λ _ _ w. (inl refl, λ other h. inr h);
  queue_declare = λ _ _ _ w. (inl refl, λ other h. inr h);
  queue_bind = λ _ _ _ w. (inl refl, λ other h. inr h);
}

declare-Declared_example : Declared Known (client, broker) (declare amqp (client, broker))
declare-Declared_example = declare-Declared Known amqp amqp-DeclarationLaws (client, broker)

abbrev unconnected : Client
unconnected = record client { connection = none; channel = none }

abbrev pub offline : Rabbit
offline = record broker { connections = [] }

abbrev uses : List Use
uses =
    connecting
    ∷ calling declaring
    ∷ calling (publishing background (bytes "body"))
    ∷ calling reconnecting
    ∷ calling (consuming (bytes "worker") false)
    ∷ calling ensuring
    ∷ calling closing
    ∷ connecting
    ∷ calling (publishing background (bytes "again"))
    ∷ []

perform_all-IsTidy_example : IsTidy Held amqp (perform_all amqp uses (unconnected, offline))
unfolding close
perform_all-IsTidy_example =
    perform_all-IsTidy Held amqp amqp-ConnectionLaws uses (unconnected, offline) (refl, (refl, tt))
      (λ k h. cc)

-- A second `Connect` leaves the first connection open.
connected_twice :
    (perform_all amqp
      (connecting ∷ connecting ∷ calling closing ∷ [])
      (unconnected, offline)).1.connections
    ≡ 2 ∷ []
unfolding connect close
connected_twice = refl
