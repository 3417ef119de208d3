-- ===== src/Manager/Consumer.antt =====
-- `consumeOnce`, `reconnect` and `RunQueueConsumer` of internal/job/manager.go. What the loop waits
-- for comes from outside and is given: which case each `select` takes, and when the context ends.
use golang_videoencoder_api.Prelude.{
  ℕ, Bytes, List, [], ◌∷◌, ◌++◌, Bool, true, false, if◌then◌else◌,
}
use golang_videoencoder_api.Result.{Error, Result, ok, err}
use golang_videoencoder_api.Exec.{pure, ◌>>◌}
use golang_videoencoder_api.Queue.{Amqp, Client, Method, reconnect_locked}
use golang_videoencoder_api.Queue.Publishing.{consume}
use golang_videoencoder_api.Queue.Topology.{declare}
use golang_videoencoder_api.Manager.{Broker, min_reconnect_backoff, next_backoff}

-- A delivery: its tag and its body.
abbrev pub Delivered : Type 0
Delivered = ℕ × Bytes

-- What the selects of `consumeOnce` choose: the context is done; the channel of deliveries is closed;
-- a delivery that is handed to the workers; or one at whose handoff the context is done.
pub data Pick : Type 0 where
  done closed : Pick
  handed given_back : (d : Delivered) → Pick

-- How `consumeOnce` ends, if it does.
pub data Ending : Type 0 where
  waiting cancelled drained : Ending
  refused : (e : Error) → Ending

module _ {W : Type 0} (broker : Broker W) where
  -- The loop of `consumeOnce`: its end, and what it sent to `MessageChannel`.
  unfoldable pub stream : List Pick → W → (Ending × List Delivered) × W
  stream [] w = ((waiting, []), w)
  stream (done ∷ _) w = ((cancelled, []), w)
  stream (closed ∷ _) w = ((drained, []), w)
  stream (given_back (tag, _) ∷ _) w =
      let (_, w') = broker.nack tag false true w in ((cancelled, []), w')
  stream (handed d ∷ rest) w = let ((ending, sent), w') = stream rest w in ((ending, d ∷ sent), w')

  unfoldable pub streamed :
      List Pick → Result ℕ → Client × W → (Ending × List Delivered) × (Client × W)
  streamed picks (err e) s = ((refused e, []), s)
  streamed picks (ok _) (c, w) = let (r, w') = stream picks w in (r, (c, w'))

  -- `consumeOnce`
  unfoldable pub consume_once :
      Amqp W → Bytes → List Pick → Client × W → (Ending × List Delivered) × (Client × W)
  unfolding streamed
  consume_once amqp consumer_name picks s =
      let (r, s') = consume amqp consumer_name false s in streamed picks r s'

module _ {W : Type 0} (amqp : Amqp W) where
  -- `reconnect`
  unfoldable pub reconnect : Method amqp (Unit {0})
  reconnect = reconnect_locked amqp >> (declare amqp >> pure tt)

-- One turn of the loop: whether the context is done at its start, after `consumeOnce` ended for
-- another reason, and before the timer fires.
pub record Turn : Type 0 where
  pub done_at_start : Bool
  pub picks : List Pick
  pub done_after : Bool
  pub done_waiting : Bool

-- The loop goes on to its next turn, waits inside `consumeOnce`, or has returned.
pub data Phase : Type 0 where
  running blocked returned : Phase

-- `sent` and `waits` record what the loop sent to the workers, and every wait that ended with a
-- reconnection, with whether that succeeded.
pub record Loop (W : Type 0) : Type 0 where
  pub backoff : ℕ
  pub link : Client × W
  pub sent : List Delivered
  pub waits : List (ℕ × Bool)

module _ {W : Type 0} where
  unfoldable pub start_loop : Client × W → Loop W
  start_loop s = record { backoff = min_reconnect_backoff; link = s; sent = []; waits = [] }

  -- The end of a turn: the backoff grows after a failed reconnection and is reset after another.
  unfoldable pub reconnected : Loop W → Result (Unit {0}) × (Client × W) → Loop W
  reconnected l (ok _, s) = record l {
    backoff = min_reconnect_backoff;
    link = s;
    waits = l.waits ++ ((l.backoff, true) ∷ []);
  }
  reconnected l (err _, s) = record l {
    backoff = next_backoff l.backoff;
    link = s;
    waits = l.waits ++ ((l.backoff, false) ∷ []);
  }

  abbrev pub go_on : (Loop W → Phase × Loop W) → Phase × Loop W → Phase × Loop W
  go_on later (returned, l) = (returned, l)
  go_on later (blocked, l) = (blocked, l)
  go_on later (running, l) = later l

  module _ (broker : Broker W) (amqp : Amqp W) (consumer_name : Bytes) where
    unfoldable pub wait : Bool → Loop W → Phase × Loop W
    unfolding reconnected
    wait true l = (returned, l)
    wait false l = (running, reconnected l (reconnect amqp l.link))

    unfoldable pub consumed : Turn → Ending → Loop W → Phase × Loop W
    unfolding wait
    consumed turn waiting l = (blocked, l)
    consumed turn cancelled l = (returned, l)
    consumed turn drained l = if turn.done_after then (returned, l) else wait turn.done_waiting l
    consumed turn (refused e) l =
        if turn.done_after then (returned, l) else wait turn.done_waiting l

    unfoldable pub turn_once : Turn → Loop W → Phase × Loop W
    unfolding consumed
    turn_once turn l =
        let ((ending, sent), s) = consume_once broker amqp consumer_name turn.picks l.link in
        consumed turn ending (record l { link = s; sent = l.sent ++ sent })

    unfoldable pub take_turn : Turn → Loop W → Phase × Loop W
    unfolding turn_once
    take_turn turn l = if turn.done_at_start then (returned, l) else turn_once turn l

    -- `RunQueueConsumer`
    unfoldable pub run_queue_consumer : List Turn → Loop W → Phase × Loop W
    unfolding take_turn
    run_queue_consumer [] l = (running, l)
    run_queue_consumer (turn ∷ rest) l = go_on (λ l'. run_queue_consumer rest l') (take_turn turn l)
