-- ===== src/Manager/Endurance.antt =====
-- When `RunQueueConsumer` of internal/job/manager.go returns.
use golang_videoencoder_api.Prelude.{
  ℕ, Bytes, List, [], ◌∷◌, All, Bool, true, false, ◌||◌, ◌≡◌, ◌≢◌, refl, arith,
}
use golang_videoencoder_api.Result.{Result, ok, err}
use golang_videoencoder_api.Queue.{Amqp, Client}
use golang_videoencoder_api.Queue.Publishing.{consume}
use golang_videoencoder_api.Manager.{Broker}
use golang_videoencoder_api.Manager.Consumer.{
  Pick, done, closed, handed, given_back, Ending, waiting, cancelled, drained, refused, Phase,
  running, blocked, returned, Turn, Loop, stream, streamed, consume_once, wait, consumed, turn_once,
  take_turn, go_on, run_queue_consumer,
}

-- The context ends in a select of `consumeOnce`.
abbrev pub stops : List Pick → Bool
stops [] = false
stops (done ∷ _) = true
stops (closed ∷ _) = false
stops (given_back _ ∷ _) = true
stops (handed _ ∷ rest) = stops rest

-- The context ends in this turn.
abbrev pub ends_context : Turn → Bool
ends_context turn =
    turn.done_at_start || (stops turn.picks || (turn.done_after || turn.done_waiting))

module _ {W : Type 0} (broker : Broker W) where
  stream-cancelled :
      (picks : List Pick) (w : W) → stops picks ≡ false → (stream broker picks w).0.0 ≢ cancelled
  unfolding stream
  stream-cancelled [] w h = λ e. cc
  stream-cancelled (done ∷ rest) w h = λ e. cc
  stream-cancelled (closed ∷ rest) w h = λ e. cc
  stream-cancelled (given_back d ∷ rest) w h = λ e. cc
  stream-cancelled (handed d ∷ rest) w h = stream-cancelled rest w h

  streamed-cancelled :
      (picks : List Pick) (r : Result ℕ) (s : Client × W)
      → stops picks ≡ false
      → (streamed broker picks r s).0.0 ≢ cancelled
  unfolding streamed
  streamed-cancelled picks (ok _) (c, w) h = stream-cancelled picks w h
  streamed-cancelled picks (err e) s h = λ e'. cc

  module _ (amqp : Amqp W) (consumer_name : Bytes) where
    consumed-stays :
        (turn : Turn) (ending : Ending) (l : Loop W)
        → turn.done_after ≡ false
        → turn.done_waiting ≡ false
        → ending ≢ cancelled
        → (consumed broker amqp consumer_name turn ending l).0 ≢ returned
    unfolding consumed wait
    consumed-stays turn waiting l a b ne = λ e. cc
    consumed-stays turn cancelled l a b ne = absurd (ne refl)
    consumed-stays turn drained l a b ne = rw (a, b) (λ e. cc)
    consumed-stays turn (refused x) l a b ne = rw (a, b) (λ e. cc)

    take_turn-stays :
        (turn : Turn) (l : Loop W)
        → ends_context turn ≡ false
        → (take_turn broker amqp consumer_name turn l).0 ≢ returned
    unfolding take_turn turn_once consume_once
    take_turn-stays turn l h =
        let no_start : turn.done_at_start ≡ false = ground arith in
        let no_stop : stops turn.picks ≡ false = ground arith in
        let no_after : turn.done_after ≡ false = ground arith in
        let no_wait : turn.done_waiting ≡ false = ground arith in
        rw no_start (
          consumed-stays turn _ _ no_after no_wait (
            streamed-cancelled turn.picks (consume amqp consumer_name false l.link).0
              (consume amqp consumer_name false l.link).1 no_stop))

    go_on-stays :
        (later : Loop W → Phase × Loop W) (phase : Phase) (l : Loop W)
        → phase ≢ returned
        → ((m : Loop W) → (later m).0 ≢ returned)
        → (go_on later (phase, l)).0 ≢ returned
    go_on-stays later returned l ne rest = absurd (ne refl)
    go_on-stays later blocked l ne rest = ne
    go_on-stays later running l ne rest = rest l

    -- As long as the context does not end in any turn, the loop does not return, whatever the broker
    -- does: closed deliveries, a refused consumer and failed reconnections lead to a further turn.
    pub run_queue_consumer_stays :
        (turns : List Turn) (l : Loop W)
        → All (λ (turn : Turn). ends_context turn ≡ false) turns
        → (run_queue_consumer broker amqp consumer_name turns l).0 ≢ returned
    unfolding run_queue_consumer
    run_queue_consumer_stays [] l all = λ e. cc
    run_queue_consumer_stays (turn ∷ rest) l (first, all) =
        go_on-stays _ _ _ (take_turn-stays turn l first) (λ m. run_queue_consumer_stays rest m all)
