-- ===== src/Examples/Managers.antt =====
-- The consumer loop on the broker that loses its first channel.
use golang_videoencoder_api.Prelude.{
  ℕ, Bytes, bytes, Bool, false, List, [], ◌∷◌, ◌++◌, ◌≡◌, ◌≢◌, refl,
}
use golang_videoencoder_api.Result.{Result, ok}
use golang_videoencoder_api.Queue.Publishing.{consume}
use golang_videoencoder_api.Worker.Settlement.{Settled, Verdict, acked, nacked}
use golang_videoencoder_api.Manager.{Broker}
use golang_videoencoder_api.Manager.Consumer.{
  Pick, closed, handed, given_back, Turn, consume_once, run_queue_consumer, start_loop, returned,
}
use golang_videoencoder_api.Manager.Backoff.{IsSpaced, run_queue_consumer-IsSpaced}
use golang_videoencoder_api.Manager.Handoff.{
  HandsOffVia, NackLaw, taken_from, consume_once-HandsOff,
}
use golang_videoencoder_api.Manager.Endurance.{run_queue_consumer_stays}
use golang_videoencoder_api.Examples.Queues.{Rabbit, amqp, client, broker}

abbrev told : Rabbit → Settled
told b = b.told

abbrev tell : ℕ → Verdict → Rabbit → Result (Unit {0}) × Rabbit
tell tag v b = (ok tt, record b { told = b.told ++ ((tag, v) ∷ []) })

abbrev deliveries : Broker Rabbit
deliveries = record {
  ack = λ tag _. tell tag acked;
  nack = λ tag _ requeue. tell tag (nacked requeue);
}

abbrev picks : List Pick
picks = handed (1, bytes "one") ∷ handed (2, bytes "two") ∷ given_back (3, bytes "three") ∷ []

abbrev lost_channel : Turn
lost_channel = record {
  done_at_start = false;
  picks = handed (1, bytes "one") ∷ closed ∷ [];
  done_after = false;
  done_waiting = false;
}

abbrev worker_name : Bytes
worker_name = bytes "worker"

run_queue_consumer-IsSpaced_example :
    IsSpaced 0
      (run_queue_consumer deliveries amqp worker_name
        (lost_channel ∷ lost_channel ∷ [])
        (start_loop (client, broker))).1.waits
run_queue_consumer-IsSpaced_example =
    run_queue_consumer-IsSpaced deliveries amqp worker_name (lost_channel ∷ lost_channel ∷ [])
      (client, broker)

run_queue_consumer_stays_example :
    (run_queue_consumer deliveries amqp worker_name
      (lost_channel ∷ lost_channel ∷ [])
      (start_loop (client, broker))).0
    ≢ returned
run_queue_consumer_stays_example =
    run_queue_consumer_stays deliveries amqp worker_name (lost_channel ∷ lost_channel ∷ [])
      (start_loop (client, broker)) (refl, (refl, tt))

nack_law : NackLaw told deliveries
nack_law = record { nack = λ tag requeue w. refl }

told_nothing :
    (ch : ℕ) (queue consumer : Bytes) (auto_ack : Bool) (w : Rabbit)
    → told (amqp.consume ch queue consumer auto_ack w).1 ≡ told w
told_nothing ch queue consumer auto_ack w = refl

consume_once-HandsOff_example :
    HandsOffVia told
      (taken_from (consume amqp worker_name false (client, broker)).0 picks)
      (client, broker)
      (consume_once deliveries amqp worker_name picks (client, broker))
consume_once-HandsOff_example =
    consume_once-HandsOff told deliveries nack_law amqp told_nothing worker_name picks
      (client, broker)
