-- ===== src/Manager/Handoff.antt =====
-- What `consumeOnce` of internal/job/manager.go does with the deliveries it takes.
use golang_videoencoder_api.Prelude.{
  ℕ, Bytes, List, [], ◌∷◌, ◌++◌, append-nil, Bool, true, false, Option, none, some, ◌≡◌, refl, sym,
  ap, ◌∙◌,
}
use golang_videoencoder_api.Result.{Result, ok, err}
use golang_videoencoder_api.Queue.{Amqp, Client}
use golang_videoencoder_api.Queue.Publishing.{consume, consume_on}
use golang_videoencoder_api.Worker.Settlement.{Settled, nacked}
use golang_videoencoder_api.Manager.{Broker}
use golang_videoencoder_api.Manager.Consumer.{
  Delivered, Pick, done, closed, handed, given_back, Ending, cancelled, stream, streamed,
  consume_once,
}

-- The deliveries that were taken from the broker, before the loop ends.
abbrev pub taken : List Pick → List Delivered
taken [] = []
taken (done ∷ _) = []
taken (closed ∷ _) = []
taken (given_back d ∷ _) = d ∷ []
taken (handed d ∷ rest) = d ∷ taken rest

-- The deliveries of a consumer that the broker accepted or refused.
abbrev pub taken_from : Result ℕ → List Pick → List Delivered
taken_from (ok _) picks = taken picks
taken_from (err _) picks = []

-- What the broker is told of a delivery that goes back to the queue.
abbrev pub requeued : List Delivered → Settled
requeued [] = []
requeued ((tag, _) ∷ rest) = (tag, nacked true) ∷ requeued rest

-- Deliveries that go back: none, or one when the context is done.
pub data GoesBack : Ending → List Delivered → Type 0 where
  nothing : {ending : Ending} → GoesBack ending []
  one : (d : Delivered) → GoesBack cancelled (d ∷ [])

module _ {W : Type 0} (settled : W → Settled) where
  -- `Nack` of a single delivery is seen by the broker.
  pub record NackLaw (broker : Broker W) : Type 0 where
    pub nack :
        (tag : ℕ) (requeue : Bool) (w : W)
        → settled (broker.nack tag false requeue w).1 ≡ settled w ++ ((tag, nacked requeue) ∷ [])

  -- Every delivery that was taken was sent to the workers, in order, or given back to the queue; the
  -- broker was told of those that were given back, and of nothing else.
  pub record HandsOff (deliveries : List Delivered) (w : W) (r : (Ending × List Delivered) × W)
      : Type 0 where
    pub back : List Delivered
    pub each_once : deliveries ≡ r.0.1 ++ back
    pub told : settled r.1 ≡ settled w ++ requeued back
    pub few : GoesBack r.0.0 back

  abbrev pub HandsOffVia :
      List Delivered → Client × W → (Ending × List Delivered) × (Client × W) → Type 0
  HandsOffVia deliveries (c, w) (r, (c', w')) = HandsOff deliveries w (r, w')

  module _ (broker : Broker W) (law : NackLaw broker) where
    stream-HandsOff : (picks : List Pick) (w : W) → HandsOff (taken picks) w (stream broker picks w)
    unfolding stream
    stream-HandsOff [] w = record {
      back = [];
      each_once = refl;
      told = sym (append-nil (settled w));
      few = nothing;
    }
    stream-HandsOff (done ∷ rest) w = record {
      back = [];
      each_once = refl;
      told = sym (append-nil (settled w));
      few = nothing;
    }
    stream-HandsOff (closed ∷ rest) w = record {
      back = [];
      each_once = refl;
      told = sym (append-nil (settled w));
      few = nothing;
    }
    stream-HandsOff (given_back (tag, body) ∷ rest) w = record {
      back = (tag, body) ∷ [];
      each_once = refl;
      told = law.nack tag true w;
      few = one (tag, body);
    }
    stream-HandsOff (handed d ∷ rest) w =
        let later = stream-HandsOff rest w in
        record {
          back = later.back;
          each_once = ap (λ (l : List Delivered). d ∷ l) later.each_once;
          told = later.told;
          few = later.few;
        }

    module _ (amqp : Amqp W)
        (quiet : (ch : ℕ) (queue consumer : Bytes) (auto_ack : Bool) (w : W)
          → settled (amqp.consume ch queue consumer auto_ack w).1 ≡ settled w) where
      consume_on-quiet :
          (name : Bytes) (auto_ack : Bool) (o : Option ℕ) (c : Client) (w : W)
          → settled (consume_on amqp name auto_ack o (c, w)).1.1 ≡ settled w
      unfolding consume_on
      consume_on-quiet name auto_ack none c w = refl
      consume_on-quiet name auto_ack (some ch) c w = quiet ch c.queue_name name auto_ack w

      streamed-HandsOff :
          (picks : List Pick) (r : Result ℕ) (c c' : Client) (w v : W)
          → settled v ≡ settled w
          → HandsOffVia (taken_from r picks) (c, w) (streamed broker picks r (c', v))
      unfolding streamed
      streamed-HandsOff picks (err e) c c' w v same = record {
        back = [];
        each_once = refl;
        told = same ∙ sym (append-nil (settled w));
        few = nothing;
      }
      streamed-HandsOff picks (ok ch) c c' w v same =
          let later = stream-HandsOff picks v in
          record {
            back = later.back;
            each_once = later.each_once;
            told = later.told ∙ ap (λ (l : Settled). l ++ requeued later.back) same;
            few = later.few;
          }

      -- `consumeOnce`, whatever its selects choose, on a broker that sees a `Nack` of one delivery and
      -- is told nothing by `Consume`. Every delivery that was taken is sent to the workers, in the order
      -- of arrival, except that one delivery is rejected with requeue when the context ends at its
      -- handoff, after which nothing is taken. No other delivery is settled.
      pub consume_once-HandsOff :
          (consumer_name : Bytes) (picks : List Pick) (s : Client × W)
          → HandsOffVia
              (taken_from (consume amqp consumer_name false s).0 picks)
              s
              (consume_once broker amqp consumer_name picks s)
      unfolding consume_once consume
      consume_once-HandsOff consumer_name picks (c, w) =
          streamed-HandsOff picks (consume amqp consumer_name false (c, w)).0 c _ w _
            (consume_on-quiet consumer_name false c.channel c w)
