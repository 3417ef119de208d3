-- ===== src/Queue/Topology.antt =====
-- `Declare` of internal/queue/queue.go, and what the broker knows after it.
use golang_videoencoder_api.Prelude.{ℕ, Bytes, bytes, ◌++◌, Option, none, some, ◌≡◌, refl}
use golang_videoencoder_api.Result.{Result, err, wrap}
use golang_videoencoder_api.Exec.{Exec, rescue, ◌>>◌}
use golang_videoencoder_api.Exec.Ends.{Ends, Ends-map_error, Ends-weaken, Ends-continue}
use golang_videoencoder_api.Queue.{Amqp, Client, Method, channel_missing}

abbrev pub dead_letter_exchange : Bytes → Bytes
dead_letter_exchange name = name ++ bytes ".dlx"

abbrev pub dead_letter_queue : Bytes → Bytes
dead_letter_queue name = name ++ bytes ".dlq"

module _ {W : Type 0} (amqp : Amqp W) where
  -- The calls of `Declare` on a channel, for a queue of this name.
  unfoldable pub declare_on : ℕ → Bytes → Exec W Bytes
  declare_on ch name = do
    rescue (wrap (bytes "declare dead-letter exchange: "))
        (amqp.exchange_declare ch (dead_letter_exchange name))
    rescue (wrap (bytes "declare dead-letter queue: "))
        (amqp.queue_declare ch (dead_letter_queue name) none)
    rescue (wrap (bytes "bind dead-letter queue: "))
        (amqp.queue_bind ch (dead_letter_queue name) (dead_letter_exchange name))
    amqp.queue_declare ch name (some (dead_letter_exchange name))

  unfoldable pub declare_through : Option ℕ → Method amqp Bytes
  unfolding declare_on
  declare_through none s = (err channel_missing, s)
  declare_through (some ch) (c, w) = let (r, w') = declare_on ch c.queue_name w in (r, (c, w'))

  -- `Declare`
  unfoldable pub declare : Method amqp Bytes
  unfolding declare_through
  declare (c, w) = declare_through c.channel (c, w)

-- What the broker knows.
pub data Fact : Type 0 where
  exchange : (name : Bytes) → Fact
  queue : (name : Bytes) (dead_letters : Option Bytes) → Fact
  binding : (queue exchange : Bytes) → Fact

module _ {W : Type 0} (known : W → Fact → Type 0) where
  -- A successful declaration makes its fact known, and every known fact stays known.
  abbrev pub Adds : {A : Type 0} → Fact → W → A → W → Type 0
  Adds fact w _ v = known v fact × ((other : Fact) → known w other → known v other)

  abbrev pub Declares : {A : Type 0} → Fact → W → Result A × W → Type 0
  Declares fact w r = Ends (Adds fact w) r

  -- The documented effect of the declarations on the broker.
  pub record DeclarationLaws (amqp : Amqp W) : Type 0 where
    pub exchange_declare :
        (ch : ℕ) (name : Bytes) (w : W)
        → Declares (exchange name) w (amqp.exchange_declare ch name w)
    pub queue_declare :
        (ch : ℕ) (name : Bytes) (dead_letters : Option Bytes) (w : W)
        → Declares (queue name dead_letters) w (amqp.queue_declare ch name dead_letters w)
    pub queue_bind :
        (ch : ℕ) (queue_name exchange_name : Bytes) (w : W)
        → Declares
            (binding queue_name exchange_name)
            w
            (amqp.queue_bind ch queue_name exchange_name w)

  -- A message that is rejected on `name` goes to an exchange that hands it to the queue `target`.
  pub record DeadLetters (name target : Bytes) (w : W) : Type 0 where
    pub through : Bytes
    pub work_queue : known w (queue name (some through))
    pub exchange_exists : known w (exchange through)
    pub bound : known w (binding target through)
    pub target_queue : known w (queue target none)

  -- The end of `Declare`, by the channel of the client.
  abbrev Through : Option ℕ → Bytes → W → Result Bytes × W → Type 0
  Through none name w (r, w') = (r ≡ err channel_missing) × (w' ≡ w)
  Through (some ch) name w r = Ends (λ _ v. DeadLetters name (dead_letter_queue name) v) r

  abbrev pub Declared : Client × W → Result Bytes × (Client × W) → Type 0
  Declared (c, w) (r, (c', w')) = (c' ≡ c) × Through c.channel c.queue_name w (r, w')

  module _ (amqp : Amqp W) (laws : DeclarationLaws amqp) where
    declare_on-DeadLetters :
        (ch : ℕ) (name : Bytes) (w : W)
        → Ends (λ _ v. DeadLetters name (dead_letter_queue name) v) (declare_on amqp ch name w)
    unfolding declare_on
    declare_on-DeadLetters ch name w =
        let x = dead_letter_exchange name in
        let q = dead_letter_queue name in
        Ends-continue (Adds (exchange x) w) _ _ _ _
          (Ends-map_error (Adds (exchange x) w) _ (amqp.exchange_declare ch x w).0 _
            (laws.exchange_declare ch x w))
          (λ _ w1 made1.
            Ends-continue (Adds (queue q none) w1) _ _ _ _
              (Ends-map_error (Adds (queue q none) w1) _ (amqp.queue_declare ch q none w1).0 _
                (laws.queue_declare ch q none w1))
              (λ _ w2 made2.
                Ends-continue (Adds (binding q x) w2) _ _ _ _
                  (Ends-map_error (Adds (binding q x) w2) _ (amqp.queue_bind ch q x w2).0 _
                    (laws.queue_bind ch q x w2))
                  (λ _ w3 made3.
                    Ends-weaken (Adds (queue name (some x)) w3) _
                      (amqp.queue_declare ch name (some x) w3).0 _
                      (laws.queue_declare ch name (some x) w3)
                      (λ _ last. record {
                        through = x;
                        work_queue = last.0;
                        exchange_exists = last.1 _ (made3.1 _ (made2.1 _ made1.0));
                        bound = last.1 _ made3.0;
                        target_queue = last.1 _ (made3.1 _ made2.0);
                      }))))

    declare_through-Through :
        (o : Option ℕ) (c : Client) (w : W)
        → let (r, (c', w')) = declare_through amqp o (c, w) in
          (c' ≡ c) × Through o c.queue_name w (r, w')
    unfolding declare_through
    declare_through-Through none c w = (refl, (refl, refl))
    declare_through-Through (some ch) c w = (refl, declare_on-DeadLetters ch c.queue_name w)

    -- `Declare`, on a broker on which a successful declaration makes its fact known and forgets no
    -- other. After a success the work queue names an exchange for its rejected messages, that exchange
    -- exists, and the queue `<name>.dlq` exists and is bound to it. A client without a channel gets the
    -- error `channel_missing`, and nothing is done. The client does not change.
    pub declare-Declared : (s : Client × W) → Declared s (declare amqp s)
    unfolding declare
    declare-Declared (c, w) = declare_through-Through c.channel c w
