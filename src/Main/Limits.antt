-- ===== src/Main/Limits.antt =====
-- How many deliveries the broker gives to the consumer of cmd/main.go before it hears of them.
use golang_videoencoder_api.Prelude.{
  ℕ, ℤ, pos, is_positive, pos_part, Bytes, Bool-cases, Option, none, some, true, false, ◌≡◌, ◌⊎◌,
  inl, inr, refl, ap, ◌∙◌, sym, subst,
}
use golang_videoencoder_api.Result.{Result, ok, err}
use golang_videoencoder_api.Exec.Ends.{
  Ends, Ends-weaken, anyway, Triple, Triple-bind, Triple-rescue, Triple-given, Triple-kept,
}
use golang_videoencoder_api.Exec.Keeps.{Keeps, keeps_rules}
use golang_videoencoder_api.Domain.{Platform}
use golang_videoencoder_api.Repository.{Gorm}
use golang_videoencoder_api.Database.{Orm}
use golang_videoencoder_api.Queue.{
  Amqp, Client, connect, connect_locked, dialed, opened, limit, limited, connected,
}
use golang_videoencoder_api.Queue.Topology.{declare_on, declare_through, declare}
use golang_videoencoder_api.Main.{Sql, start_consumer, start_publisher}
use golang_videoencoder_api.Main.Clients.{IsSetUp, new_client_from_env-IsSetUp, with_client-Triple}

-- A number of deliveries that is positive limits the channel.
abbrev pub LimitedBy : (ℕ → Option ℕ) → ℤ → Option ℕ → Type 0
LimitedBy limit_of prefetch none = ⊥
LimitedBy limit_of prefetch (some ch) =
    (is_positive prefetch ≡ false) ⊎ (limit_of ch ≡ some (pos_part prefetch))

-- `limits w ch`: how many deliveries of the channel may be out without an answer, if that is limited.
module _ {W : Type 0} (limits : W → ℕ → Option ℕ) where
  -- What the broker documents of `Qos`; the other calls of a start change no limit.
  pub record LimitLaws (amqp : Amqp W) : Type 0 where
    pub qos : (ch n : ℕ) (w : W) → Ends (λ _ v. limits v ch ≡ some n) (amqp.qos ch n w)
    pub dial : (url : Bytes) → Keeps limits (amqp.dial url)
    pub open_channel : (conn : ℕ) → Keeps limits (amqp.open_channel conn)
    pub exchange_declare : (ch : ℕ) (name : Bytes) → Keeps limits (amqp.exchange_declare ch name)
    pub queue_declare :
        (ch : ℕ) (name : Bytes) (dead_letters : Option Bytes)
        → Keeps limits (amqp.queue_declare ch name dead_letters)
    pub queue_bind :
        (ch : ℕ) (queue exchange : Bytes) → Keeps limits (amqp.queue_bind ch queue exchange)

  abbrev pub Limited : ℤ → Option ℕ → W → Type 0
  Limited prefetch o w = LimitedBy (limits w) prefetch o

  Limited-kept :
      (prefetch : ℤ) (o : Option ℕ) (v w : W)
      → limits v ≡ limits w
      → Limited prefetch o w
      → Limited prefetch o v
  Limited-kept prefetch o v w e h = subst (λ (l : ℕ → Option ℕ). LimitedBy l prefetch o) (sym e) h

  pub Limited-positive :
      (prefetch : ℤ) (o : Option ℕ) (ch : ℕ) (w : W)
      → o ≡ some ch
      → is_positive prefetch ≡ true
      → Limited prefetch o w
      → limits w ch ≡ some (pos_part prefetch)
  Limited-positive prefetch none ch w e on h = absurd h
  Limited-positive prefetch (some k) ch w e on (inl off) = cc
  Limited-positive prefetch (some k) ch w e on (inr h) =
      subst (λ (x : ℕ). limits w x ≡ some (pos_part prefetch)) (cc e) h

  module _ (amqp : Amqp W) (laws : LimitLaws amqp) where
    abbrev OkLimited : ℤ → Result (Unit {0}) × (Client × W) → Type 0
    OkLimited prefetch r = Ends (λ _ (s : Client × W). Limited prefetch s.0.channel s.1) r

    abbrev OkDeclared : ℤ → Result Bytes × (Client × W) → Type 0
    OkDeclared prefetch r = Ends (λ _ (s : Client × W). Limited prefetch s.0.channel s.1) r

    limited-Limited :
        (conn ch : ℕ) (r : Result (Unit {0})) (c : Client) (w : W)
        → Ends (λ _ v. limits v ch ≡ some (pos_part c.prefetch)) (r, w)
        → OkLimited c.prefetch (limited amqp conn ch r (c, w))
    unfolding limited connected
    limited-Limited conn ch (ok _) c w h = inr h
    limited-Limited conn ch (err e) c w h = tt

    limit-Limited :
        (conn ch : ℕ) (c : Client) (w : W) → OkLimited c.prefetch (limit amqp conn ch (c, w))
    unfolding limit connected
    limit-Limited conn ch c w = elim (Bool-cases (is_positive c.prefetch)) [
      | inl e ↦ rw e (
          limited-Limited conn ch (amqp.qos ch (pos_part c.prefetch) w).0 c _
            (laws.qos ch (pos_part c.prefetch) w))
      | inr e ↦ rw e (inl e)
    ]

    opened-Limited :
        (conn : ℕ) (r : Result ℕ) (c : Client) (w : W)
        → OkLimited c.prefetch (opened amqp conn r (c, w))
    unfolding opened
    opened-Limited conn (ok ch) c w = limit-Limited conn ch c w
    opened-Limited conn (err e) c w = tt

    dialed-Limited :
        (r : Result ℕ) (c : Client) (w : W) → OkLimited c.prefetch (dialed amqp r (c, w))
    unfolding dialed
    dialed-Limited (ok conn) c w = opened-Limited conn (amqp.open_channel conn w).0 c _
    dialed-Limited (err e) c w = tt

    connect-Limited : (c : Client) (w : W) → OkLimited c.prefetch (connect amqp (c, w))
    unfolding connect connect_locked
    connect-Limited c w = dialed-Limited (amqp.dial c.url w).0 c _

    declare_on-Keeps : (ch : ℕ) (name : Bytes) → Keeps limits (declare_on amqp ch name)
    unfolding declare_on
    declare_on-Keeps ch name =
        search (keeps_rules, laws.exchange_declare, laws.queue_declare, laws.queue_bind) depth 8

    declare_through-Limited :
        (prefetch : ℤ) (o : Option ℕ) (c : Client) (w : W)
        → Limited prefetch c.channel w
        → OkDeclared prefetch (declare_through amqp o (c, w))
    unfolding declare_through
    declare_through-Limited prefetch none c w h = tt
    declare_through-Limited prefetch (some ch) c w h =
        anyway _ (declare_on amqp ch c.queue_name w).0 _
          (Limited-kept prefetch c.channel _ w ((declare_on-Keeps ch c.queue_name).at w) h)

    declare-Limited :
        (prefetch : ℤ) (c : Client) (w : W)
        → Limited prefetch c.channel w
        → OkDeclared prefetch (declare amqp (c, w))
    unfolding declare
    declare-Limited prefetch c w h = declare_through-Limited prefetch c.channel c w h

    -- A client without a prefetch changes no limit when it connects.
    opened-limits :
        (conn : ℕ) (r : Result ℕ) (c : Client) (w : W)
        → is_positive c.prefetch ≡ false
        → Ends (λ _ (s : Client × W). limits s.1 ≡ limits w) (opened amqp conn r (c, w))
    unfolding opened limit connected
    opened-limits conn (ok ch) c w unset = rw unset refl
    opened-limits conn (err e) c w unset = tt

    dialed-limits :
        (r : Result ℕ) (c : Client) (w : W)
        → is_positive c.prefetch ≡ false
        → Ends (λ _ (s : Client × W). limits s.1 ≡ limits w) (dialed amqp r (c, w))
    unfolding dialed
    dialed-limits (ok conn) c w unset =
        Ends-weaken _ _ (opened amqp conn (amqp.open_channel conn w).0 (c, _)).0 _
          (opened-limits conn (amqp.open_channel conn w).0 c _ unset)
          (λ _ e. e ∙ (laws.open_channel conn).at w)
    dialed-limits (err e) c w unset = tt

    connect-limits :
        (c : Client) (w : W)
        → is_positive c.prefetch ≡ false
        → Ends (λ _ (s : Client × W). limits s.1 ≡ limits w) (connect amqp (c, w))
    unfolding connect connect_locked
    connect-limits c w unset =
        Ends-weaken _ _ (dialed amqp (amqp.dial c.url w).0 (c, _)).0 _
          (dialed-limits (amqp.dial c.url w).0 c _ unset) (λ _ e. e ∙ (laws.dial c.url).at w)

module _ {W : Type 0} (platform : Platform W) (orm : Orm W) (sql : Sql W) (amqp : Amqp W)
    (gorm : ℕ → Gorm W) (fraction : ℕ → ℕ → ℕ → ℕ) (getenv : Bytes → Bytes)
    (limits : W → ℕ → Option ℕ) (laws : LimitLaws limits amqp) where
  pub start_consumer-Limited :
      (prefetch : ℤ)
      → Triple
          (λ _. Unit {0})
          (start_consumer platform orm sql amqp gorm fraction getenv prefetch)
          (λ x v. Limited limits prefetch x.1.channel v)
  unfolding start_consumer
  start_consumer-Limited prefetch =
      Triple-bind {A = Client} _ _ _ (λ _ _. Unit {0}) _ (Triple-kept (λ _. Unit {0}) _ (λ w h. tt))
        (λ settings.
          let limited = record settings { prefetch = prefetch } in
          Triple-bind _ _ _ (λ x v. Limited limits prefetch x.1.channel v) _
            (Triple-rescue _ _ _ _ (
              with_client-Triple _ (λ _ c v. Limited limits prefetch c.channel v) (connect amqp)
                limited (λ w _. connect-Limited limits amqp laws limited w)))
            (λ x. Triple-rescue _ _ _ _ (
              with_client-Triple _ (λ _ c v. Limited limits prefetch c.channel v) (declare amqp) x.1
                (λ w h. declare-Limited limits amqp laws prefetch x.1 w h))))

  pub start_publisher-Limited :
      (prefetch : ℤ) (o : Option ℕ)
      → Triple
          (Limited limits prefetch o)
          (start_publisher platform orm sql amqp gorm fraction getenv)
          (λ _. Limited limits prefetch o)
  unfolding start_publisher
  start_publisher-Limited prefetch o =
      let stays = Limited limits prefetch o in
      Triple-bind {A = Client} _ _ _ (λ c v. (IsSetUp getenv c × (c.prefetch ≡ pos 0)) × stays v) _
        (Triple-rescue _ _ _ _ (new_client_from_env-IsSetUp getenv stays))
        (λ settings. Triple-given stays _ _ (λ up.
          Triple-bind _ _ _ (λ _. stays) _
            (Triple-rescue _ _ _ _ (
              with_client-Triple _ (λ _ _ v. stays v) (connect amqp) settings
                (λ w h.
                  Ends-weaken _ _ (connect amqp (settings, w)).0 _
                    (connect-limits limits amqp laws settings w (ap is_positive up.1))
                    (λ _ e. Limited-kept limits prefetch o _ w e h))))
            (λ x. Triple-kept stays _ (λ w h. h))))
