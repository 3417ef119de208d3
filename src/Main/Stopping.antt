-- ===== src/Main/Stopping.antt =====
-- The connections to RabbitMQ that cmd/main.go holds, from its start to its end.
use golang_videoencoder_api.Prelude.{
  ℕ, Bytes, List, [], ◌∷◌, All, none, ◌≡◌, ◌⊎◌, inl, inr, refl, ap, subst, ◌∙◌,
}
use golang_videoencoder_api.Result.{Result, ok, err}
use golang_videoencoder_api.Exec.Ends.{Ends}
use golang_videoencoder_api.Domain.{Platform}
use golang_videoencoder_api.Repository.{Gorm}
use golang_videoencoder_api.Database.{Orm}
use golang_videoencoder_api.Queue.{Amqp, Client, close, close_locked}
use golang_videoencoder_api.Queue.Ownership.{ConnectionLaws, HoldsNone, Owns}
use golang_videoencoder_api.Queue.Lifetime.{closing, perform, perform-Owns}
use golang_videoencoder_api.Queue.Pairs.{Share-swap, perform-Share, close-Owns}
use golang_videoencoder_api.Main.{
  Sql, Service, Ending, completed, Event, by_consumer, by_publisher, elsewhere, start_up, Late,
  all_happen, close_publisher, close_consumer, close_database, close_all, run_service, main,
}
use golang_videoencoder_api.Main.Opening.{Quiet, DatabaseQuiet, SharedBy, start_up-Triple}

module _ {W : Type 0} (held : W → ℕ → Type 0) where
  -- What acts beside the two clients opens no connection to RabbitMQ.
  abbrev pub QuietEvent : Event W → Type 0
  QuietEvent (by_consumer call) = Unit
  QuietEvent (by_publisher call) = Unit
  QuietEvent (elsewhere act) = (w : W) → Quiet held w (act w)

  -- What can happen once the consumer and the workers have returned: the consumer's client is not called.
  abbrev pub LateEvent : Event W → Type 0
  LateEvent (by_consumer call) = ⊥
  LateEvent (by_publisher call) = Unit
  LateEvent (elsewhere act) = (w : W) → Quiet held w (act w)

  abbrev pub LateEvents : Late W → Type 0
  LateEvents late =
      All LateEvent late.behind_publisher
      × All LateEvent late.behind_consumer
      × All LateEvent late.behind_database

  module _ (sql : Sql W) (amqp : Amqp W) (laws : ConnectionLaws held amqp) where
    all_happen-SharedBy :
        (events : List (Event W)) (s : Service W) (w : W)
        → All QuietEvent events
        → SharedBy held s w
        → let (s', w') = all_happen amqp events (s, w) in SharedBy held s' w'
    unfolding all_happen
    all_happen-SharedBy [] s w quiet share = share
    all_happen-SharedBy (by_consumer call ∷ rest) s w quiet share =
        all_happen-SharedBy rest _ _ quiet.1
          (perform-Share held amqp laws call s.consumer s.publisher w share)
    all_happen-SharedBy (by_publisher call ∷ rest) s w quiet share =
        all_happen-SharedBy rest _ _ quiet.1 (
          Share-swap held (perform amqp call (s.publisher, w)).0 s.consumer _ (
            perform-Share held amqp laws call s.publisher s.consumer w
              (Share-swap held s.consumer s.publisher w share)))
    all_happen-SharedBy (elsewhere act ∷ rest) s w quiet share =
        all_happen-SharedBy rest s (act w) quiet.1 (λ k h. share k (quiet.0 w k h))

    late-QuietEvent : (events : List (Event W)) → All LateEvent events → All QuietEvent events
    late-QuietEvent [] h = tt
    late-QuietEvent (by_consumer call ∷ rest) h = absurd h.0
    late-QuietEvent (by_publisher call ∷ rest) h = (tt, late-QuietEvent rest h.1)
    late-QuietEvent (elsewhere act ∷ rest) h = (h.0, late-QuietEvent rest h.1)

    all_happen-Owns :
        (events : List (Event W)) (s : Service W) (w : W)
        → All LateEvent events
        → Owns held (s.publisher, w)
        → let (s', w') = all_happen amqp events (s, w) in Owns held (s'.publisher, w')
    unfolding all_happen
    all_happen-Owns [] s w late own = own
    all_happen-Owns (by_consumer call ∷ rest) s w late own = absurd late.0
    all_happen-Owns (by_publisher call ∷ rest) s w late own =
        all_happen-Owns rest _ _ late.1 (perform-Owns held amqp laws call (s.publisher, w) own)
    all_happen-Owns (elsewhere act ∷ rest) s w late own =
        all_happen-Owns rest s (act w) late.1 (λ k h. own k (late.0 w k h))

    close_publisher-SharedBy :
        (s : Service W × W)
        → SharedBy held s.0 s.1
        → let (s', w') = close_publisher amqp s in SharedBy held s' w'
    unfolding close_publisher
    close_publisher-SharedBy (s, w) share =
        Share-swap held (perform amqp closing (s.publisher, w)).0 s.consumer _ (
          perform-Share held amqp laws closing s.publisher s.consumer w
            (Share-swap held s.consumer s.publisher w share))

    close_all-Owns :
        (late : Late W) (s : Service W) (w : W)
        → LateEvents late
        → ((db : ℕ) (v : W) → Quiet held v (sql.close_handle db v).1)
        → SharedBy held s w
        → let (s', w') = close_all sql amqp late (s, w) in Owns held (s'.publisher, w')
    unfolding close_all close_consumer close_database
    close_all-Owns late s w (late1, late2, late3) quiet share =
        let (s0, w0) = close_publisher amqp (s, w) in
        let (s1, w1) = all_happen amqp late.behind_publisher (s0, w0) in
        let (_, (c, w2)) = close amqp (s1.consumer, w1) in
        let (s3, w3) = all_happen amqp late.behind_consumer (record s1 { consumer = c }, w2) in
        let share1 =
          all_happen-SharedBy late.behind_publisher s0 w0 (late-QuietEvent _ late1)
            (close_publisher-SharedBy (s, w) share) in
        let own3 =
          all_happen-Owns late.behind_consumer (record s1 { consumer = c }) w2 late2
            (close-Owns held amqp laws s1.consumer s1.publisher w1 share1) in
        all_happen-Owns late.behind_database s3 _ late3 (λ k h. own3 k (quiet s3.sql_db w3 k h))

  -- Whether the publisher is called.
  abbrev pub CallsPublisher : List (Event W) → Type 0
  CallsPublisher [] = ⊥
  CallsPublisher (by_publisher call ∷ rest) = Unit
  CallsPublisher (by_consumer call ∷ rest) = CallsPublisher rest
  CallsPublisher (elsewhere act ∷ rest) = CallsPublisher rest

  -- A handler calls the publisher behind `pub.Close()`.
  abbrev pub IsOvertaken : Late W → Type 0
  IsOvertaken late =
      CallsPublisher late.behind_publisher
      ⊎ (CallsPublisher late.behind_consumer ⊎ CallsPublisher late.behind_database)

  abbrev pub AtMostOne : W → Type 0
  AtMostOne w = (j k : ℕ) → held w j → held w k → j ≡ k

  module _ (amqp : Amqp W) where
    -- Events that do not call the publisher leave its client as it is.
    all_happen-publisher :
        (events : List (Event W)) (s : Service W) (w : W)
        → CallsPublisher events ⊎ ((all_happen amqp events (s, w)).0.publisher ≡ s.publisher)
    unfolding all_happen
    all_happen-publisher [] s w = inr refl
    all_happen-publisher (by_publisher call ∷ rest) s w = inl tt
    all_happen-publisher (by_consumer call ∷ rest) s w = all_happen-publisher rest _ _
    all_happen-publisher (elsewhere act ∷ rest) s w = all_happen-publisher rest s (act w)

    close_all-publisher :
        (sql : Sql W) (late : Late W) (s : Service W × W)
        → IsOvertaken late ⊎ ((close_all sql amqp late s).0.publisher.connection ≡ none)
    unfolding close_all close_publisher close_consumer close_database close close_locked
    close_all-publisher sql late s =
        let s0 = close_publisher amqp s in
        let s1 = all_happen amqp late.behind_publisher s0 in
        let s2 = close_consumer amqp s1 in
        let s3 = all_happen amqp late.behind_consumer s2 in
        let s4 = close_database sql s3 in
        elim (all_happen-publisher late.behind_publisher s0.0 s0.1) [
          | inl early ↦ inl (inl early)
          | inr e1 ↦ elim (all_happen-publisher late.behind_consumer s2.0 s2.1) [
            | inl middle ↦ inl (inr (inl middle))
            | inr e2 ↦ elim (all_happen-publisher late.behind_database s4.0 s4.1) [
              | inl last ↦ inl (inr (inr last))
              | inr e3 ↦ inr (ap (λ (c : Client). c.connection) (e3 ∙ (e2 ∙ e1)))
            ]
          ]
        ]

  -- What is open at the end.
  abbrev pub Closed : Late W → W → Type 0
  Closed late w = HoldsNone held w ⊎ (IsOvertaken late × AtMostOne w)

  close_all-Closed :
      (late : Late W) (c : Client) (w : W)
      → Owns held (c, w)
      → IsOvertaken late ⊎ (c.connection ≡ none)
      → Closed late w
  close_all-Closed late c w own (inl overtaken) = inr (overtaken, λ j k h g. cc (own j h, own k g))
  close_all-Closed late c w own (inr gone) = inl (λ k h. cc (own k h))

  module _ (platform : Platform W) (orm : Orm W) (sql : Sql W) (amqp : Amqp W) (gorm : ℕ → Gorm W)
      (fraction : ℕ → ℕ → ℕ → ℕ) (getenv : Bytes → Bytes) (quiet : DatabaseQuiet held orm sql)
      (laws : ConnectionLaws held amqp) where
    run_service-Closed :
        (events : List (Event W)) (late : Late W) (r : Result (Service W)) (w v : W)
        → All QuietEvent events
        → LateEvents late
        → Ends (SharedBy held) (r, w)
        → run_service sql amqp events late (r, w) ≡ (completed, v)
        → Closed late v
    unfolding run_service
    run_service-Closed events late (err e) w v calm calm' share ended = cc
    run_service-Closed events late (ok s) w v calm calm' share ended =
        let (s', w') = all_happen amqp events (s, w) in
        let (s2, w2) = close_all sql amqp late (s', w') in
        subst (Closed late) (ap (λ (x : Ending × W). x.1) ended) (
          close_all-Closed late s2.publisher w2
            (close_all-Owns sql amqp laws late s' w' calm' quiet.close_handle
              (all_happen-SharedBy sql amqp laws events s w calm share))
            (close_all-publisher amqp sql late (s', w')))

    -- Where the calls of the broker open and close connections as documented, nothing else opens any, and
    -- none is open at first. When `main` comes to its last line, whatever calls of the two clients other
    -- than `Connect` and whatever else happened while it ran, and whatever handlers did behind
    -- `pub.Close()` because `httpServer.Shutdown` had given up on them: no connection to RabbitMQ is open,
    -- or such a handler has called the publisher behind `pub.Close()` and at most one connection is open.
    pub main-Closed :
        (events : List (Event W)) (late : Late W) (w v : W)
        → All QuietEvent events
        → LateEvents late
        → HoldsNone held w
        → main platform orm sql amqp gorm fraction getenv events late w ≡ (completed, v)
        → Closed late v
    unfolding main
    main-Closed events late w v calm calm' nothing ended =
        let (r, w') = start_up platform orm sql amqp gorm fraction getenv w in
        run_service-Closed events late r w' v calm calm'
          ((start_up-Triple held platform orm sql amqp gorm fraction getenv quiet laws).at w
            nothing)
          ended
