-- ===== src/Manager/Backoff.antt =====
-- The waits between the reconnections of `RunQueueConsumer` in internal/job/manager.go, and when it
-- returns.
use golang_videoencoder_api.Prelude.{
  ℕ, suc, ◌*◌, ◌^◌, min, Bytes, List, [], ◌∷◌, ◌++◌, Bool, true, false, Bool-cases, if◌then◌else◌,
  ◌≡◌, inl, inr, refl, sym, ap, ◌∙◌, arith,
}
use golang_videoencoder_api.Result.{Result, ok, err}
use golang_videoencoder_api.Queue.{Amqp, Client}
use golang_videoencoder_api.Manager.{
  Broker, min_reconnect_backoff, max_reconnect_backoff, next_backoff,
}
use golang_videoencoder_api.Manager.Consumer.{
  Ending, waiting, cancelled, drained, refused, Phase, running, blocked, returned, Turn, Loop,
  start_loop, reconnected, wait, consumed, turn_once, take_turn, go_on, run_queue_consumer,
}

-- The wait after so many failed reconnections in a row.
abbrev pub delay : ℕ → ℕ
delay failures = min (min_reconnect_backoff * 2 ^ failures) max_reconnect_backoff

next_backoff-delay : (failures : ℕ) → next_backoff (delay failures) ≡ delay (suc failures)
unfolding next_backoff
next_backoff-delay failures = ground arith

-- The failures in a row behind these waits, the last of which may belong to a longer row.
abbrev failures_after : ℕ → List (ℕ × Bool) → ℕ
failures_after failures [] = failures
failures_after failures ((_, succeeded) ∷ rest) =
    if succeeded then failures_after 0 rest else failures_after (suc failures) rest

-- Each wait is the delay for the failures in a row before it.
abbrev pub IsSpaced : ℕ → List (ℕ × Bool) → Type 0
IsSpaced failures [] = Unit
IsSpaced failures ((n, true) ∷ rest) = (n ≡ delay failures) × IsSpaced 0 rest
IsSpaced failures ((n, false) ∷ rest) = (n ≡ delay failures) × IsSpaced (suc failures) rest

IsSpaced-snoc :
    (f : ℕ) (ws : List (ℕ × Bool)) (n : ℕ) (b : Bool)
    → IsSpaced f ws
    → n ≡ delay (failures_after f ws)
    → IsSpaced f (ws ++ ((n, b) ∷ []))
IsSpaced-snoc f [] n true spaced e = (e, tt)
IsSpaced-snoc f [] n false spaced e = (e, tt)
IsSpaced-snoc f ((m, true) ∷ ws) n b (first, spaced) e = (first, IsSpaced-snoc 0 ws n b spaced e)
IsSpaced-snoc f ((m, false) ∷ ws) n b (first, spaced) e =
    (first, IsSpaced-snoc (suc f) ws n b spaced e)

failures_after-snoc :
    (f : ℕ) (ws : List (ℕ × Bool)) (n : ℕ) (b : Bool)
    → failures_after f (ws ++ ((n, b) ∷ [])) ≡ (if b then 0 else suc (failures_after f ws))
failures_after-snoc f [] n true = refl
failures_after-snoc f [] n false = refl
failures_after-snoc f ((m, true) ∷ ws) n b = failures_after-snoc 0 ws n b
failures_after-snoc f ((m, false) ∷ ws) n b = failures_after-snoc (suc f) ws n b

module _ {W : Type 0} where
  -- The next wait is the delay too.
  record IsPaced (l : Loop W) : Type 0 where
    spaced : IsSpaced 0 l.waits
    next : l.backoff ≡ delay (failures_after 0 l.waits)

  reconnected-IsPaced :
      (l : Loop W) (r : Result (Unit {0})) (s : Client × W)
      → IsPaced l
      → IsPaced (reconnected l (r, s))
  unfolding reconnected
  reconnected-IsPaced l (ok _) s paced = record {
    spaced = IsSpaced-snoc 0 l.waits l.backoff true paced.spaced paced.next;
    next = sym (ap delay (failures_after-snoc 0 l.waits l.backoff true));
  }
  reconnected-IsPaced l (err _) s paced = record {
    spaced = IsSpaced-snoc 0 l.waits l.backoff false paced.spaced paced.next;
    next =
        ap next_backoff paced.next
        ∙ next_backoff-delay (failures_after 0 l.waits)
        ∙ sym (ap delay (failures_after-snoc 0 l.waits l.backoff false));
  }

  module _ (broker : Broker W) (amqp : Amqp W) (consumer_name : Bytes) where
    wait-IsPaced :
        (b : Bool) (l : Loop W) → IsPaced l → IsPaced (wait broker amqp consumer_name b l).1
    unfolding wait
    wait-IsPaced true l paced = paced
    wait-IsPaced false l paced = reconnected-IsPaced l _ _ paced

    after-IsPaced :
        (b c : Bool) (l : Loop W)
        → IsPaced l
        → IsPaced (if b then (returned, l) else wait broker amqp consumer_name c l).1
    after-IsPaced true c l paced = paced
    after-IsPaced false c l paced = wait-IsPaced c l paced

    consumed-IsPaced :
        (turn : Turn) (ending : Ending) (l : Loop W)
        → IsPaced l
        → IsPaced (consumed broker amqp consumer_name turn ending l).1
    unfolding consumed
    consumed-IsPaced turn waiting l paced = paced
    consumed-IsPaced turn cancelled l paced = paced
    consumed-IsPaced turn drained l paced = after-IsPaced turn.done_after turn.done_waiting l paced
    consumed-IsPaced turn (refused e) l paced =
        after-IsPaced turn.done_after turn.done_waiting l paced

    turn_once-IsPaced :
        (turn : Turn) (l : Loop W)
        → IsPaced l
        → IsPaced (turn_once broker amqp consumer_name turn l).1
    unfolding turn_once
    turn_once-IsPaced turn l paced =
        consumed-IsPaced turn _ _ (record { spaced = paced.spaced; next = paced.next })

    take_turn-IsPaced :
        (turn : Turn) (l : Loop W)
        → IsPaced l
        → IsPaced (take_turn broker amqp consumer_name turn l).1
    unfolding take_turn
    take_turn-IsPaced turn l paced = elim (Bool-cases turn.done_at_start) [
      | inl e ↦ rw e paced
      | inr e ↦ rw e (turn_once-IsPaced turn l paced)
    ]

    go_on-IsPaced :
        (later : Loop W → Phase × Loop W) (phase : Phase) (l : Loop W)
        → IsPaced l
        → ((m : Loop W) → IsPaced m → IsPaced (later m).1)
        → IsPaced (go_on later (phase, l)).1
    go_on-IsPaced later returned l paced rest = paced
    go_on-IsPaced later blocked l paced rest = paced
    go_on-IsPaced later running l paced rest = rest l paced

    run_queue_consumer-IsPaced :
        (turns : List Turn) (l : Loop W)
        → IsPaced l
        → IsPaced (run_queue_consumer broker amqp consumer_name turns l).1
    unfolding run_queue_consumer
    run_queue_consumer-IsPaced [] l paced = paced
    run_queue_consumer-IsPaced (turn ∷ rest) l paced =
        go_on-IsPaced _ _ _ (take_turn-IsPaced turn l paced)
          (λ m p. run_queue_consumer-IsPaced rest m p)

    -- For every sequence of turns of the loop: each wait before a reconnection is one second, doubled
    -- once for each reconnection that failed since the last one that succeeded, and at most thirty
    -- seconds.
    pub run_queue_consumer-IsSpaced :
        (turns : List Turn) (s : Client × W)
        → IsSpaced 0 (run_queue_consumer broker amqp consumer_name turns (start_loop s)).1.waits
    unfolding start_loop
    run_queue_consumer-IsSpaced turns s =
        (run_queue_consumer-IsPaced turns (start_loop s)
          (record { spaced = tt; next = refl })).spaced
