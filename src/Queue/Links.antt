-- ===== src/Queue/Links.antt =====
-- The client of internal/queue/queue.go behind `Connect`.
use golang_videoencoder_api.Prelude.{
  ℕ, is_positive, pos_part, Bytes, Bool-cases, some, ◌≡◌, inl, inr, refl,
}
use golang_videoencoder_api.Result.{Result, ok, err}
use golang_videoencoder_api.Exec.Ends.{Ends}
use golang_videoencoder_api.Queue.Topology.{Fact}
use golang_videoencoder_api.Queue.{
  Amqp, Client, connect, connect_locked, dialed, opened, limit, limited, connected,
}

-- The client is that of its settings, with a connection and a channel.
pub record IsLinked (settings c : Client) : Type 0 where
  pub conn : ℕ
  pub ch : ℕ
  pub linked : c ≡ record settings { connection = some conn; channel = some ch }

module _ {W : Type 0} (amqp : Amqp W) (c : Client) where
  abbrev pub OkLinked : Result (Unit {0}) × (Client × W) → Type 0
  OkLinked r = Ends (λ _ (s : Client × W). IsLinked c s.0) r

  limited-OkLinked :
      (conn ch : ℕ) (r : Result (Unit {0})) (w : W) → OkLinked (limited amqp conn ch r (c, w))
  unfolding limited connected
  limited-OkLinked conn ch (ok _) w = record { conn = conn; ch = ch; linked = refl }
  limited-OkLinked conn ch (err e) w = tt

  limit-OkLinked : (conn ch : ℕ) (w : W) → OkLinked (limit amqp conn ch (c, w))
  unfolding limit connected
  limit-OkLinked conn ch w = elim (Bool-cases (is_positive c.prefetch)) [
    | inl e ↦ rw e (limited-OkLinked conn ch (amqp.qos ch (pos_part c.prefetch) w).0 _)
    | inr e ↦ rw e (record { conn = conn; ch = ch; linked = refl })
  ]

  opened-OkLinked : (conn : ℕ) (r : Result ℕ) (w : W) → OkLinked (opened amqp conn r (c, w))
  unfolding opened
  opened-OkLinked conn (ok ch) w = limit-OkLinked conn ch w
  opened-OkLinked conn (err e) w = tt

  dialed-OkLinked : (r : Result ℕ) (w : W) → OkLinked (dialed amqp r (c, w))
  unfolding dialed
  dialed-OkLinked (ok conn) w = opened-OkLinked conn (amqp.open_channel conn w).0 _
  dialed-OkLinked (err e) w = tt

  -- A client that connects has a connection and a channel, and keeps its settings.
  pub connect-OkLinked : (w : W) → OkLinked (connect amqp (c, w))
  unfolding connect connect_locked
  connect-OkLinked w = dialed-OkLinked (amqp.dial c.url w).0 _

-- The calls of `Connect` forget nothing of what the broker knows.
pub record ConnectKeeps {W : Type 0} (known : W → Fact → Type 0) (amqp : Amqp W) : Type 0 where
  pub dial : (url : Bytes) (w : W) (f : Fact) → known w f → known (amqp.dial url w).1 f
  pub open_channel : (n : ℕ) (w : W) (f : Fact) → known w f → known (amqp.open_channel n w).1 f
  pub qos : (ch prefetch : ℕ) (w : W) (f : Fact) → known w f → known (amqp.qos ch prefetch w).1 f
  pub close_channel : (ch : ℕ) (w : W) (f : Fact) → known w f → known (amqp.close_channel ch w).1 f
  pub close_connection :
      (n : ℕ) (w : W) (f : Fact) → known w f → known (amqp.close_connection n w).1 f

module _ {W : Type 0} (known : W → Fact → Type 0) (amqp : Amqp W) (keeps : ConnectKeeps known amqp)
    (c : Client) (f : Fact) where
  Kept : {A : Type 0} → A × (Client × W) → Type 0
  Kept r = known r.1.1 f

  limited-Kept :
      (conn ch : ℕ) (r : Result (Unit {0})) (w : W)
      → known w f
      → Kept (limited amqp conn ch r (c, w))
  unfolding limited connected Kept
  limited-Kept conn ch (ok _) w h = h
  limited-Kept conn ch (err e) w h = keeps.close_connection conn _ f (keeps.close_channel ch w f h)

  limit-Kept : (conn ch : ℕ) (w : W) → known w f → Kept (limit amqp conn ch (c, w))
  unfolding limit connected Kept
  limit-Kept conn ch w h = elim (Bool-cases (is_positive c.prefetch)) [
    | inl e ↦ rw e (
        limited-Kept conn ch (amqp.qos ch (pos_part c.prefetch) w).0 _
          (keeps.qos ch (pos_part c.prefetch) w f h))
    | inr e ↦ rw e h
  ]

  opened-Kept : (conn : ℕ) (r : Result ℕ) (w : W) → known w f → Kept (opened amqp conn r (c, w))
  unfolding opened Kept
  opened-Kept conn (ok ch) w h = limit-Kept conn ch w h
  opened-Kept conn (err e) w h = keeps.close_connection conn w f h

  dialed-Kept : (r : Result ℕ) (w : W) → known w f → Kept (dialed amqp r (c, w))
  unfolding dialed Kept
  dialed-Kept (ok conn) w h =
      opened-Kept conn (amqp.open_channel conn w).0 _ (keeps.open_channel conn w f h)
  dialed-Kept (err e) w h = h

  pub connect-known : (w : W) → known w f → known (connect amqp (c, w)).1.1 f
  unfolding connect connect_locked Kept
  connect-known w h = dialed-Kept (amqp.dial c.url w).0 _ (keeps.dial c.url w f h)
