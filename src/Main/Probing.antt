-- ===== src/Main/Probing.antt =====
-- The function `ready` of cmd/main.go, and the route `GET /readyz` that calls it.
use golang_videoencoder_api.Prelude.{ℕ, bytes, some, ◌≡◌, refl}
use golang_videoencoder_api.Result.{Error, Result, ok, err, text, message}
use golang_videoencoder_api.Exec.{map_error}
use golang_videoencoder_api.Machine.{Context}
use golang_videoencoder_api.Repository.{VideoRepository}
use golang_videoencoder_api.JobService.{JobService}
use golang_videoencoder_api.Queue.{Amqp, Client, ensure_ready}
use golang_videoencoder_api.Main.{Sql, probed, ready}
use golang_videoencoder_api.Api.{Publisher, new_server, Response, health, failure}
use golang_videoencoder_api.Api.Handlers.{handle_readyz, ready_response}

module _ {W : Type 0} (sql : Sql W) (amqp : Amqp W) (ctx : Context) (sql_db : ℕ) where
  -- What the probe finds and answers: the database does not answer, and the queue is not asked; or it
  -- answers, and the client of the publisher is not ready and cannot be made ready, or is ready then.
  pub data Probed (c : Client) (w : W) : Response → Client → W → Type 0 where
    no_database :
        (e : Error) (v : W)
        → sql.ping ctx sql_db w ≡ (err e, v)
        → Probed c w (record { code = 503; payload = failure (bytes "database unavailable") }) c v
    no_queue :
        (v : W) (e : Error) (c' : Client) (w' : W)
        → sql.ping ctx sql_db w ≡ (ok tt, v)
        → ensure_ready amqp (c, v) ≡ (err e, (c', w'))
        → Probed c w (record { code = 503; payload = failure (bytes "queue unavailable") }) c' w'
    both_ready :
        (v : W) (c' : Client) (w' : W)
        → sql.ping ctx sql_db w ≡ (ok tt, v)
        → ensure_ready amqp (c, v) ≡ (ok tt, (c', w'))
        → Probed c w (record { code = 200; payload = health (bytes "ok") }) c' w'

  ensured-Probed :
      (c : Client) (w v : W) (r : Result (Unit {0})) (c' : Client) (w' : W)
      → sql.ping ctx sql_db w ≡ (ok tt, v)
      → ensure_ready amqp (c, v) ≡ (r, (c', w'))
      → Probed c w (ready_response (map_error (λ _. text (bytes "queue unavailable")) r)) c' w'
  unfolding ready_response message
  ensured-Probed c w v (ok _) c' w' ping e = both_ready v c' w' ping e
  ensured-Probed c w v (err f) c' w' ping e = no_queue v f c' w' ping e

  pinged-Probed :
      (c : Client) (w v : W) (r : Result (Unit {0}))
      → sql.ping ctx sql_db w ≡ (r, v)
      → let (r', (c', w')) = probed amqp r (c, v) in Probed c w (ready_response r') c' w'
  unfolding probed ready_response message
  pinged-Probed c w v (err e) ping = no_database e v ping
  pinged-Probed c w v (ok _) ping =
      let (r, (c', w')) = ensure_ready amqp (c, v) in ensured-Probed c w v r c' w' ping refl

  ready-Probed :
      (c : Client) (w : W)
      → let (r, (c', w')) = ready amqp sql ctx sql_db (c, w) in Probed c w (ready_response r) c' w'
  unfolding ready
  ready-Probed c w = pinged-Probed c w _ _ refl

  -- The route `GET /readyz` of the server that `main` makes, on every path: 503 with a fixed text where
  -- the database does not answer, and then the queue is not asked; else 503 with another fixed text
  -- where the publisher cannot be made ready; else 200. The texts are the same whatever the errors
  -- behind them say.
  pub handle_readyz-Probed :
      (videos : VideoRepository (Client × W)) (jobs : JobService (Client × W))
      (publisher : Publisher (Client × W)) (c : Client) (w : W)
      → let server = new_server videos jobs publisher (some (ready amqp sql ctx sql_db)) in
        let (response, (c', w')) = handle_readyz server (c, w) in Probed c w response c' w'
  unfolding handle_readyz new_server
  handle_readyz-Probed videos jobs publisher c w = ready-Probed c w
