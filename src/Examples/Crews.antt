-- ===== src/Examples/Crews.antt =====
-- The manager with one worker, from its start to the end of the stop function, on one delivery.
use golang_videoencoder_api.Prelude.{
  ℕ, suc, ◌+◌, ◌*◌, ◌/◌, Bytes, bytes, [], some, ◌≡◌, ◌⊎◌, refl, arith,
}
use golang_videoencoder_api.JobService.{new_job_service}
use golang_videoencoder_api.Worker.{JobWorkerResult}
use golang_videoencoder_api.Worker.Settlement.{Delivery}
use golang_videoencoder_api.Manager.{worker_concurrency_from_env}
use golang_videoencoder_api.Manager.Channels.{
  stopped, Hub, start, enqueue, stop_producing, receive, finish, send, log, leave, stop,
  workers_gone, logger_leaves, stop_returns, Run, here, next, Reaches, serve_all,
}
use golang_videoencoder_api.Manager.Draining.{steps_left, Moves, stop_terminates}
use golang_videoencoder_api.Manager.Serial.{lines}
use golang_videoencoder_api.Manager.Ordered.{stopped-serve_all}
use golang_videoencoder_api.Manager.Deliveries.{serve_delivery, AllSettled}
use golang_videoencoder_api.Manager.Setup.{Manager, new_manager, crew_size, new_manager-AllSettled}
use golang_videoencoder_api.Examples.World.{
  World, told, platform, jobs, videos, os, storage, acker, start as first_world,
}
use golang_videoencoder_api.Examples.Frames.{
  os-OsKeeps, storage-StorageKeeps, videos-VideosKeep, platform-told, jobs-told, acker-AckLaws,
}

module _ {M W : Type 0} (serve : M → W → JobWorkerResult × W) (msg : M) (w : W) where
  -- The message is in the hands of the worker, and no more can come.
  abbrev busy : (s : Hub M) × (v : W) × Run serve 1 (start 1) w 3 s v
  unfolding start
  busy = (
    _,
    _,
    next (next (next here (enqueue msg refl refl (omega arith))) (receive msg [] 0 refl refl))
        (stop_producing refl),
  )

  -- The stop function has returned.
  abbrev over : (s : Hub M) × (v : W) × Run serve 1 busy.0 busy.1 8 s v
  unfolding start
  over = (
    _,
    _,
    next
        (next
          (next
            (next
              (next
                (next (next (next here (finish [] msg [] refl)) (stop refl))
                  (send [] _ [] refl refl refl))
                (leave 0 refl refl refl))
              (log _ refl))
            (workers_gone refl refl))
          (logger_leaves refl refl refl))
        (stop_returns refl refl),
  )

module _ {M W : Type 0} {serve : M → W → JobWorkerResult × W} where
  both :
      {s : Hub M} {w : W} {t : Hub M} {v : W} {n : ℕ} {u : Hub M} {x : W}
      → (k : ℕ) × Run serve 1 s w k t v
      → Run serve 1 t v n u x
      → (k : ℕ) × Run serve 1 s w k u x
  both first here = first
  both first (next run step) = let (k, before) = both first run in (suc k, next before step)

abbrev exact : ℕ → ℕ → ℕ → ℕ
exact f unit scale = f * unit / scale

abbrev no_settings : Bytes → Bytes
no_settings name = []

abbrev manager : Manager World
manager = new_manager exact no_settings (new_job_service jobs videos)

abbrev serve : Delivery → World → JobWorkerResult × World
serve = serve_delivery platform os storage manager.job_service (some manager.processor) acker

abbrev delivery : Delivery
delivery = (1, bytes "not-json")

abbrev while_busy : (s : Hub Delivery) × (v : World) × Run serve 1 (start 1) first_world 3 s v
while_busy = busy serve delivery first_world

abbrev ended : (s : Hub Delivery) × (v : World) × Run serve 1 while_busy.0 while_busy.1 8 s v
ended = over serve delivery first_world

reached : Reaches serve 1 first_world ended.0 ended.1
reached = both (3, while_busy.2) ended.2

stop_terminates_example :
    (8 + steps_left ended.0 ≡ steps_left while_busy.0)
    × ((ended.0.phase ≡ stopped) ⊎ Moves serve 1 ended.0 ended.1)
unfolding busy
stop_terminates_example = stop_terminates serve 1 (3, while_busy.2) refl 8 ended.0 ended.1 ended.2

stopped-serve_all_example :
    let (results, x) = serve_all serve ended.0.accepted first_world in
    (ended.1 ≡ x) × (ended.0.log ≡ lines results)
unfolding over
stopped-serve_all_example = stopped-serve_all serve first_world reached refl

one_worker : crew_size manager ≡ 1
unfolding new_manager worker_concurrency_from_env
one_worker = refl

new_manager-AllSettled_example :
    AllSettled ended.0.accepted (told first_world) (told ended.1) ended.0.log
unfolding new_manager worker_concurrency_from_env over
new_manager-AllSettled_example =
    new_manager-AllSettled platform os storage exact jobs videos acker told platform-told
      (os-OsKeeps told) (storage-StorageKeeps told) jobs-told (videos-VideosKeep told) acker-AckLaws
      no_settings first_world ended.0 ended.1 reached refl
