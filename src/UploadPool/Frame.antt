-- ===== src/UploadPool/Frame.antt =====
-- The parts of the world that the goroutines of internal/upload/manager.go leave alone.
use golang_videoencoder_api.Prelude.{ℕ, zero, suc, Bytes, List, Option, none, some, ◌≡◌, refl, ◌∙◌}
use golang_videoencoder_api.Exec.{Exec}
use golang_videoencoder_api.Exec.Keeps.{Keeps}
use golang_videoencoder_api.UploadPool.{
  Pool, finish_upload, receive_or_finish, move, pick, pool_step, run_pool,
}

module _ {W V : Type 0} (view : W → V) (upload : Bytes → Exec W (Unit {0}))
    (kept : (path : Bytes) → Keeps view (upload path)) where
  finish_upload-keeps :
      (picked : Option (Bytes × List Bytes)) (pool : Pool) (w : W)
      → view (finish_upload upload picked pool w).1 ≡ view w
  unfolding finish_upload
  finish_upload-keeps none pool w = refl
  finish_upload-keeps (some (path, others)) pool w = (kept path).at w

  receive_or_finish-keeps :
      (received : Pool) (turn : ℕ) (pool : Pool) (w : W)
      → view (receive_or_finish upload received turn pool w).1 ≡ view w
  unfolding receive_or_finish
  receive_or_finish-keeps received zero pool w = refl
  receive_or_finish-keeps received (suc k) pool w = finish_upload-keeps (pick pool.busy k) pool w

  move-keeps :
      (received : Option Pool) (choice : ℕ) (pool : Pool) (w : W)
      → view (move upload received choice pool w).1 ≡ view w
  unfolding move
  move-keeps none choice pool w = finish_upload-keeps _ pool w
  move-keeps (some received) choice pool w = receive_or_finish-keeps received _ pool w

  pub run_pool-keeps :
      (n : ℕ) (choices : ℕ → ℕ) (pool : Pool) (w : W)
      → view (run_pool upload n choices pool w).1 ≡ view w
  unfolding run_pool pool_step
  run_pool-keeps zero choices pool w = refl
  run_pool-keeps (suc n) choices pool w =
      run_pool-keeps n choices _ _ ∙ move-keeps _ (choices n) pool w
