-- ===== src/UploadPool/Honesty.antt =====
-- The outcomes that the goroutines of internal/upload/manager.go record.
use golang_videoencoder_api.Prelude.{
  ℕ, zero, suc, ◌%◌, Bytes, List, [], ◌∷◌, ◌++◌, All, Bool, Option, none, some, ◌≡◌, refl, length,
}
use golang_videoencoder_api.Exec.{Exec}
use golang_videoencoder_api.UploadPool.{
  Pool, receive, pick, succeeded, report, finish_upload, receive_or_finish, move, pool_step,
  run_pool,
}

module _ {W : Type 0} (upload : Bytes → Exec W (Unit {0})) where
  -- There is a world in which uploading this path has this outcome.
  abbrev pub IsOutcome : Bytes × Bool → Type 0
  IsOutcome (path, b) = (w : W) × (succeeded (upload path w).0 ≡ b)

  All-snoc :
      (ds : List (Bytes × Bool)) (d : Bytes × Bool)
      → All IsOutcome ds
      → IsOutcome d
      → All IsOutcome (ds ++ (d ∷ []))
  All-snoc [] d all last = (last, tt)
  All-snoc (x ∷ ds) d (first, all) last = (first, All-snoc ds d all last)

  finish_honest :
      (picked : Option (Bytes × List Bytes)) (pool : Pool) (w : W)
      → All IsOutcome pool.done
      → All IsOutcome (finish_upload upload picked pool w).0.done
  unfolding finish_upload report
  finish_honest none pool w all = all
  finish_honest (some (path, others)) pool w all = All-snoc pool.done _ all (w, refl)

  turn_honest :
      (received pool : Pool) (turn : ℕ) (w : W)
      → All IsOutcome received.done
      → All IsOutcome pool.done
      → All IsOutcome (receive_or_finish upload received turn pool w).0.done
  unfolding receive_or_finish
  turn_honest received pool zero w first all = first
  turn_honest received pool (suc k) w first all = finish_honest (pick pool.busy k) pool w all

  move_honest :
      (pending : List Bytes) (idle choice : ℕ) (pool : Pool) (w : W)
      → All IsOutcome pool.done
      → All IsOutcome (move upload (receive pending idle pool) choice pool w).0.done
  unfolding move
  move_honest [] idle choice pool w all = finish_honest _ pool w all
  move_honest (_ ∷ _) zero choice pool w all = finish_honest _ pool w all
  move_honest (path ∷ rest) (suc idle) choice pool w all =
      turn_honest _ pool (choice % suc (length pool.busy)) w all all

  -- Whatever the number of moves and the choices: if the recorded outcomes of a pool are outcomes of real
  -- calls of the upload, so are those after the moves.
  pub run_pool_honest :
      (n : ℕ) (choices : ℕ → ℕ) (pool : Pool) (w : W)
      → All IsOutcome pool.done
      → All IsOutcome (run_pool upload n choices pool w).0.done
  unfolding run_pool pool_step
  run_pool_honest zero choices pool w all = all
  run_pool_honest (suc n) choices pool w all =
      run_pool_honest n choices _ _ (move_honest pool.pending pool.idle (choices n) pool w all)
