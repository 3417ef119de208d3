-- ===== src/UploadPool/Conservation.antt =====
-- The paths and the workers over the moves of the goroutines of internal/upload/manager.go.
use mathlib.Core.List.{Perm, map-append}
use mathlib.Core.List.Perm
use native.Mathlib.Nat.{mod-lt}
use golang_videoencoder_api.Prelude.{
  ℕ, zero, suc, ◌+◌, ◌*◌, ◌<◌, Bytes, List, [], ◌∷◌, ◌++◌, map, append-nil, append_assoc, length,
  length-append, Bool, true, false, some, ◌≡◌, refl, ap, subst, subst₂, arith, if◌then◌else◌,
}
use golang_videoencoder_api.Result.{Result}
use golang_videoencoder_api.Exec.{Exec}
use golang_videoencoder_api.UploadPool.{
  Pool, receive, pick, succeeded, report, finish_upload, receive_or_finish, move, pool_step,
  run_pool, start_pool,
}
use Prim.Native.Nat.{◌%◌}

abbrev pub done_paths : List (Bytes × Bool) → List Bytes
done_paths = map (λ (d : Bytes × Bool). d.0)

-- The paths of the uploads that failed.
abbrev pub failures : List (Bytes × Bool) → List Bytes
failures [] = []
failures ((path, true) ∷ ds) = failures ds
failures ((path, false) ∷ ds) = path ∷ failures ds

failures-append : (ds es : List (Bytes × Bool)) → failures (ds ++ es) ≡ failures ds ++ failures es
failures-append [] es = refl
failures-append ((path, true) ∷ ds) es = failures-append ds es
failures-append ((path, false) ∷ ds) es = ap (λ (l : List Bytes). path ∷ l) (failures-append ds es)

-- A pick within range finds an element, and leaves the others.
record Picked (xs : List Bytes) (k : ℕ) : Type 0 where
  path : Bytes
  others : List Bytes
  found : pick xs k ≡ some (path, others)
  perm : Perm (path ∷ others) xs
  shorter : suc (length others) ≡ length xs

pick-Picked : (xs : List Bytes) (k : ℕ) → k < length xs → Picked xs k
unfolding pick
pick-Picked [] k h = elim h [ ]
pick-Picked (x ∷ xs) zero h = record {
  path = x;
  others = xs;
  found = refl;
  perm = Perm.refl (x ∷ xs);
  shorter = refl;
}
pick-Picked (x ∷ xs) (suc k) h =
    let p = pick-Picked xs k (omega arith) in
    record {
      path = p.path;
      others = x ∷ p.others;
      found = rw p.found refl;
      perm = Perm.trans (Perm.swap x p.path p.others) (Perm.cons x p.perm);
      shorter = ap suc p.shorter;
    }

abbrev pub moves_left : Pool → ℕ
moves_left pool = 2 * length pool.pending + length pool.busy

-- What every move keeps: the number of workers, the paths, and `Errors` beside the failed uploads.
pub record PoolInv (workers : ℕ) (total : List Bytes) (pool : Pool) : Type 0 where
  pub crew : pool.idle + length pool.busy ≡ workers
  pub paths : Perm (done_paths pool.done ++ (pool.busy ++ pool.pending)) total
  pub errors : pool.errors ≡ failures pool.done

start_pool-PoolInv :
    (workers : ℕ) (paths : List Bytes) → PoolInv workers paths (start_pool workers paths)
unfolding start_pool
start_pool-PoolInv workers paths = record {
  crew = omega arith;
  paths = Perm.refl paths;
  errors = refl;
}

-- One move: the invariant is kept and one move fewer is left.
record Moved (workers : ℕ) (total : List Bytes) (before after : Pool) : Type 0 where
  inv : PoolInv workers total after
  fewer : suc (moves_left after) ≡ moves_left before

reported_paths :
    (d : List (Bytes × Bool)) (path : Bytes) (b : Bool) (others busy pending total : List Bytes)
    → Perm (path ∷ others) busy
    → Perm (done_paths d ++ (busy ++ pending)) total
    → Perm (done_paths (d ++ ((path, b) ∷ [])) ++ (others ++ pending)) total
reported_paths d path b others busy pending total picked kept =
    rw (map-append, append_assoc)
      (Perm.trans (Perm.append (Perm.refl (done_paths d)) (Perm.append picked (Perm.refl pending)))
        kept)

reported_errors :
    (errors : List Bytes) (d : List (Bytes × Bool)) (path : Bytes) (b : Bool)
    → errors ≡ failures d
    → (if b then errors else errors ++ (path ∷ [])) ≡ failures (d ++ ((path, b) ∷ []))
reported_errors errors d path true e = rw (failures-append, append-nil) e
reported_errors errors d path false e = rw (failures-append, e)

module _ (workers : ℕ) (total : List Bytes) where
  report-Moved :
      (pool : Pool) (path : Bytes) (others : List Bytes) (r : Result (Unit {0}))
      → PoolInv workers total pool
      → Perm (path ∷ others) pool.busy
      → suc (length others) ≡ length pool.busy
      → Moved workers total pool (report path others r pool)
  unfolding report
  report-Moved pool path others r inv picked shorter = record {
    inv = record {
      crew = omega (arith, inv.crew);
      paths =
          reported_paths pool.done path (succeeded r) others pool.busy pool.pending total picked
            inv.paths;
      errors = reported_errors pool.errors pool.done path (succeeded r) inv.errors;
    };
    fewer = omega arith;
  }

  receive-Moved :
      (pool : Pool) (path : Bytes) (rest : List Bytes) (idle : ℕ)
      → pool.pending ≡ path ∷ rest
      → pool.idle ≡ suc idle
      → PoolInv workers total pool
      → Moved workers total pool
          (record pool { pending = rest; busy = pool.busy ++ (path ∷ []); idle = idle })
  receive-Moved pool path rest idle waiting free inv = record {
    inv = record {
      crew = omega (arith, inv.crew, length-append pool.busy (path ∷ []));
      paths = rw append_assoc (
          subst (λ (l : List Bytes). Perm (done_paths pool.done ++ (pool.busy ++ l)) total) waiting
            inv.paths);
      errors = inv.errors;
    };
    fewer = omega (arith, length-append pool.busy (path ∷ []), ap (length {A = Bytes}) waiting);
  }

module _ {W : Type 0} (upload : Bytes → Exec W (Unit {0})) (workers : ℕ) (total : List Bytes) where
  finish-Moved :
      (pool : Pool) (k : ℕ) (w : W)
      → PoolInv workers total pool
      → k < length pool.busy
      → Moved workers total pool (finish_upload upload (pick pool.busy k) pool w).0
  unfolding finish_upload
  finish-Moved pool k w inv h =
      let p = pick-Picked pool.busy k h in
      rw p.found (report-Moved workers total pool p.path p.others _ inv p.perm p.shorter)

  turn-Moved :
      (received pool : Pool) (turn : ℕ) (w : W)
      → PoolInv workers total pool
      → Moved workers total pool received
      → turn < suc (length pool.busy)
      → Moved workers total pool (receive_or_finish upload received turn pool w).0
  unfolding receive_or_finish
  turn-Moved received pool zero w inv moved h = moved
  turn-Moved received pool (suc k) w inv moved h = finish-Moved pool k w inv (omega arith)

  -- Whether a worker can receive, by what the channel holds and who waits.
  move-Moved :
      (pending : List Bytes) (idle choice : ℕ) (pool : Pool) (w : W)
      → pool.pending ≡ pending
      → pool.idle ≡ idle
      → PoolInv workers total pool
      → 0 < workers
      → 0 < moves_left pool
      → Moved workers total pool (move upload (receive pending idle pool) choice pool w).0
  unfolding move
  move-Moved [] idle choice pool w e f inv some_workers more =
      finish-Moved pool (choice % length pool.busy) w inv
        (mod-lt choice (omega (arith, ap (length {A = Bytes}) e)))
  move-Moved (path ∷ rest) zero choice pool w e f inv some_workers more =
      finish-Moved pool (choice % length pool.busy) w inv (mod-lt choice (omega (arith, inv.crew)))
  move-Moved (path ∷ rest) (suc idle) choice pool w e f inv some_workers more =
      turn-Moved _ pool (choice % suc (length pool.busy)) w inv
        (receive-Moved workers total pool path rest idle e f inv) (mod-lt choice (omega arith))

  run_pool-PoolInv :
      (n : ℕ) (choices : ℕ → ℕ) (pool : Pool) (w : W)
      → PoolInv workers total pool
      → 0 < workers
      → moves_left pool ≡ n
      → PoolInv workers total (run_pool upload n choices pool w).0
        × (moves_left (run_pool upload n choices pool w).0 ≡ 0)
  unfolding run_pool pool_step
  run_pool-PoolInv zero choices pool w inv some_workers left = (inv, left)
  run_pool-PoolInv (suc n) choices pool w inv some_workers left =
      let m =
        move-Moved pool.pending pool.idle (choices n) pool w refl refl inv some_workers
          (omega arith) in
      run_pool-PoolInv n choices _ _ m.inv some_workers (omega (arith, m.fewer))

none_left : {A : Type 0} (xs ys : List A) → 2 * length xs + length ys ≡ 0 → (xs ≡ []) × (ys ≡ [])
none_left [] [] h = (refl, refl)
none_left [] (_ ∷ _) h = absurd (omega arith)
none_left (_ ∷ _) ys h = absurd (omega arith)

module _ {W : Type 0} (upload : Bytes → Exec W (Unit {0})) where
  pub run_pool_complete :
      (workers : ℕ) (paths : List Bytes) (choices : ℕ → ℕ) (w : W)
      → 0 < workers
      → let pool = (run_pool upload (2 * length paths) choices (start_pool workers paths) w).0 in
        (pool.pending ≡ [])
        × (pool.busy ≡ [])
        × (pool.idle ≡ workers)
        × Perm (done_paths pool.done) paths
        × (pool.errors ≡ failures pool.done)
  run_pool_complete workers paths choices w some_workers =
      let pool = (run_pool upload (2 * length paths) choices (start_pool workers paths) w).0 in
      let (inv, left) =
        run_pool-PoolInv upload workers paths (2 * length paths) choices (start_pool workers paths)
          w (start_pool-PoolInv workers paths) some_workers (unfold start_pool in omega arith) in
      let (sent, free) = none_left pool.pending pool.busy left in
      (
        sent,
        free,
        omega (arith, inv.crew, ap (length {A = Bytes}) free),
        subst (λ (l : List Bytes). Perm l paths) (append-nil _)
            (subst₂ (λ (b p : List Bytes). Perm (done_paths pool.done ++ (b ++ p)) paths) free sent
              inv.paths),
        inv.errors,
      )
