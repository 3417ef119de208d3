-- ===== src/Upload/Outcome.antt =====
-- What `ProcessUpload` of internal/upload/manager.go returns, on every way through it.
use mathlib.Core.List.{Perm}
use golang_videoencoder_api.Prelude.{
  ℕ, zero, suc, ◌*◌, ◌≤◌, ◌<◌, ℤ, pos, negsuc, Bytes, bytes, List, [], ◌∷◌, ◌++◌, All, Bool, true,
  false, Option, none, some, ◌≡◌, ◌↔◌, inl, inr, refl, sym, ap, ◌∙◌, subst, append_assoc,
  append-nil, Bool-cases, length, arith, if◌then◌else◌,
}
use golang_videoencoder_api.Result.{Error, Result, ok, err, wrap}
use golang_videoencoder_api.Machine.{Context, WalkEntry, Os, Storage}
use golang_videoencoder_api.UploadPool.{run_pool, start_pool}
use golang_videoencoder_api.UploadPool.Conservation.{done_paths, failures, run_pool_complete}
use golang_videoencoder_api.UploadPool.Honesty.{IsOutcome, run_pool_honest}
use golang_videoencoder_api.Upload.{
  VideoUpload, visit, collect, load_paths, upload_object, worker_count, upload_result, run_workers,
  upload_with, with_client, no_output_files, upload_found, upload_paths, process_upload,
}

-- The paths that are no directories, in the order of the walk.
abbrev pub file_paths : List WalkEntry → List Bytes
file_paths [] = []
file_paths (entry ∷ rest) = if entry.is_dir then file_paths rest else entry.path ∷ file_paths rest

collected :
    (entry : WalkEntry) (paths rest : List Bytes)
    → (if entry.is_dir then paths else paths ++ (entry.path ∷ [])) ++ rest
      ≡ paths ++ (if entry.is_dir then rest else entry.path ∷ rest)
collected entry paths rest = elim (Bool-cases entry.is_dir) [
  | inl e ↦ rw e refl
  | inr e ↦ rw e (append_assoc paths (entry.path ∷ []) rest)
]

visited :
    (o : Option Error) (paths : List Bytes) (later : Option Error × List Bytes)
    → (visit o paths later).0 ≡ none
    → visit o paths later ≡ later
unfolding visit
visited none paths later h = refl
visited (some e) paths later h = cc

-- A walk that meets no error collects every file.
collect-ok :
    (entries : List WalkEntry) (paths : List Bytes)
    → (collect entries paths).0 ≡ none
    → (collect entries paths).1 ≡ paths ++ file_paths entries
unfolding collect
collect-ok [] paths h = sym (append-nil paths)
collect-ok (entry ∷ rest) paths h =
    let next = if entry.is_dir then paths else paths ++ (entry.path ∷ []) in
    let same = visited entry.error paths (collect rest next) h in
    ap (λ (r : Option Error × List Bytes). r.1) same
    ∙ collect-ok rest next (sym (ap (λ (r : Option Error × List Bytes). r.0) same) ∙ h)
    ∙ collected entry paths (file_paths rest)

-- For at least one file the number of workers is at least one and at most the number of files, whatever
-- the concurrency that was asked for.
pub worker_count_bounds :
    (concurrency : ℤ) (files : ℕ)
    → 0 < files
    → (0 < worker_count concurrency files) × (worker_count concurrency files ≤ files)
unfolding worker_count
worker_count_bounds (pos zero) files h = ground arith
worker_count_bounds (pos (suc n)) files h = ground arith
worker_count_bounds (negsuc n) files h = ground arith

-- No failure among the uploads, if and only if each succeeded.
no_failures :
    (ds : List (Bytes × Bool)) → (failures ds ≡ []) ↔ All (λ (d : Bytes × Bool). d.1 ≡ true) ds
no_failures [] = (λ _. tt, λ _. refl)
no_failures ((path, true) ∷ ds) =
    (λ e. (refl, (no_failures ds).0 e), λ all. (no_failures ds).1 all.1)
no_failures ((path, false) ∷ ds) = (λ e. cc, λ all. cc)

upload_result-ok :
    (errors : List Bytes) (total : ℕ) → (upload_result errors total ≡ ok tt) ↔ (errors ≡ [])
unfolding upload_result
upload_result-ok [] total = (λ _. refl, λ _. refl)
upload_result-ok (path ∷ rest) total = (λ e. cc, λ e. cc)

module _ {W : Type 0} (os : Os W) (storage : Storage W) (ctx : Context) where
  -- Some world's upload of this path, by some client, had this outcome.
  abbrev pub Uploaded : VideoUpload → Bytes × Bool → Type 0
  Uploaded vu (path, b) =
      (client : ℕ) × IsOutcome (λ p. upload_object os storage ctx vu p client) (path, b)

  -- How `ProcessUpload` ends: the walk failed; or it found no file; or there is no client; or the
  -- files that the walk found were uploaded, each once, `Errors` holds those that failed, and the
  -- result is a success exactly when none did.
  pub data UploadEnd (vu after : VideoUpload) (r : Result (Unit {0})) (found : List WalkEntry)
      : Type 0 where
    walk_failed :
        (e : Error)
        → (collect found []).0 ≡ some e
        → r ≡ err (wrap (bytes "load output paths: ") e)
        → UploadEnd vu after r found
    nothing_found :
        (collect found []).0 ≡ none
        → file_paths found ≡ []
        → r ≡ err (no_output_files vu.video_path)
        → UploadEnd vu after r found
    no_client :
        (e : Error) (w : W)
        → (collect found []).0 ≡ none
        → 0 < length (file_paths found)
        → (storage.new_client w).0 ≡ err e
        → r ≡ err (wrap (bytes "storage client: ") e)
        → UploadEnd vu after r found
    uploaded :
        (outcomes : List (Bytes × Bool))
        → (collect found []).0 ≡ none
        → 0 < length (file_paths found)
        → after.paths ≡ file_paths found
        → Perm (done_paths outcomes) (file_paths found)
        → All (Uploaded (record vu { paths = file_paths found; errors = [] })) outcomes
        → after.errors ≡ failures outcomes
        → (r ≡ ok tt) ↔ All (λ (d : Bytes × Bool). d.1 ≡ true) outcomes
        → UploadEnd vu after r found

  module _ (concurrency : ℤ) (vu : VideoUpload) (found : List WalkEntry) where
    -- The upload behind a walk without errors.
    abbrev loaded : List Bytes → VideoUpload
    loaded paths = record vu { paths = paths; errors = [] }

    abbrev EndsWell : (Result (Unit {0}) × VideoUpload) × W → Type 0
    EndsWell ((r, after), w) = UploadEnd vu after r found

    outcomes-Uploaded :
        (client : ℕ) (paths : List Bytes) (ds : List (Bytes × Bool))
        → All (IsOutcome (λ p. upload_object os storage ctx (loaded paths) p client)) ds
        → All (Uploaded (loaded paths)) ds
    outcomes-Uploaded client paths [] all = tt
    outcomes-Uploaded client paths (d ∷ ds) (first, all) =
        ((client, first), outcomes-Uploaded client paths ds all)

    upload_with-End :
        (client : ℕ) (w : W)
        → (collect found []).0 ≡ none
        → 0 < length (file_paths found)
        → EndsWell (upload_with os storage ctx concurrency (loaded (file_paths found)) client w)
    unfolding upload_with run_workers
    upload_with-End client w walked some_files =
        let files = file_paths found in
        let upload = λ (p : Bytes). upload_object os storage ctx (loaded files) p client in
        let workers = worker_count concurrency (length files) in
        let (choices, w') = os.schedule w in
        let pool = (run_pool upload (2 * length files) choices (start_pool workers files) w').0 in
        let (_, _, _, once, failed) =
          run_pool_complete upload workers files choices w'
            (worker_count_bounds concurrency (length files) some_files).0 in
        let honest =
          run_pool_honest upload (2 * length files) choices (start_pool workers files) w'
            (unfold start_pool in tt) in
        uploaded pool.done walked some_files refl once
          (outcomes-Uploaded client files pool.done honest) failed
          (
            λ e. (no_failures pool.done).0 (sym failed ∙ (upload_result-ok pool.errors _).0 e),
            λ all. (upload_result-ok pool.errors _).1 (failed ∙ (no_failures pool.done).1 all),
          )

    with_client-End :
        (client : Result ℕ) (w v : W)
        → (collect found []).0 ≡ none
        → 0 < length (file_paths found)
        → (storage.new_client v).0 ≡ client
        → EndsWell (with_client os storage ctx concurrency (loaded (file_paths found)) client w)
    unfolding with_client
    with_client-End (ok client) w v walked some_files made =
        upload_with-End client w walked some_files
    with_client-End (err e) w v walked some_files made = no_client e v walked some_files made refl

    upload_found-End :
        (paths : List Bytes) (w : W)
        → (collect found []).0 ≡ none
        → paths ≡ file_paths found
        → EndsWell (upload_found os storage ctx concurrency (loaded (file_paths found)) paths w)
    unfolding upload_found
    upload_found-End [] w walked e = nothing_found walked (sym e) refl
    upload_found-End (path ∷ rest) w walked e =
        with_client-End (storage.new_client w).0 (storage.new_client w).1 w walked
          (omega (arith, ap (length {A = Bytes}) e)) refl

    upload_paths-End :
        (e : Option Error) (paths : List Bytes) (w : W)
        → collect found [] ≡ (e, paths)
        → EndsWell (upload_paths os storage ctx concurrency e (loaded paths) w)
    unfolding upload_paths
    upload_paths-End (some e) paths w walked =
        walk_failed e (ap (λ (r : Option Error × List Bytes). r.0) walked) refl
    upload_paths-End none paths w walked =
        let files : paths ≡ file_paths found =
          sym (ap (λ (r : Option Error × List Bytes). r.1) walked)
          ∙ collect-ok found [] (ap (λ (r : Option Error × List Bytes). r.0) walked) in
        subst
          (λ (ps : List Bytes). EndsWell (upload_found os storage ctx concurrency (loaded ps) ps w))
          (sym files)
          (upload_found-End (file_paths found) w
            (ap (λ (r : Option Error × List Bytes). r.0) walked) refl)

module _ {W : Type 0} (os : Os W) (storage : Storage W) where
  -- `ProcessUpload`, for every choice of the scheduler: it reports a failed walk; or that the walk
  -- found no file; or that there is no storage client; or else `Paths` is what the walk found
  -- without the directories, every one of these files was uploaded once, `Errors` holds the paths
  -- whose upload failed, in the order in which the uploads ended, and the result is a success if
  -- and only if every upload succeeded.
  pub process_upload-End :
      (ctx : Context) (concurrency : ℤ) (vu : VideoUpload) (w : W)
      → let ((r, after), _) = process_upload os storage ctx concurrency vu w in
        UploadEnd os storage ctx vu after r (os.walk vu.video_path w).0
  unfolding process_upload load_paths
  process_upload-End ctx concurrency vu w =
      let (found, w') = os.walk vu.video_path w in
      upload_paths-End os storage ctx concurrency vu found (collect found []).0 (collect found []).1
        w' refl
