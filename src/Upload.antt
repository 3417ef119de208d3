-- ===== src/Upload.antt =====
-- internal/upload/manager.go
pub mod Outcome
pub mod Objects
use golang_videoencoder_api.Prelude.{
  ℕ, zero, suc, ◌+◌, ◌-◌, ◌*◌, ℤ, is_positive, pos_part, Bytes, bytes, decimal, is_empty, ltb, ◌==◌,
  if◌then◌else◌, List, [], ◌∷◌, ◌++◌, Bool, true, false, not, Option, none, some, length,
}
use golang_videoencoder_api.Result.{Error, Result, ok, err, text, wrap}
use golang_videoencoder_api.Exec.{Exec, pure, raise, lift, rescue, finally, ◌>>=◌, ◌>>◌}
use golang_videoencoder_api.Machine.{Context, WalkEntry, Os, Storage}
use golang_videoencoder_api.GoPath.{path_join, trim_prefix, base}
use golang_videoencoder_api.UploadPool.{Pool, run_pool, start_pool}

-- `VideoUpload`
pub record VideoUpload : Type 0 where
  pub paths : List Bytes
  pub video_path : Bytes
  pub output_bucket : Bytes
  pub output_prefix : Bytes
  pub errors : List Bytes

-- `NewVideoUpload`
unfoldable pub new_video_upload : VideoUpload
new_video_upload = record {
  paths = [];
  video_path = [];
  output_bucket = [];
  output_prefix = [];
  errors = [];
}

-- `objectName`
unfoldable pub object_name : VideoUpload → Bytes → Bytes
object_name vu local_path =
    let rel = trim_prefix local_path (vu.video_path ++ bytes "/") in
    let prefix = if is_empty vu.output_prefix then base vu.video_path else vu.output_prefix in
    path_join prefix rel

-- The error of an entry ends the walk; the paths found so far stay collected.
unfoldable pub visit :
    Option Error → List Bytes → Option Error × List Bytes → Option Error × List Bytes
visit none paths later = later
visit (some e) paths later = (some e, paths)

-- The function that `loadPaths` gives to `filepath.Walk`, over the calls of it.
unfoldable pub collect : List WalkEntry → List Bytes → Option Error × List Bytes
unfolding visit
collect [] paths = (none, paths)
collect (entry ∷ rest) paths =
    visit entry.error paths
      (collect rest (if entry.is_dir then paths else paths ++ (entry.path ∷ [])))

module _ {W : Type 0} (os : Os W) (storage : Storage W) where
  -- The end of `UploadObject`: after a failed copy the writer's close error is dropped.
  unfoldable pub close_copy : ℕ → Result ℕ → Exec W (Unit {0})
  close_copy writer (ok _) w = storage.close_writer writer w
  close_copy writer (err e) w = let (_, w') = storage.close_writer writer w in (err e, w')

  unfoldable pub copy_file : ℕ → ℕ → Exec W (Unit {0})
  copy_file writer file w = let (r, w') = storage.copy writer file w in close_copy writer r w'

  -- `UploadObject`
  unfoldable pub upload_object : Context → VideoUpload → Bytes → ℕ → Exec W (Unit {0})
  upload_object ctx vu object_path client = do
    file ← os.open_file object_path
    finally
        (do
          writer ←
              lift (storage.new_writer ctx client vu.output_bucket (object_name vu object_path))
          copy_file writer file)
        (os.close_file file)

module _ {W : Type 0} (os : Os W) where
  -- `loadPaths`
  unfoldable pub load_paths : VideoUpload → W → (Option Error × VideoUpload) × W
  load_paths vu w =
      let (entries, w') = os.walk vu.video_path w in
      let (e, paths) = collect entries vu.paths in ((e, record vu { paths = paths }), w')

-- `workerCount`
unfoldable pub worker_count : ℤ → ℕ → ℕ
worker_count concurrency files =
    let wanted = if is_positive concurrency then pos_part concurrency else 1 in
    if ltb files wanted then files else wanted

abbrev no_output_files : Bytes → Error
no_output_files path = text (bytes "no output files found under " ++ path)

-- "%d of %d uploads failed (e.g. %s)"
uploads_failed_text : List Bytes → ℕ → Bytes → Bytes
uploads_failed_text errors total example =
    decimal (length errors)
    ++ (bytes " of "
        ++ (decimal total ++ (bytes " uploads failed (e.g. " ++ (example ++ bytes ")"))))

unfoldable pub upload_result : List Bytes → ℕ → Result (Unit {0})
unfolding uploads_failed_text
upload_result [] total = ok tt
upload_result (path ∷ rest) total = err (text (uploads_failed_text (path ∷ rest) total path))

module _ {W : Type 0} (os : Os W) (storage : Storage W) where
  -- The goroutines and the wait for them: two moves for each path, one receives it and one uploads it.
  unfoldable pub run_workers : Context → VideoUpload → ℕ → ℕ → W → Pool × W
  run_workers ctx vu workers client w =
      let (choices, w') = os.schedule w in
      run_pool (λ path. upload_object os storage ctx vu path client) (2 * length vu.paths) choices
        (start_pool workers vu.paths) w'

  -- The part of `ProcessUpload` that has a client; the client is closed at the end.
  unfoldable pub upload_with :
      Context → ℤ → VideoUpload → ℕ → W → (Result (Unit {0}) × VideoUpload) × W
  unfolding run_workers
  upload_with ctx concurrency vu client w =
      let workers = worker_count concurrency (length vu.paths) in
      let (pool, w1) = run_workers ctx vu workers client w in
      let (_, w2) = storage.close_client client w1 in
      ((upload_result pool.errors (length vu.paths), record vu { errors = pool.errors }), w2)

  unfoldable pub with_client :
      Context → ℤ → VideoUpload → Result ℕ → W → (Result (Unit {0}) × VideoUpload) × W
  unfolding upload_with
  with_client ctx concurrency vu (err e) w = ((err (wrap (bytes "storage client: ") e), vu), w)
  with_client ctx concurrency vu (ok client) w = upload_with ctx concurrency vu client w

  -- Without files there is nothing to upload, which is an error.
  unfoldable pub upload_found :
      Context → ℤ → VideoUpload → List Bytes → W → (Result (Unit {0}) × VideoUpload) × W
  upload_found ctx concurrency vu [] w = ((err (no_output_files vu.video_path), vu), w)
  upload_found ctx concurrency vu (_ ∷ _) w =
      let (client, w') = storage.new_client w in with_client ctx concurrency vu client w'

  -- The part of `ProcessUpload` behind the walk.
  unfoldable pub upload_paths :
      Context → ℤ → Option Error → VideoUpload → W → (Result (Unit {0}) × VideoUpload) × W
  upload_paths ctx concurrency (some e) vu w = ((err (wrap (bytes "load output paths: ") e), vu), w)
  upload_paths ctx concurrency none vu w = upload_found ctx concurrency vu vu.paths w

  -- `ProcessUpload`: the result, and the fields `Paths` and `Errors` that it leaves.
  unfoldable pub process_upload :
      Context → ℤ → VideoUpload → W → (Result (Unit {0}) × VideoUpload) × W
  unfolding load_paths upload_paths
  process_upload ctx concurrency vu w =
      let ((e, loaded), w') = load_paths os (record vu { paths = []; errors = [] }) w in
      upload_paths ctx concurrency e loaded w'
