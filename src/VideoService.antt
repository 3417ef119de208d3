-- ===== src/VideoService.antt =====
-- internal/video/service.go
pub mod Cleanup
use golang_videoencoder_api.Prelude.{Bytes, bytes, List, [], ◌∷◌, ◌++◌, Option, none, some}
use golang_videoencoder_api.Result.{Error, Result, ok, err, text, message}
use golang_videoencoder_api.Exec.{Exec, pure, raise, finally, ◌>>=◌, ◌>>◌}
use golang_videoencoder_api.Domain.{VideoColumns}
use golang_videoencoder_api.Machine.{Context, Os, Storage}
use Prim.Native.Nat.{ℕ}

-- `VideoService`; its field `VideoRepository` is never read. The client is a pointer.
pub record VideoService : Type 0 where
  pub video : VideoColumns
  pub storage_client : Option ℕ

-- A call through the nil client, which is a panic; `NewVideoService` never returns a nil client.
abbrev pub nil_dereference : Error
nil_dereference = text (bytes "runtime error: invalid memory address or nil pointer dereference")

module _ {W : Type 0} (storage : Storage W) where
  -- `NewVideoService`; the caller sets the video next.
  unfoldable pub new_video_service : VideoColumns → Exec W VideoService
  new_video_service video = do
    client ← storage.new_client
    pure (record { video = video; storage_client = some client })

  -- `Close`
  unfoldable pub close : VideoService → Exec W (Unit {0})
  close v = elim v.storage_client [ none ↦ pure tt | some client ↦ storage.close_client client ]

module _ {W : Type 0} (os : Os W) where
  -- `basePath`
  unfoldable pub base_path : Bytes
  base_path = os.getenv (bytes "localStoragePath")

  -- The paths that the methods build of the base path and the id of the video.
  unfoldable pub artifact : VideoService → Bytes → Bytes
  unfolding base_path
  artifact v extension = base_path ++ (bytes "/" ++ (v.video.id ++ extension))

module _ {W : Type 0} (os : Os W) (storage : Storage W) where
  download_from : Context → VideoService → Bytes → ℕ → Exec W (Unit {0})
  unfolding artifact
  download_from ctx v bucket_name client = do
    reader ← storage.new_reader ctx client bucket_name v.video.file_path
    finally
        (do
          file ← os.create (artifact os v (bytes ".mp4"))
          finally (do storage.read_from file reader; pure tt) (os.close_file file))
        (storage.close_reader reader)

  -- `Download`
  unfoldable pub download : Context → VideoService → Bytes → Exec W (Unit {0})
  unfolding download_from
  download ctx v bucket_name = elim v.storage_client [
    | none ↦ raise nil_dereference
    | some client ↦ download_from ctx v bucket_name client
  ]

module _ {W : Type 0} (os : Os W) where
  -- `Fragment`
  unfoldable pub fragment : Context → VideoService → Exec W (Unit {0})
  unfolding artifact
  fragment ctx v = do
    os.mkdir (artifact os v [])
    os.command ctx (bytes "mp4fragment")
        (artifact os v (bytes ".mp4") ∷ artifact os v (bytes ".frag") ∷ [])
    pure tt

  -- `Encode`
  unfoldable pub encode : Context → VideoService → Exec W (Unit {0})
  unfolding artifact
  encode ctx v = do
    os.command ctx (bytes "mp4dash") (
        artifact os v (bytes ".frag")
        ∷ bytes "--use-segment-timeline"
        ∷ bytes "-o"
        ∷ artifact os v []
        ∷ bytes "-f"
        ∷ bytes "--exec-dir"
        ∷ bytes "/opt/bento4/bin/"
        ∷ [])
    pure tt

  -- The files and the directory that `Finish` removes.
  unfoldable pub finish_targets : VideoService → List Bytes
  unfolding artifact
  finish_targets v =
      artifact os v (bytes ".mp4") ∷ artifact os v (bytes ".frag") ∷ artifact os v [] ∷ []

  -- The error of one removal, `remove TARGET: …`.
  abbrev removal_error : Bytes → Error → Error
  removal_error target e = text (bytes "remove " ++ (target ++ (bytes ": " ++ message e)))

  unfoldable pub add_removal : Bytes → Result (Unit {0}) → List Error → List Error
  add_removal target (ok _) errs = errs
  add_removal target (err e) errs = removal_error target e ∷ errs

  -- The loop of `Finish`: every target is tried, and the errors are collected in order.
  unfoldable pub remove_targets : List Bytes → W → List Error × W
  unfolding add_removal
  remove_targets [] w = ([], w)
  remove_targets (target ∷ rest) w =
      let (r, w1) = os.remove_all target w in
      let (errs, w2) = remove_targets rest w1 in (add_removal target r errs, w2)

  -- `errors.Join`: the messages, a line each.
  joined_message : Error → List Error → Bytes
  joined_message e [] = message e
  joined_message e (e' ∷ rest) = message e ++ (bytes "\n" ++ joined_message e' rest)

  unfoldable pub join_errors : List Error → Result (Unit {0})
  unfolding joined_message
  join_errors [] = ok tt
  join_errors (e ∷ rest) = err (text (joined_message e rest))

  -- `Finish`
  unfoldable pub finish : VideoService → Exec W (Unit {0})
  unfolding finish_targets remove_targets join_errors
  finish v w = let (errs, w') = remove_targets (finish_targets v) w in (join_errors errs, w')
