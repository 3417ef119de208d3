-- ===== src/VideoService/Cleanup.antt =====
-- The removals of `Finish` in internal/video/service.go.
use golang_videoencoder_api.Prelude.{
  Bytes, bytes, List, [], ◌∷◌, ◌++◌, All, Bool, true, false, ◌≡◌, ◌↔◌, refl, subst,
}
use golang_videoencoder_api.Result.{Error, Result, ok, err}
use golang_videoencoder_api.Machine.{Os}
use golang_videoencoder_api.UploadPool.{succeeded}
use golang_videoencoder_api.VideoService.{
  VideoService, base_path, artifact, add_removal, finish_targets, remove_targets, join_errors,
  finish,
}

-- The removals of these paths, one after the other, and which of them succeeded.
pub data Tries {W : Type 0} (os : Os W) : List Bytes → W → List Bool → W → Type 0 where
  none_left : {w : W} → Tries os [] w [] w
  tries :
      {target : Bytes} {rest : List Bytes} {w w1 w2 : W} {r : Result (Unit {0})} {later : List Bool}
      → os.remove_all target w ≡ (r, w1)
      → Tries os rest w1 later w2
      → Tries os (target ∷ rest) w (succeeded r ∷ later) w2

module _ {W : Type 0} (os : Os W) where
  record Removed (targets : List Bytes) (w : W) (r : List Error × W) : Type 0 where
    outcomes : List Bool
    tried : Tries os targets w outcomes r.1
    errors : (r.0 ≡ []) ↔ All (λ (b : Bool). b ≡ true) outcomes

  add_removal-Removed :
      (target : Bytes) (rest : List Bytes) (w w1 : W) (r : Result (Unit {0}))
      (later : List Error × W)
      → os.remove_all target w ≡ (r, w1)
      → Removed rest w1 later
      → Removed (target ∷ rest) w (add_removal os target r later.0, later.1)
  unfolding add_removal
  add_removal-Removed target rest w w1 (ok _) later called removed = record {
    outcomes = true ∷ removed.outcomes;
    tried = tries called removed.tried;
    errors = (λ e. (refl, removed.errors.0 e), λ all. removed.errors.1 all.1);
  }
  add_removal-Removed target rest w w1 (err e) later called removed = record {
    outcomes = false ∷ removed.outcomes;
    tried = tries called removed.tried;
    errors = (λ e. cc, λ all. cc);
  }

  remove_targets-Removed :
      (targets : List Bytes) (w : W) → Removed targets w (remove_targets os targets w)
  unfolding remove_targets
  remove_targets-Removed [] w = record {
    outcomes = [];
    tried = none_left;
    errors = (λ e. tt, λ all. refl);
  }
  remove_targets-Removed (target ∷ rest) w =
      add_removal-Removed target rest w (os.remove_all target w).1 (os.remove_all target w).0
        (remove_targets os rest (os.remove_all target w).1) refl
        (remove_targets-Removed rest (os.remove_all target w).1)

  join_errors-ok : (errs : List Error) → (join_errors os errs ≡ ok tt) ↔ (errs ≡ [])
  unfolding join_errors
  join_errors-ok [] = (λ e. refl, λ e. refl)
  join_errors-ok (e ∷ rest) = (λ h. cc, λ h. cc)

  -- The path of a file or directory that the job made: in the directory of the environment, named after
  -- the video, with this suffix.
  abbrev pub made_at : Bytes → Bytes → Bytes
  made_at id suffix = os.getenv (bytes "localStoragePath") ++ (bytes "/" ++ (id ++ suffix))

  finish_targets_lem :
      (v : VideoService)
      → finish_targets os v
        ≡ made_at v.video.id (bytes ".mp4")
          ∷ made_at v.video.id (bytes ".frag")
          ∷ made_at v.video.id []
          ∷ []
  unfolding finish_targets artifact base_path
  finish_targets_lem v = refl

  -- `Finish` tries to remove the download ID.mp4, the fragments ID.frag and the output directory ID,
  -- where ID is the id of the video and the three are in the directory that localStoragePath names:
  -- each of them once and in this order, also behind a removal that failed; and it succeeds if and only
  -- if every removal did.
  pub finish-Tries :
      (v : VideoService) (w : W)
      → let (r, w') = finish os v w in
        (outcomes : List Bool) × Tries os
          (made_at v.video.id (bytes ".mp4")
            ∷ made_at v.video.id (bytes ".frag")
            ∷ made_at v.video.id []
            ∷ [])
          w
          outcomes
          w'
        × ((r ≡ ok tt) ↔ All (λ (b : Bool). b ≡ true) outcomes)
  unfolding finish
  finish-Tries v w =
      let removed = remove_targets-Removed (finish_targets os v) w in
      let joined = join_errors-ok (remove_targets os (finish_targets os v) w).0 in
      (
        removed.outcomes,
        subst
            (λ (t : List Bytes).
              Tries os t w removed.outcomes (remove_targets os (finish_targets os v) w).1)
            (finish_targets_lem v) removed.tried,
        (λ e. removed.errors.0 (joined.0 e), λ all. joined.1 (removed.errors.1 all)),
      )
