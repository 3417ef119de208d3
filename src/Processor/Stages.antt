-- ===== src/Processor/Stages.antt =====
-- The order of the media work of internal/job/processor.go.
use Prim.Native.String.{String}
use golang_videoencoder_api.Prelude.{bytes, ◌≡◌, refl}
use golang_videoencoder_api.Result.{Error, Result, ok, err, wrap}
use golang_videoencoder_api.Exec.{Exec, continue, map_error, rescue, best_effort, ◌>>◌}
use golang_videoencoder_api.Domain.{VideoColumns, Job}
use golang_videoencoder_api.Machine.{Context, Os, Storage}
use golang_videoencoder_api.VideoService.{VideoService, download, fragment, encode, finish}
use golang_videoencoder_api.Processor.{Processor, upload_outputs, media_work}

module _ {W : Type 0} where
  -- Four stages and a cleanup, from the world `w`: each stage starts in the world that the stage
  -- before it left, and only if that one succeeded; the first failure is the result, with its label
  -- in front; and the cleanup runs after four successes, with no influence on the result.
  pub data InStages (first second third fourth cleanup : Exec W (Unit {0})) (w : W)
      (r : Result (Unit {0}) × W) : Type 0 where
    first_failed :
        (e : Error) (v : W)
        → first w ≡ (err e, v)
        → r ≡ (err (wrap (bytes "download: ") e), v)
        → InStages first second third fourth cleanup w r
    second_failed :
        (e : Error) (w1 v : W)
        → first w ≡ (ok tt, w1)
        → second w1 ≡ (err e, v)
        → r ≡ (err (wrap (bytes "fragment: ") e), v)
        → InStages first second third fourth cleanup w r
    third_failed :
        (e : Error) (w1 w2 v : W)
        → first w ≡ (ok tt, w1)
        → second w1 ≡ (ok tt, w2)
        → third w2 ≡ (err e, v)
        → r ≡ (err (wrap (bytes "encode: ") e), v)
        → InStages first second third fourth cleanup w r
    fourth_failed :
        (e : Error) (w1 w2 w3 v : W)
        → first w ≡ (ok tt, w1)
        → second w1 ≡ (ok tt, w2)
        → third w2 ≡ (ok tt, w3)
        → fourth w3 ≡ (err e, v)
        → r ≡ (err (wrap (bytes "upload: ") e), v)
        → InStages first second third fourth cleanup w r
    all_succeeded :
        (w1 w2 w3 w4 : W)
        → first w ≡ (ok tt, w1)
        → second w1 ≡ (ok tt, w2)
        → third w2 ≡ (ok tt, w3)
        → fourth w3 ≡ (ok tt, w4)
        → r ≡ (ok tt, (cleanup w4).1)
        → InStages first second third fourth cleanup w r

  module _ (first second third fourth cleanup : Exec W (Unit {0})) where
    abbrev label : String → Exec W (Unit {0}) → Exec W (Unit {0})
    label name m = rescue (wrap (bytes name)) m

    abbrev rest4 : Exec W (Unit {0})
    rest4 = label "upload: " fourth >> best_effort cleanup

    abbrev rest3 : Exec W (Unit {0})
    rest3 = label "encode: " third >> rest4

    abbrev rest2 : Exec W (Unit {0})
    rest2 = label "fragment: " second >> rest3

    abbrev after : String → Result (Unit {0}) × W → Exec W (Unit {0}) → Result (Unit {0}) × W
    after name r rest = continue (map_error (wrap (bytes name)) r.0) (λ _. rest) r.1

    stage4 :
        (w w1 w2 w3 : W) (r : Result (Unit {0}) × W)
        → first w ≡ (ok tt, w1)
        → second w1 ≡ (ok tt, w2)
        → third w2 ≡ (ok tt, w3)
        → fourth w3 ≡ r
        → InStages first second third fourth cleanup w (after "upload: " r (best_effort cleanup))
    stage4 w w1 w2 w3 (ok tt, v) p q s t = all_succeeded w1 w2 w3 v p q s t refl
    stage4 w w1 w2 w3 (err e, v) p q s t = fourth_failed e w1 w2 w3 v p q s t refl

    stage3 :
        (w w1 w2 : W) (r : Result (Unit {0}) × W)
        → first w ≡ (ok tt, w1)
        → second w1 ≡ (ok tt, w2)
        → third w2 ≡ r
        → InStages first second third fourth cleanup w (after "encode: " r rest4)
    stage3 w w1 w2 (ok tt, v) p q s = stage4 w w1 w2 v (fourth v) p q s refl
    stage3 w w1 w2 (err e, v) p q s = third_failed e w1 w2 v p q s refl

    stage2 :
        (w w1 : W) (r : Result (Unit {0}) × W)
        → first w ≡ (ok tt, w1)
        → second w1 ≡ r
        → InStages first second third fourth cleanup w (after "fragment: " r rest3)
    stage2 w w1 (ok tt, v) p q = stage3 w w1 v (third v) p q refl
    stage2 w w1 (err e, v) p q = second_failed e w1 v p q refl

    stage1 :
        (w : W) (r : Result (Unit {0}) × W)
        → first w ≡ r
        → InStages first second third fourth cleanup w (after "download: " r rest2)
    stage1 w (ok tt, v) p = stage2 w v (second v) p refl
    stage1 w (err e, v) p = first_failed e v p refl

module _ {W : Type 0} (os : Os W) (storage : Storage W) where
  -- The media work of a job is `Download`, `Fragment`, `Encode` and the upload, each in the world that the
  -- one before it left and only after its success. The first failure is the result, with its label in
  -- front, and the world is the one it left. `Finish` runs after four successes only, and its error is
  -- dropped.
  pub media_work-InStages :
      (ctx : Context) (p : Processor W) (job : Job) (video : VideoColumns) (v : VideoService)
      (w : W)
      → InStages
          (download os storage ctx v p.source_bucket)
          (fragment os ctx v)
          (encode os ctx v)
          (upload_outputs os storage ctx p job video)
          (finish os v)
          w
          (media_work os storage ctx p job video v w)
  unfolding media_work
  media_work-InStages ctx p job video v w =
      stage1 (download os storage ctx v p.source_bucket) (fragment os ctx v) (encode os ctx v)
        (upload_outputs os storage ctx p job video) (finish os v) w _ refl
