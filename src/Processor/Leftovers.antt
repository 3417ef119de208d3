-- ===== src/Processor/Leftovers.antt =====
-- What an output directory that is already there does to a job: internal/job/processor.go and
-- internal/video/service.go.
use golang_videoencoder_api.Prelude.{
  ℕ, Bytes, [], Bool, true, Option-cases, ◌≡◌, refl, sym, ap, ◌∙◌, inl, inr,
}
use golang_videoencoder_api.Result.{Error, Result, err}
use golang_videoencoder_api.Exec.Keeps.{Keeps, keeps_rules}
use golang_videoencoder_api.Domain.{VideoColumns, Job}
use golang_videoencoder_api.Machine.{Context, Os, Storage}
use golang_videoencoder_api.VideoService.{VideoService, artifact, download, fragment}
use golang_videoencoder_api.Processor.{Processor, media_work}
use golang_videoencoder_api.Processor.Stages.{
  first_failed, second_failed, third_failed, fourth_failed, all_succeeded, media_work-InStages,
}

-- The result is an error.
abbrev pub IsFailure : Result (Unit {0}) → Type 0
IsFailure r = (e : Error) × (r ≡ err e)

module _ {W : Type 0} (os : Os W) (storage : Storage W) where
  -- `os.Mkdir` fails on a path that is there, and the calls of a download leave it there.
  pub record DirectoryLaws (dir : Bytes) (is_there : W → Bool) : Type 0 where
    pub mkdir : (w : W) → is_there w ≡ true → IsFailure (os.mkdir dir w).0
    pub create : (path : Bytes) → Keeps is_there (os.create path)
    pub close_file : (file : ℕ) → Keeps is_there (os.close_file file)
    pub new_reader :
        (ctx : Context) (client : ℕ) (bucket object : Bytes)
        → Keeps is_there (storage.new_reader ctx client bucket object)
    pub close_reader : (reader : ℕ) → Keeps is_there (storage.close_reader reader)
    pub read_from : (file reader : ℕ) → Keeps is_there (storage.read_from file reader)

  module _ (ctx : Context) (v : VideoService) (is_there : W → Bool)
      (laws : DirectoryLaws (artifact os v []) is_there) where
    download-Keeps : (bucket : Bytes) → Keeps is_there (download os storage ctx v bucket)
    unfolding download
    download-Keeps bucket = elim (Option-cases v.storage_client) [
      | inl e ↦ rw e (search keeps_rules)
      | inr (client, e) ↦ rw e (
          search
            (
              keeps_rules, laws.create, laws.close_file, laws.new_reader, laws.close_reader,
              laws.read_from,
            )
            depth 8)
    ]

    fragment-IsFailure : (w : W) → is_there w ≡ true → IsFailure (fragment os ctx v w).0
    unfolding fragment
    fragment-IsFailure w there = let (e, failed) = laws.mkdir w there in (e, rw failed refl)

    failed_stage : {r : Result (Unit {0}) × W} (e : Error) (w : W) → r ≡ (err e, w) → IsFailure r.0
    failed_stage e w h = (e, ap (λ (x : Result (Unit {0}) × W). x.0) h)

    -- As long as the output directory of a video is there, the media work of a job for that video
    -- fails, whatever the storage and the tools do: `Fragment` cannot make the directory. (A job that
    -- failed behind that call has left it there, since only a success removes it.)
    pub media_work-IsFailure :
        (p : Processor W) (job : Job) (video : VideoColumns) (w : W)
        → is_there w ≡ true
        → IsFailure (media_work os storage ctx p job video v w).0
    media_work-IsFailure p job video w there =
        elim (media_work-InStages os storage ctx p job video v w) [
          | first_failed e u a r ↦ failed_stage _ _ r
          | second_failed e w1 u a b r ↦ failed_stage _ _ r
          | third_failed e w1 w2 u a b c r ↦ failed_stage _ _ r
          | fourth_failed e w1 w2 w3 u a b c d r ↦ failed_stage _ _ r
          | all_succeeded w1 w2 w3 w4 a b c d r ↦
              let still : is_there w1 ≡ true =
                ap (λ (x : Result (Unit {0}) × W). is_there x.1) (sym a)
                ∙ (download-Keeps p.source_bucket).at w
                ∙ there in
              let (e, failed) = fragment-IsFailure w1 still in absurd (cc (failed, b))
        ]
