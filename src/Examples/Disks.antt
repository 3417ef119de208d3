-- ===== src/Examples/Disks.antt =====
-- The cleanup of the small world, and a disk on which the output directory is already there.
use golang_videoencoder_api.Prelude.{bytes, [], ◌∷◌, List, All, Bool, true, some, ◌≡◌, ◌↔◌, refl}
use golang_videoencoder_api.Result.{ok, err, text}
use golang_videoencoder_api.Domain.{Job}
use golang_videoencoder_api.Machine.{Os, background}
use golang_videoencoder_api.VideoService.{VideoService, artifact, finish}
use golang_videoencoder_api.VideoService.Cleanup.{Tries, made_at, finish-Tries}
use golang_videoencoder_api.Processor.{media_work}
use golang_videoencoder_api.Processor.Leftovers.{IsFailure, DirectoryLaws, media_work-IsFailure}
use golang_videoencoder_api.Examples.World.{World, os, storage, processor, start, sample_columns}

abbrev encoding : VideoService
encoding = record { video = sample_columns; storage_client = some 1 }

finish-Tries_example :
    let (r, w) = finish os encoding start in
    (outcomes : List Bool) × Tries os
      (made_at os (bytes "v1") (bytes ".mp4")
        ∷ made_at os (bytes "v1") (bytes ".frag")
        ∷ made_at os (bytes "v1") []
        ∷ [])
      start
      outcomes
      w
    × ((r ≡ ok tt) ↔ All (λ (b : Bool). b ≡ true) outcomes)
finish-Tries_example = finish-Tries os encoding start

abbrev full : Os World
full = record os { mkdir = λ _ w. (err (text (bytes "file exists")), w) }

abbrev there : World → Bool
there w = true

full-DirectoryLaws : DirectoryLaws full storage (artifact full encoding []) there
full-DirectoryLaws = record {
  mkdir = λ w _. (text (bytes "file exists"), refl);
  create = λ _. record { at = λ w. refl };
  close_file = λ _. record { at = λ w. refl };
  new_reader = λ _ _ _ _. record { at = λ w. refl };
  close_reader = λ _. record { at = λ w. refl };
  read_from = λ _ _. record { at = λ w. refl };
}

abbrev second_job : Job
second_job = record {
  id = bytes "8";
  output_bucket_path = bytes "out/";
  status = bytes "Processing";
  video = some sample_columns;
  video_id = bytes "v1";
  error = [];
  created_at = 8;
  updated_at = 9;
}

media_work-IsFailure_example :
    IsFailure
      (media_work full storage background processor second_job sample_columns encoding start).0
media_work-IsFailure_example =
    media_work-IsFailure full storage background encoding there full-DirectoryLaws processor
      second_job sample_columns start refl
