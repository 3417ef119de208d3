-- ===== src/Examples/Uploads.antt =====
-- The upload of the files of the small world.
use golang_videoencoder_api.Prelude.{ℕ, ◌*◌, pos, Bytes, bytes, List, [], ◌∷◌}
use golang_videoencoder_api.Result.{Result}
use golang_videoencoder_api.Machine.{background}
use golang_videoencoder_api.Upload.{VideoUpload, upload_object, process_upload}
use golang_videoencoder_api.Upload.Outcome.{UploadEnd, process_upload-End}
use golang_videoencoder_api.Examples.World.{World, os, storage, start}

abbrev outputs : VideoUpload
outputs = record {
  paths = [];
  video_path = bytes "/tmp/v1";
  output_bucket = bytes "out";
  output_prefix = bytes "outputs/v1";
  errors = bytes "an old error" ∷ [];
}

abbrev files : List Bytes
files = bytes "/tmp/v1/a.mpd" ∷ bytes "/tmp/v1/b.m4s" ∷ bytes "/tmp/v1/c.m4s" ∷ []

abbrev one_by_one : Bytes → World → Result (Unit {0}) × World
one_by_one path = upload_object os storage background outputs path 1

abbrev last_first : ℕ → ℕ
last_first n = n * 2

process_upload-End_example :
    let ((r, after), _) = process_upload os storage background (pos 4) outputs start in
    UploadEnd os storage background outputs after r (os.walk (bytes "/tmp/v1") start).0
process_upload-End_example = process_upload-End os storage background (pos 4) outputs start
