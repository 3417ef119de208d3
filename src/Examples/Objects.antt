-- ===== src/Examples/Objects.antt =====
-- Object names.
use golang_videoencoder_api.Prelude.{
  Bytes, bytes, bytes_eq, is_empty, false, [], ◌∷◌, ◌++◌, All, ◌≡◌, refl,
}
use golang_videoencoder_api.GoPath.{in_front, join, clean, path_join, trim_prefix}
use golang_videoencoder_api.GoPath.Joining.{IsName, root_of}
use golang_videoencoder_api.Upload.{VideoUpload, object_name}
use golang_videoencoder_api.Upload.Objects.{local_path, object_name-join, object_name_injective}

abbrev upload_from : Bytes → VideoUpload
upload_from path = record {
  paths = [];
  video_path = path;
  output_bucket = bytes "out";
  output_prefix = bytes "/outputs//v1/";
  errors = [];
}

abbrev outputs : VideoUpload
outputs = upload_from (bytes "/tmp/v1")

track_IsName : IsName (bytes "v")
unfolding bytes bytes_eq
track_IsName = record { given = refl; not_dot = refl; not_dot_dot = refl; one = (refl, tt) }

segment_IsName : IsName (bytes "a.m")
unfolding bytes bytes_eq
segment_IsName = record {
  given = refl;
  not_dot = refl;
  not_dot_dot = refl;
  one = (refl, (refl, (refl, tt)));
}

names_IsName : All IsName (bytes "v" ∷ bytes "a.m" ∷ [])
names_IsName = (track_IsName, (segment_IsName, tt))

object_of_segment :
    object_name outputs (local_path outputs (bytes "v" ∷ bytes "a.m" ∷ []))
    ≡ bytes "/outputs/v1/v/a.m"
unfolding object_name join bytes clean path_join trim_prefix in_front bytes_eq
object_of_segment = refl

-- `filepath.Walk` gives clean paths, so a doubled slash in `VideoPath` is in none of them.
object_below_unclean_path :
    object_name (upload_from (bytes "/tmp//v1")) (bytes "/tmp/v1/v/a.m")
    ≡ bytes "/outputs/v1/tmp/v1/v/a.m"
unfolding object_name bytes clean path_join trim_prefix in_front bytes_eq
object_below_unclean_path = refl

output_prefix_given : is_empty outputs.output_prefix ≡ false
unfolding bytes
output_prefix_given = refl

object_name-join_example :
    object_name outputs (local_path outputs (bytes "v" ∷ bytes "a.m" ∷ []))
    ≡ root_of (bytes "/outputs//v1/") ++ join (bytes "v" ∷ bytes "a.m" ∷ [])
object_name-join_example =
    object_name-join outputs output_prefix_given (bytes "v") (bytes "a.m" ∷ []) names_IsName

object_name_injective_example :
    local_path outputs (bytes "v" ∷ bytes "a.m" ∷ [])
    ≡ local_path outputs (bytes "v" ∷ bytes "a.m" ∷ [])
object_name_injective_example =
    object_name_injective outputs output_prefix_given (bytes "v") (bytes "v") (bytes "a.m" ∷ [])
      (bytes "a.m" ∷ []) names_IsName names_IsName refl
