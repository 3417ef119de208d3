-- ===== src/Upload/Objects.antt =====
-- The names of the uploaded objects: `objectName` of internal/upload/manager.go.
use golang_videoencoder_api.Prelude.{
  Bytes, bytes, is_empty, List, [], ◌∷◌, ◌++◌, All, false, ◌≡◌, sym, ap, ◌∙◌,
}
use golang_videoencoder_api.GoPath.{join}
use golang_videoencoder_api.GoPath.Joining.{IsName, root_of, trim_prefix-append, path_join-join}
use golang_videoencoder_api.Upload.{VideoUpload, object_name}

-- The local path of a file below the output directory, by the names on the way to it.
abbrev pub local_path : VideoUpload → List Bytes → Bytes
local_path vu names = (vu.video_path ++ bytes "/") ++ join names

module _ (vu : VideoUpload) (given : is_empty vu.output_prefix ≡ false) where
  -- A file below the output directory, at a path that is made of names of files, gets its path
  -- relative to that directory as its object name, behind a root that depends on the output prefix
  -- alone; the prefix must be given.
  pub object_name-join :
      (r : Bytes) (rs : List Bytes)
      → All IsName (r ∷ rs)
      → object_name vu (local_path vu (r ∷ rs)) ≡ root_of vu.output_prefix ++ join (r ∷ rs)
  unfolding object_name
  object_name-join r rs names =
      rw (given, trim_prefix-append (vu.video_path ++ bytes "/") (join (r ∷ rs)))
        (path_join-join vu.output_prefix r rs given names)

  cancel_front : (front a b : Bytes) → front ++ a ≡ front ++ b → a ≡ b
  cancel_front [] a b e = e
  cancel_front (c ∷ front) a b e = cancel_front front a b cc

  -- Two files below the output directory never share an object: if their object names are equal, so
  -- are their paths. The output prefix must be given, and the paths are made of names of files.
  pub object_name_injective :
      (r s : Bytes) (rs ss : List Bytes)
      → All IsName (r ∷ rs)
      → All IsName (s ∷ ss)
      → object_name vu (local_path vu (r ∷ rs)) ≡ object_name vu (local_path vu (s ∷ ss))
      → local_path vu (r ∷ rs) ≡ local_path vu (s ∷ ss)
  object_name_injective r s rs ss left right same =
      ap (λ (l : Bytes). (vu.video_path ++ bytes "/") ++ l)
        (cancel_front (root_of vu.output_prefix) (join (r ∷ rs)) (join (s ∷ ss))
          (sym (object_name-join r rs left) ∙ same ∙ object_name-join s ss right))
