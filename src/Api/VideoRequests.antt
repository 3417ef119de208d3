-- ===== src/Api/VideoRequests.antt =====
-- What `handleCreateVideo` of internal/api/handlers.go does.
use golang_videoencoder_api.Prelude.{
  Bytes, bytes, is_empty, [], ltb, ◌≤◌, false, ◌||◌, Option, none, some, length, ◌≡◌, inl, inr,
  refl, arith, Bool-cases,
}
use golang_videoencoder_api.Result.{Error, Result, ok, err}
use golang_videoencoder_api.GoStrings.{trim_space}
use golang_videoencoder_api.Domain.{Video}
use golang_videoencoder_api.Api.{Server, VideoResponse, Response, video_found, failure}
use golang_videoencoder_api.Api.Columns.{ShowsVideo, to_video_response-ShowsVideo}
use golang_videoencoder_api.Api.Body.{Read, refused, read, read_json}
use golang_videoencoder_api.Api.Handlers.{
  max_field_len, contains_nul, created_response, video_problem, video_of, insert_video,
  create_video, handle_create_video,
}
use golang_videoencoder_api.Api.Blame.{BlamesRequest, Blames, read_json-Blames}

-- What is answered for this result of the insertion: the columns of the stored video with 201, or 500
-- with a fixed text.
pub data Created : Result Video → Response → Type 0 where
  stored :
      {video : Video} {r : VideoResponse}
      → ShowsVideo video r
      → Created (ok video) (record { code = 201; payload = video_found r })
  lost :
      {e : Error}
      → Created (err e) (record { code = 500; payload = failure (bytes "internal server error") })

created_response-Created : (r : Result Video) → Created r (created_response r)
unfolding created_response
created_response-Created (ok video) = stored (to_video_response-ShowsVideo video)
created_response-Created (err e) = lost

-- A video with these two columns, which the database has not completed, and no jobs.
abbrev pub unsaved : Bytes → Bytes → Video
unsaved first second = record {
  columns = record { id = []; resource_id = first; file_path = second; created_at = 0 };
  jobs = [];
}

-- Two fields that the table of videos can hold.
pub record IsStorable (resource_id file_path : Bytes) : Type 0 where
  pub resource_given : is_empty resource_id ≡ false
  pub file_given : is_empty file_path ≡ false
  pub resource_fits : length resource_id ≤ max_field_len
  pub file_fits : length file_path ≤ max_field_len
  pub resource_clean : contains_nul resource_id ≡ false
  pub file_clean : contains_nul file_path ≡ false

abbrev Weighed : Bytes → Bytes → Option Response → Type 0
Weighed resource_id file_path none = IsStorable resource_id file_path
Weighed resource_id file_path (some r) = BlamesRequest r

video_problem-Weighed :
    (resource_id file_path : Bytes)
    → Weighed resource_id file_path (video_problem resource_id file_path)
unfolding video_problem
video_problem-Weighed a b = elim (Bool-cases (is_empty a || is_empty b)) [
  | inl e ↦ rw e (inl refl)
  | inr given ↦ elim (Bool-cases (ltb max_field_len (length a) || ltb max_field_len (length b))) [
    | inl e ↦ rw (given, e) (inl refl)
    | inr short ↦ elim (Bool-cases (contains_nul a || contains_nul b)) [
      | inl e ↦ rw (given, short, e) (inl refl)
      | inr clean ↦
          rw (given, short, clean)
            (record {
              resource_given = ground arith;
              file_given = ground arith;
              resource_fits = ground arith;
              file_fits = ground arith;
              resource_clean = ground arith;
              file_clean = ground arith;
            })
    ]
  ]
]

module _ {W : Type 0} (server : Server W) where
  -- How a request for a video ends: it is at fault and nothing was called, or the trimmed fields can
  -- be stored, one insertion was made, and the answer is about that.
  pub data VideoRequested (body : Bytes) (w : W) : Response × W → Type 0 where
    rejected_video : {r : Response} → BlamesRequest r → VideoRequested body w (r, w)
    inserted :
        {first second : Bytes} {r : Result Video} {answer : Response} {v : W}
        → read_json (bytes "resource_id") (bytes "file_path") body ≡ read first second
        → IsStorable (trim_space first) (trim_space second)
        → server.videos.insert (unsaved (trim_space first) (trim_space second)) w ≡ (r, v)
        → Created r answer
        → VideoRequested body w (answer, v)

  insert_video-VideoRequested :
      (body first second : Bytes) (w : W) (o : Option Response)
      → read_json (bytes "resource_id") (bytes "file_path") body ≡ read first second
      → Weighed (trim_space first) (trim_space second) o
      → VideoRequested body w (insert_video server (trim_space first) (trim_space second) o w)
  unfolding insert_video video_of
  insert_video-VideoRequested body first second w (some r) decoded blames = rejected_video blames
  insert_video-VideoRequested body first second w none decoded storable =
      inserted decoded storable refl (created_response-Created _)

  create_video-VideoRequested :
      (body : Bytes) (w : W) (r : Read)
      → read_json (bytes "resource_id") (bytes "file_path") body ≡ r
      → Blames r
      → VideoRequested body w (create_video server r w)
  unfolding create_video
  create_video-VideoRequested body w (refused r) decoded blames = rejected_video blames
  create_video-VideoRequested body w (read first second) decoded blames =
      insert_video-VideoRequested body first second w _ decoded
        (video_problem-Weighed (trim_space first) (trim_space second))

  -- `handleCreateVideo` either answers 400 or 413 and calls nothing; or both trimmed fields are given,
  -- have at most 255 bytes and no NUL byte, and exactly one video with the first as its resource
  -- id, the second as its file path, no id and no jobs is inserted. The answer is then 201 with the
  -- columns of the video that the repository returned, or 500 with a fixed text where it failed.
  pub handle_create_video-VideoRequested :
      (body : Bytes) (w : W) → VideoRequested body w (handle_create_video server body w)
  unfolding handle_create_video
  handle_create_video-VideoRequested body w =
      create_video-VideoRequested body w _ refl
        (read_json-Blames (bytes "resource_id") (bytes "file_path") body)
