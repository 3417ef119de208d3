-- ===== src/Api/Handlers.antt =====
-- The handlers of internal/api/handlers.go, and the routes of internal/api/server.go. A handler takes
-- the body or the path value of its request; `uuid.FromString` of satori/go.uuid is a parameter.
use golang_videoencoder_api.Prelude.{
  ℕ, Bytes, bytes, is_empty, ltb, if◌then◌else◌, [], Bool, not, ◌||◌, Option, none, some, length,
}
use golang_videoencoder_api.Result.{
  Error, Result, ok, err, Sentinel, job_not_found, video_not_found, errors_is, message,
}
use golang_videoencoder_api.GoStrings.{trim_space, has_byte}
use golang_videoencoder_api.Domain.{Job, Video}
use golang_videoencoder_api.JobService.{find}
use golang_videoencoder_api.Worker.{JobWorkerMessage}
use golang_videoencoder_api.Api.{
  Server, Payload, health, enqueued, video_found, job_found, Response, to_job_response,
  to_video_response, write_error, write_internal_error,
}
use golang_videoencoder_api.Api.Body.{Read, refused, read, read_json}

-- `maxFieldLen`
abbrev pub max_field_len : ℕ
max_field_len = 255

-- `maxPrefixLen`
abbrev pub max_prefix_len : ℕ
max_prefix_len = 1024

-- `containsNUL`
unfoldable pub contains_nul : Bytes → Bool
unfolding has_byte
contains_nul s = has_byte 0 s

abbrev respond : ℕ → Payload → Response
respond code payload = record { code = code; payload = payload }

-- The answer to an error of a repository: 404 for the error that says that the row does not exist.
unfoldable pub find_failed : Sentinel → Error → Response
find_failed missing e =
    if errors_is e missing then write_error 404 (message e) else write_internal_error e

unfoldable pub ready_response : Result (Unit {0}) → Response
ready_response (ok _) = respond 200 (health (bytes "ok"))
ready_response (err e) = write_error 503 (message e)

unfoldable pub created_response : Result Video → Response
unfolding to_video_response
created_response (ok video) = respond 201 (video_found (to_video_response video))
created_response (err e) = write_internal_error e

unfoldable pub video_response : Result Video → Response
unfolding to_video_response find_failed
video_response (ok video) = respond 200 (video_found (to_video_response video))
video_response (err e) = find_failed video_not_found e

unfoldable pub job_response : Result Job → Response
unfolding to_job_response find_failed
job_response (ok j) = respond 200 (job_found (to_job_response j))
job_response (err e) = find_failed job_not_found e

unfoldable pub enqueued_response : JobWorkerMessage → Result (Unit {0}) → Response
enqueued_response m (ok _) = respond 202 (enqueued m.video_id m.output_bucket_path (bytes "queued"))
enqueued_response m (err e) = write_error 502 (bytes "failed to enqueue job")

-- The checks of `handleCreateVideo` on the trimmed fields, in their order.
unfoldable pub video_problem : Bytes → Bytes → Option Response
unfolding contains_nul
video_problem resource_id file_path =
    if is_empty resource_id || is_empty file_path
    then some (write_error 400 (bytes "resource_id and file_path are required"))
    else if ltb max_field_len (length resource_id) || ltb max_field_len (length file_path)
    then some (write_error 400 (bytes "resource_id and file_path must be at most 255 characters"))
    else if contains_nul resource_id || contains_nul file_path
    then some (write_error 400 (bytes "fields must not contain null bytes"))
    else none

-- The checks of `handleCreateJob` on the trimmed fields, in their order.
unfoldable pub job_problem : (Bytes → Bool) → Bytes → Bytes → Option Response
unfolding contains_nul
job_problem valid_uuid video_id output_bucket_path =
    if is_empty video_id || is_empty output_bucket_path
    then some (write_error 400 (bytes "video_id and output_bucket_path are required"))
    else if not (valid_uuid video_id)
    then some (write_error 400 (bytes "video_id must be a UUID"))
    else if ltb max_prefix_len (length output_bucket_path)
    then some (write_error 400 (bytes "output_bucket_path is too long"))
    else if contains_nul output_bucket_path
    then some (write_error 400 (bytes "output_bucket_path must not contain null bytes"))
    else none

-- The `Video` that `handleCreateVideo` gives to the repository.
unfoldable pub video_of : Bytes → Bytes → Video
video_of resource_id file_path = record {
  columns = record { id = []; resource_id = resource_id; file_path = file_path; created_at = 0 };
  jobs = [];
}

module _ {W : Type 0} (server : Server W) where
  -- `handleHealthz`
  unfoldable pub handle_healthz : W → Response × W
  handle_healthz w = (respond 200 (health (bytes "ok")), w)

  -- `handleReadyz`
  unfoldable pub handle_readyz : W → Response × W
  unfolding ready_response
  handle_readyz w = elim server.ready [
    | none ↦ (ready_response (ok tt), w)
    | some ready ↦ (let (r, w') = ready w in (ready_response r, w'))
  ]

  unfoldable pub insert_video : Bytes → Bytes → Option Response → W → Response × W
  unfolding created_response video_of
  insert_video resource_id file_path (some problem) w = (problem, w)
  insert_video resource_id file_path none w =
      let (r, w') = server.videos.insert (video_of resource_id file_path) w in
      (created_response r, w')

  unfoldable pub create_video : Read → W → Response × W
  unfolding insert_video video_problem trim_space
  create_video (refused r) w = (r, w)
  create_video (read first second) w =
      let resource_id = trim_space first in
      let file_path = trim_space second in
      insert_video resource_id file_path (video_problem resource_id file_path) w

  -- `handleCreateVideo`
  unfoldable pub handle_create_video : Bytes → W → Response × W
  unfolding create_video read_json
  handle_create_video body w =
      create_video (read_json (bytes "resource_id") (bytes "file_path") body) w

  unfoldable pub publish_job : JobWorkerMessage → Result Video → W → Response × W
  unfolding enqueued_response find_failed
  publish_job m (err e) w = (find_failed video_not_found e, w)
  publish_job m (ok _) w =
      let (r, w') = server.publisher.publish_json m w in (enqueued_response m r, w')

  unfoldable pub enqueue_job : JobWorkerMessage → Option Response → W → Response × W
  unfolding publish_job
  enqueue_job m (some problem) w = (problem, w)
  enqueue_job m none w = let (r, w') = server.videos.find m.video_id w in publish_job m r w'

  module _ (valid_uuid : Bytes → Bool) where
    unfoldable pub create_job : Read → W → Response × W
    unfolding enqueue_job job_problem trim_space
    create_job (refused r) w = (r, w)
    create_job (read first second) w =
        let m : JobWorkerMessage = record {
          video_id = trim_space first;
          output_bucket_path = trim_space second;
        } in
        enqueue_job m (job_problem valid_uuid m.video_id m.output_bucket_path) w

    -- `handleCreateJob`
    unfoldable pub handle_create_job : Bytes → W → Response × W
    unfolding create_job read_json
    handle_create_job body w =
        create_job (read_json (bytes "video_id") (bytes "output_bucket_path") body) w

    -- `handleGetVideo`
    unfoldable pub handle_get_video : Bytes → W → Response × W
    unfolding video_response
    handle_get_video id w =
        if valid_uuid id
        then (let (r, w') = server.videos.find id w in (video_response r, w'))
        else (write_error 400 (bytes "invalid video id: must be a UUID"), w)

    -- `handleGetJob`
    unfoldable pub handle_get_job : Bytes → W → Response × W
    unfolding job_response find
    handle_get_job id w =
        if valid_uuid id
        then (let (r, w') = find server.jobs id w in (job_response r, w'))
        else (write_error 400 (bytes "invalid job id: must be a UUID"), w)
