-- ===== src/Api/Statuses.antt =====
-- The status code of every response of internal/api, and what an internal error says.
use golang_videoencoder_api.Prelude.{
  ℕ, Bytes, bytes, bytes_eq, ◌==◌, if◌then◌else◌, List, [], ◌∷◌, ◌++◌, Bool, true, false, ◌&&◌,
  Option, none, some, ◌≡◌, inl, inr, refl, Bool-cases,
}
use golang_videoencoder_api.Result.{
  Sentinel, Error, Result, ok, err, video_not_found, job_not_found, errors_is,
}
use golang_videoencoder_api.Exec.{Exec}
use golang_videoencoder_api.Domain.{Job, Video}
use golang_videoencoder_api.JobService.{find}
use golang_videoencoder_api.Worker.{JobWorkerMessage}
use golang_videoencoder_api.Api.{Server, Payload, failure, Response}
use golang_videoencoder_api.Api.Handlers.{
  find_failed, ready_response, video_response, job_response, enqueued_response, handle_healthz,
  handle_readyz, handle_get_video, handle_get_job,
}
use golang_videoencoder_api.Api.Routes.{
  Request, get_healthz, get_readyz, post_videos, post_jobs, get_video, get_job, serve, documented,
  undocumented,
}
use golang_videoencoder_api.Api.Blame.{BlamesRequest}
use golang_videoencoder_api.Api.JobRequests.{
  JobRequested, rejected, no_video, published, handle_create_job-JobRequested,
}
use golang_videoencoder_api.Api.VideoRequests.{
  Created, stored, lost, VideoRequested, rejected_video, inserted,
  handle_create_video-VideoRequested,
}

abbrev pub is_among : ℕ → List ℕ → Bool
is_among code [] = false
is_among code (c ∷ rest) = if code == c then true else is_among code rest

-- The fixed text of an internal error.
abbrev pub is_generic : Payload → Bool
is_generic (failure msg) = bytes_eq msg (bytes "internal server error")
is_generic _ = false

-- A code of the list, and the fixed text where the code is 500.
abbrev pub is_proper : List ℕ → Response → Bool
is_proper codes r = is_among r.code codes && (if r.code == 500 then is_generic r.payload else true)

abbrev get_codes : List ℕ
get_codes = 200 ∷ 400 ∷ 404 ∷ 500 ∷ []

abbrev job_codes : List ℕ
job_codes = 202 ∷ 400 ∷ 404 ∷ 413 ∷ 502 ∷ 500 ∷ []

abbrev video_codes : List ℕ
video_codes = 201 ∷ 400 ∷ 413 ∷ 500 ∷ []

find_failed_get :
    (missing : Sentinel) (e : Error) → is_proper get_codes (find_failed missing e) ≡ true
unfolding find_failed bytes bytes_eq
find_failed_get missing e = elim (Bool-cases (errors_is e missing)) [
  | inl is ↦ rw is refl
  | inr is ↦ rw is refl
]

find_failed_job :
    (missing : Sentinel) (e : Error) → is_proper job_codes (find_failed missing e) ≡ true
unfolding find_failed bytes bytes_eq
find_failed_job missing e = elim (Bool-cases (errors_is e missing)) [
  | inl is ↦ rw is refl
  | inr is ↦ rw is refl
]

video_response_proper : (r : Result Video) → is_proper get_codes (video_response r) ≡ true
unfolding video_response
video_response_proper (ok video) = refl
video_response_proper (err e) = find_failed_get video_not_found e

job_response_proper : (r : Result Job) → is_proper get_codes (job_response r) ≡ true
unfolding job_response
job_response_proper (ok job) = refl
job_response_proper (err e) = find_failed_get job_not_found e

is_proper-Created :
    (r : Result Video) (answer : Response) → Created r answer → is_proper video_codes answer ≡ true
unfolding bytes bytes_eq
is_proper-Created (ok video) _ (stored columns) = refl
is_proper-Created (err e) _ lost = refl

enqueued_response_proper :
    (m : JobWorkerMessage) (r : Result (Unit {0}))
    → is_proper job_codes (enqueued_response m r) ≡ true
unfolding enqueued_response
enqueued_response_proper m (ok _) = refl
enqueued_response_proper m (err e) = refl

ready_response_proper :
    (r : Result (Unit {0})) → is_proper (200 ∷ 503 ∷ []) (ready_response r) ≡ true
unfolding ready_response
ready_response_proper (ok _) = refl
ready_response_proper (err e) = refl

blames_job : (r : Response) → BlamesRequest r → is_proper job_codes r ≡ true
blames_job r (inl e) = rw e refl
blames_job r (inr e) = rw e refl

blames_video : (r : Response) → BlamesRequest r → is_proper video_codes r ≡ true
blames_video r (inl e) = rw e refl
blames_video r (inr e) = rw e refl

module _ {W : Type 0} (server : Server W) (valid_uuid : Bytes → Bool) where
  job_proper :
      (body : Bytes) (w : W) (answer : Response × W)
      → JobRequested server valid_uuid body w answer
      → is_proper job_codes answer.0 ≡ true
  job_proper body w answer (rejected {r} blames) = blames_job r blames
  job_proper body w answer (no_video {m} {e} asks found) = find_failed_job video_not_found e
  job_proper body w answer (published {m} {video} {r} asks found sent) =
      enqueued_response_proper m r

  video_proper :
      (body : Bytes) (w : W) (answer : Response × W)
      → VideoRequested server body w answer
      → is_proper video_codes answer.0 ≡ true
  video_proper body w answer (rejected_video {r} blames) = blames_video r blames
  video_proper body w _ (inserted {first} {second} {r} {answer} decoded storable made created) =
      is_proper-Created r answer created

  readyz_proper :
      (o : Option (Exec W (Unit {0}))) (w : W)
      → server.ready ≡ o
      → is_proper (200 ∷ 503 ∷ []) (handle_readyz server w).0 ≡ true
  unfolding handle_readyz
  readyz_proper none w e = rw e (ready_response_proper (ok tt))
  readyz_proper (some ready) w e = rw e (ready_response_proper (ready w).0)

  -- Every response has a status code that the annotations of its route list, or 500 where a job is
  -- requested; and where the code is 500, the body is the fixed text of an internal error, whatever
  -- the database said.
  pub serve_proper :
      (request : Request) (w : W)
      → is_proper (documented request ++ undocumented request) (serve server valid_uuid request w).0
        ≡ true
  unfolding serve handle_healthz handle_get_video handle_get_job
  serve_proper get_healthz w = refl
  serve_proper get_readyz w = readyz_proper server.ready w refl
  serve_proper (post_videos body) w =
      video_proper body w _ (handle_create_video-VideoRequested server body w)
  serve_proper (get_video id) w = elim (Bool-cases (valid_uuid id)) [
    | inl e ↦ rw e (video_response_proper (server.videos.find id w).0)
    | inr e ↦ rw e refl
  ]
  serve_proper (post_jobs body) w =
      job_proper body w _ (handle_create_job-JobRequested server valid_uuid body w)
  serve_proper (get_job id) w = elim (Bool-cases (valid_uuid id)) [
    | inl e ↦ rw e (job_response_proper (find server.jobs id w).0)
    | inr e ↦ rw e refl
  ]
