-- ===== src/Api/Routes.antt =====
-- The routes of internal/api/server.go, and the status codes that the annotations of the handlers in
-- internal/api/handlers.go list.
use golang_videoencoder_api.Prelude.{ℕ, Bytes, List, [], ◌∷◌, Bool}
use golang_videoencoder_api.Api.{Server, Response}
use golang_videoencoder_api.Api.Handlers.{
  handle_healthz, handle_readyz, handle_create_video, handle_get_video, handle_create_job,
  handle_get_job,
}

-- A request that one of the patterns of `Handler` matches, with the body or the path value `id`.
pub data Request : Type 0 where
  get_healthz get_readyz : Request
  post_videos post_jobs : (body : Bytes) → Request
  get_video get_job : (id : Bytes) → Request

module _ {W : Type 0} (server : Server W) (valid_uuid : Bytes → Bool) where
  -- `Handler`, without the documentation pages; the log has no effect on a response.
  unfoldable pub serve : Request → W → Response × W
  serve get_healthz w = handle_healthz server w
  serve get_readyz w = handle_readyz server w
  serve (post_videos body) w = handle_create_video server body w
  serve (get_video id) w = handle_get_video server valid_uuid id w
  serve (post_jobs body) w = handle_create_job server valid_uuid body w
  serve (get_job id) w = handle_get_job server valid_uuid id w

-- The codes of the annotations `@Success` and `@Failure`.
abbrev pub documented : Request → List ℕ
documented get_healthz = 200 ∷ []
documented get_readyz = 200 ∷ 503 ∷ []
documented (post_videos body) = 201 ∷ 400 ∷ 413 ∷ 500 ∷ []
documented (get_video id) = 200 ∷ 400 ∷ 404 ∷ 500 ∷ []
documented (post_jobs body) = 202 ∷ 400 ∷ 404 ∷ 413 ∷ 502 ∷ []
documented (get_job id) = 200 ∷ 400 ∷ 404 ∷ 500 ∷ []

-- The codes that the annotations of the route leave out.
abbrev pub undocumented : Request → List ℕ
undocumented (post_jobs body) = 500 ∷ []
undocumented _ = []
