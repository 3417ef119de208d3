-- ===== src/Api/Columns.antt =====
-- The responses of internal/api/server.go, column by column.
use golang_videoencoder_api.Prelude.{List, [], ◌∷◌, ◌≡◌, refl, map}
use golang_videoencoder_api.Domain.{Job, Video}
use golang_videoencoder_api.Api.{JobResponse, VideoResponse, to_job_response, to_video_response}

-- The response has the columns of the job.
pub record ShowsJob (job : Job) (r : JobResponse) : Type 0 where
  pub id : r.id ≡ job.id
  pub video_id : r.video_id ≡ job.video_id
  pub status : r.status ≡ job.status
  pub output_bucket_path : r.output_bucket_path ≡ job.output_bucket_path
  pub error : r.error ≡ job.error
  pub created_at : r.created_at ≡ job.created_at
  pub updated_at : r.updated_at ≡ job.updated_at

abbrev pub ShowsJobs : List Job → List JobResponse → Type 0
ShowsJobs [] [] = Unit
ShowsJobs [] (_ ∷ _) = ⊥
ShowsJobs (_ ∷ _) [] = ⊥
ShowsJobs (job ∷ jobs) (r ∷ rs) = ShowsJob job r × ShowsJobs jobs rs

-- The response has the columns of the video, and those of its jobs in their order.
pub record ShowsVideo (video : Video) (r : VideoResponse) : Type 0 where
  pub id : r.id ≡ video.id
  pub resource_id : r.resource_id ≡ video.resource_id
  pub file_path : r.file_path ≡ video.file_path
  pub created_at : r.created_at ≡ video.created_at
  pub jobs : ShowsJobs video.jobs r.jobs

pub to_job_response-ShowsJob : (job : Job) → ShowsJob job (to_job_response job)
unfolding to_job_response
to_job_response-ShowsJob job = record {
  id = refl;
  video_id = refl;
  status = refl;
  output_bucket_path = refl;
  error = refl;
  created_at = refl;
  updated_at = refl;
}

map-ShowsJobs : (jobs : List Job) → ShowsJobs jobs (map to_job_response jobs)
map-ShowsJobs [] = tt
map-ShowsJobs (job ∷ jobs) = (to_job_response-ShowsJob job, map-ShowsJobs jobs)

pub to_video_response-ShowsVideo : (video : Video) → ShowsVideo video (to_video_response video)
unfolding to_video_response
to_video_response-ShowsVideo video = record {
  id = refl;
  resource_id = refl;
  file_path = refl;
  created_at = refl;
  jobs = map-ShowsJobs video.jobs;
}
