-- ===== src/Examples/Lookups.antt =====
-- A job of the small world, asked for through the API.
use golang_videoencoder_api.Prelude.{Bytes, bytes, [], Bool, true, Option, none, some, refl}
use golang_videoencoder_api.Result.{ok, job_not_found, video_not_found, errors_is}
use golang_videoencoder_api.Domain.{Job, Video}
use golang_videoencoder_api.Repository.{job_repository_db, video_repository_db}
use golang_videoencoder_api.Repository.Answers.{Firsts, Answers, FirstLaws, find-Answers}
use golang_videoencoder_api.JobService.{JobService, new_job_service}
use golang_videoencoder_api.Worker.{JobWorkerResult, process_payload}
use golang_videoencoder_api.Api.{Server, new_server}
use golang_videoencoder_api.Examples.World.{
  World, lookup, found, rows, gorm, platform, videos, os, storage, start, sample_video,
}

abbrev always : World → Bool
always w = true

abbrev the_video : World → Bytes → Option Video
the_video w id = some sample_video

found-Firsts : (w : World) (o : Option Job) → Firsts true o job_not_found (found o w).0
unfolding errors_is
found-Firsts w none = refl
found-Firsts w (some job) = refl

gorm-FirstLaws : FirstLaws always rows the_video gorm
gorm-FirstLaws = record {
  first_job = λ id w. found-Firsts w (lookup w.jobs id);
  first_video = λ id w. refl;
}

find-Answers_example :
    Answers true
      (rows start (bytes "7"))
      job_not_found
      (bytes "find job: ")
      ((job_repository_db gorm).find (bytes "7") start).0
    × Answers true
        (some sample_video)
        video_not_found
        (bytes "find video: ")
        ((video_repository_db platform gorm).find (bytes "7") start).0
find-Answers_example =
    find-Answers always rows the_video platform gorm gorm-FirstLaws (bytes "7") start

abbrev service : JobService World
service = new_job_service (job_repository_db gorm) videos

abbrev server : Server World
server = new_server videos service (record { publish_json = λ m w. (ok tt, w) }) none

abbrev any_id : Bytes → Bool
any_id id = true

abbrev request : Bytes
request = bytes "{\"video_id\":\"v1\",\"output_bucket_path\":\"out/\"}"

abbrev worked : JobWorkerResult × World
worked = process_payload platform os storage service none request start

abbrev job_of : Option Job → Job
job_of none = record {
  id = [];
  output_bucket_path = [];
  status = [];
  video = none;
  video_id = [];
  error = [];
  created_at = 0;
  updated_at = 0;
}
job_of (some job) = job

abbrev made : Job
made = job_of worked.0.job
