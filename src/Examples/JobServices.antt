-- ===== src/Examples/JobServices.antt =====
-- Repositories, the job service, the processor and the worker in the small world.
use golang_videoencoder_api.Prelude.{
  Bytes, bytes, List, [], ◌∷◌, Option, none, some, ◌≡◌, refl, sym, ap,
}
use golang_videoencoder_api.Domain.{Job}
use golang_videoencoder_api.Machine.{background}
use golang_videoencoder_api.JobService.{
  JobService, status_completed, update_status, create_pending_job,
}
use golang_videoencoder_api.JobService.Updates.{Updates, update_status-Updates}
use golang_videoencoder_api.JobService.Creation.{Creates, create_pending_job-Creates}
use golang_videoencoder_api.Processor.{Processor, run, media_work}
use golang_videoencoder_api.Processor.Outcome.{Ran, run-Ran}
use golang_videoencoder_api.Processor.Errors.{Explains, run-Explains}
use golang_videoencoder_api.Processor.Stages.{InStages, media_work-InStages}
use golang_videoencoder_api.VideoService.{VideoService, download, fragment, encode, finish}
use golang_videoencoder_api.Processor.{upload_outputs}
use golang_videoencoder_api.Worker.Settlement.{Delivery}
use golang_videoencoder_api.Examples.World.{
  World, rows, platform, jobs, jobs-JobRepositoryLaws, videos, service, os, storage, processor,
  start, start_broken, sample_columns,
}
use golang_videoencoder_api.Examples.Frames.{
  os-OsKeeps, storage-StorageKeeps, videos-VideosKeep, platform-rows,
}

abbrev waiting : Job
waiting = record {
  id = bytes "7";
  output_bucket_path = bytes "out/";
  status = bytes "Pending";
  video = some sample_columns;
  video_id = bytes "v1";
  error = [];
  created_at = 8;
  updated_at = 9;
}

abbrev with_job : World
with_job = record start { jobs = waiting ∷ [] }

abbrev with_job_broken : World
with_job_broken = record start_broken { jobs = waiting ∷ [] }

abbrev request : Bytes
request = bytes "{\"video_id\":\"v1\",\"output_bucket_path\":\"out/\"}"

abbrev deliveries : List Delivery
deliveries = (1, request) ∷ (2, bytes "not-json") ∷ []

abbrev pub service_of : Option (Processor World) → Option (JobService World)
service_of none = none
service_of (some p) = p.job_service

pub served : (p : Processor World) → some processor ≡ some p → p.job_service ≡ some service
served p e = sym (ap service_of e)

update_status-Updates_example :
    Updates rows
      (bytes "7")
      status_completed
      []
      with_job
      (update_status service (bytes "7") status_completed [] with_job)
update_status-Updates_example =
    update_status-Updates service jobs rows refl jobs-JobRepositoryLaws (bytes "7") status_completed
      [] with_job

create_pending_job-Creates_example :
    Creates rows
      (bytes "out/")
      start
      (create_pending_job service platform (bytes "v1") (bytes "out/") start)
create_pending_job-Creates_example =
    create_pending_job-Creates platform service jobs videos rows refl refl jobs-JobRepositoryLaws
      platform-rows (videos-VideosKeep rows) (bytes "v1") (bytes "out/") start

run-Ran_example :
    Ran rows (bytes "7") with_job_broken (run os storage processor waiting with_job_broken)
run-Ran_example =
    run-Ran os storage service jobs rows refl jobs-JobRepositoryLaws (os-OsKeeps rows)
      (storage-StorageKeeps rows) processor waiting sample_columns with_job_broken refl refl

run-Explains_example : Explains (run os storage processor waiting)
run-Explains_example = run-Explains os storage processor waiting

abbrev encoding : VideoService
encoding = record { video = sample_columns; storage_client = some 1 }

media_work-InStages_example :
    InStages
      (download os storage background encoding (bytes "in"))
      (fragment os background encoding)
      (encode os background encoding)
      (upload_outputs os storage background processor waiting sample_columns)
      (finish os encoding)
      with_job
      (media_work os storage background processor waiting sample_columns encoding with_job)
media_work-InStages_example =
    media_work-InStages os storage background processor waiting sample_columns encoding with_job
