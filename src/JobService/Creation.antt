-- ===== src/JobService/Creation.antt =====
-- What `CreatePendingJob` of internal/job/service.go does to the table of jobs.
use golang_videoencoder_api.Prelude.{Bytes, [], ◌≡◌, ap, ◌∙◌, some, arith}
use golang_videoencoder_api.Result.{Result, ok, err}
use golang_videoencoder_api.Exec.{continue, ◌>>=◌}
use golang_videoencoder_api.Domain.{VideoColumns, Job, Video, Platform, new_job}
use golang_videoencoder_api.Repository.{JobRepository, VideoRepository}
use golang_videoencoder_api.Repository.Frame.{PlatformKeeps, VideosKeep}
use golang_videoencoder_api.Repository.Laws.{Rows, put, Writes, JobRepositoryLaws}
use golang_videoencoder_api.JobService.{JobService, status_pending, create_pending_job}

-- A job that waits: the constructor arguments of `NewJob`, and no error text.
pub record IsPending (output : Bytes) (job : Job) : Type 0 where
  pub status : job.status ≡ status_pending
  pub error : job.error ≡ []
  pub output_bucket_path : job.output_bucket_path ≡ output
  pub video : (columns : VideoColumns) × (job.video ≡ some columns)

module _ {W : Type 0} (rows : W → Rows) where
  -- Success: the job is pending and its row is put into the table. Failure: no row changed.
  abbrev pub Creates : Bytes → W → Result Job × W → Type 0
  Creates output w (ok job, w') = IsPending output job × (rows w' ≡ put (rows w) job)
  Creates output w (err e, w') = rows w' ≡ rows w

  -- A job that is made and not stored.
  abbrev Makes : Bytes → W → Result Job × W → Type 0
  Makes output w (ok job, w') = IsPending output job × (rows w' ≡ rows w)
  Makes output w (err e, w') = rows w' ≡ rows w

  module _ (platform : Platform W) (still : PlatformKeeps platform rows) where
    new_job-Makes :
        (output : Bytes) (video : Video) (w : W)
        → Makes output w (new_job platform output status_pending video w)
    unfolding new_job
    new_job-Makes output video w =
        let w1 = (platform.new_uuid w).1 in
        let w2 = (platform.now w1).1 in ground (arith, still.new_uuid w, still.now w1, still.now w2)

  after_insert :
      (output : Bytes) (w v : W) (job : Job) (r : Result Job × W)
      → rows v ≡ rows w
      → IsPending output job
      → Writes rows job v r
      → Creates output w r
  after_insert output w v job (ok saved, u) kept pending (same, written) = (
    record {
      status = same.status ∙ pending.status;
      error = same.error ∙ pending.error;
      output_bucket_path = same.output_bucket_path ∙ pending.output_bucket_path;
      video = (pending.video.0, same.video ∙ pending.video.1);
    },
    written ∙ ap (λ (t : Rows). put t saved) kept,
  )
  after_insert output w v job (err e, u) kept pending written = written ∙ kept

  module _ (jobs : JobRepository W) (laws : JobRepositoryLaws jobs rows) where
    after_new :
        (output : Bytes) (w v : W) (r : Result Job × W)
        → rows v ≡ rows w
        → Makes output v r
        → Creates output w (continue r.0 jobs.insert r.1)
    after_new output w v (ok job, u) kept (pending, made) =
        after_insert output w u job _ (made ∙ kept) pending (laws.insert job u)
    after_new output w v (err e, u) kept made = made ∙ kept

module _ {W : Type 0} (platform : Platform W) (service : JobService W) (jobs : JobRepository W)
    (videos : VideoRepository W) (rows : W → Rows)
    (jobs_configured : service.job_repository ≡ some jobs)
    (videos_configured : service.video_repository ≡ some videos)
    (laws : JobRepositoryLaws jobs rows) (still : PlatformKeeps platform rows)
    (apart : VideosKeep videos rows) where
  after_find :
      (output : Bytes) (w : W) (r : Result Video × W)
      → rows r.1 ≡ rows w
      → Creates rows output w
          (continue r.0 (λ video. new_job platform output status_pending video >>= jobs.insert) r.1)
  after_find output w (ok video, v) kept =
      after_new rows jobs laws output w v _ kept (new_job-Makes rows platform still output video v)
  after_find output w (err e, v) kept = kept

  -- `CreatePendingJob`, with both repositories, the first of which keeps its contract, where the platform
  -- and the video repository leave the table of jobs alone. On success the job is pending, has the given
  -- output path, a video and no error text, and the table is as before with this job put into it. On
  -- failure no row changed.
  pub create_pending_job-Creates :
      (video_id output : Bytes) (w : W)
      → Creates rows output w (create_pending_job service platform video_id output w)
  unfolding create_pending_job
  create_pending_job-Creates video_id output w =
      rw (jobs_configured, videos_configured)
        (after_find output w (videos.find video_id w) ((apart.find video_id).at w))
