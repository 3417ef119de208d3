-- ===== src/Api/JobRequests.antt =====
-- What `handleCreateJob` of internal/api/handlers.go does.
use golang_videoencoder_api.Prelude.{
  Bytes, bytes, is_empty, ltb, ◌≤◌, Bool, true, false, ◌||◌, Option, none, some, length, ◌≡◌, inl,
  inr, refl, arith, Bool-cases,
}
use golang_videoencoder_api.Result.{Error, Result, ok, err, video_not_found}
use golang_videoencoder_api.GoStrings.{trim_space}
use golang_videoencoder_api.Domain.{Video}
use golang_videoencoder_api.Worker.{JobWorkerMessage, validate_message}
use golang_videoencoder_api.Api.{Server, Response}
use golang_videoencoder_api.Api.Body.{Read, refused, read, read_json}
use golang_videoencoder_api.Api.Handlers.{
  max_prefix_len, contains_nul, find_failed, enqueued_response, job_problem, publish_job,
  enqueue_job, create_job, handle_create_job,
}
use golang_videoencoder_api.Api.Blame.{BlamesRequest, Blames, read_json-Blames}

-- What a job request asks for, trimmed, is fit for the queue.
pub record IsFit (valid_uuid : Bytes → Bool) (m : JobWorkerMessage) : Type 0 where
  pub id_given : is_empty m.video_id ≡ false
  pub id_valid : valid_uuid m.video_id ≡ true
  pub path_given : is_empty m.output_bucket_path ≡ false
  pub path_fits : length m.output_bucket_path ≤ max_prefix_len
  pub path_clean : contains_nul m.output_bucket_path ≡ false

abbrev Judged : (Bytes → Bool) → JobWorkerMessage → Option Response → Type 0
Judged valid_uuid m none = IsFit valid_uuid m
Judged valid_uuid m (some r) = BlamesRequest r

job_problem-Judged :
    (valid_uuid : Bytes → Bool) (m : JobWorkerMessage)
    → Judged valid_uuid m (job_problem valid_uuid m.video_id m.output_bucket_path)
unfolding job_problem
job_problem-Judged valid_uuid m =
    let id = m.video_id in
    let path = m.output_bucket_path in
    elim (Bool-cases (is_empty id || is_empty path)) [
      | inl e ↦ rw e (inl refl)
      | inr given ↦ elim (Bool-cases (valid_uuid id)) [
        | inr e ↦ rw (given, e) (inl refl)
        | inl valid ↦ elim (Bool-cases (ltb max_prefix_len (length path))) [
          | inl e ↦ rw (given, valid, e) (inl refl)
          | inr short ↦ elim (Bool-cases (contains_nul path)) [
            | inl e ↦ rw (given, valid, short, e) (inl refl)
            | inr clean ↦
                rw (given, valid, short, clean)
                  (record {
                    id_given = ground arith;
                    id_valid = valid;
                    path_given = ground arith;
                    path_fits = ground arith;
                    path_clean = clean;
                  })
          ]
        ]
      ]
    ]

-- A message that is fit for the queue is accepted by the worker's own checks.
validate_message-IsFit :
    (valid_uuid : Bytes → Bool) (m : JobWorkerMessage)
    → IsFit valid_uuid m
    → validate_message (ok (m.video_id, m.output_bucket_path)) ≡ ok m
unfolding validate_message
validate_message-IsFit valid_uuid m fit = rw (fit.id_given, fit.path_given) refl

module _ {W : Type 0} (server : Server W) (valid_uuid : Bytes → Bool) where
  -- The body asks for this message, which is fit for the queue and for the worker.
  pub record Asks (body : Bytes) (m : JobWorkerMessage) : Type 0 where
    pub first : Bytes
    pub second : Bytes
    pub decoded : read_json (bytes "video_id") (bytes "output_bucket_path") body ≡ read first second
    pub id_trimmed : m.video_id ≡ trim_space first
    pub path_trimmed : m.output_bucket_path ≡ trim_space second
    pub fit : IsFit valid_uuid m
    pub accepted : validate_message (ok (m.video_id, m.output_bucket_path)) ≡ ok m

  -- How a request for a job ends.
  pub data JobRequested (body : Bytes) (w : W) : Response × W → Type 0 where
    -- the request is at fault; nothing was called
    rejected : {r : Response} → BlamesRequest r → JobRequested body w (r, w)
    -- the video was not found; nothing was published
    no_video :
        {m : JobWorkerMessage} {e : Error} {v : W}
        → Asks body m
        → server.videos.find m.video_id w ≡ (err e, v)
        → JobRequested body w (find_failed video_not_found e, v)
    -- the message was published, and the answer is about that
    published :
        {m : JobWorkerMessage} {video : Video} {r : Result (Unit {0})} {v v' : W}
        → Asks body m
        → server.videos.find m.video_id w ≡ (ok video, v)
        → server.publisher.publish_json m v ≡ (r, v')
        → JobRequested body w (enqueued_response m r, v')

  publish_job-JobRequested :
      (body : Bytes) (w v : W) (m : JobWorkerMessage) (r : Result Video)
      → Asks body m
      → server.videos.find m.video_id w ≡ (r, v)
      → JobRequested body w (publish_job server m r v)
  unfolding publish_job
  publish_job-JobRequested body w v m (err e) asks found = no_video asks found
  publish_job-JobRequested body w v m (ok video) asks found = published asks found refl

  enqueue_job-JobRequested :
      (body : Bytes) (w : W) (m : JobWorkerMessage) (o : Option Response)
      → Judged valid_uuid m o
      → (IsFit valid_uuid m → Asks body m)
      → JobRequested body w (enqueue_job server m o w)
  unfolding enqueue_job
  enqueue_job-JobRequested body w m (some r) blames asks = rejected blames
  enqueue_job-JobRequested body w m none fit asks =
      publish_job-JobRequested body w _ m (server.videos.find m.video_id w).0 (asks fit) refl

  create_job-JobRequested :
      (body : Bytes) (w : W) (r : Read)
      → read_json (bytes "video_id") (bytes "output_bucket_path") body ≡ r
      → Blames r
      → JobRequested body w (create_job server valid_uuid r w)
  unfolding create_job
  create_job-JobRequested body w (refused r) decoded blames = rejected blames
  create_job-JobRequested body w (read first second) decoded blames =
      let m : JobWorkerMessage = record {
        video_id = trim_space first;
        output_bucket_path = trim_space second;
      } in
      enqueue_job-JobRequested body w m _ (job_problem-Judged valid_uuid m) (λ fit. record {
        first = first;
        second = second;
        decoded = decoded;
        id_trimmed = refl;
        path_trimmed = refl;
        fit = fit;
        accepted = validate_message-IsFit valid_uuid m fit;
      })

  -- `handleCreateJob` either answers 400 or 413 and calls nothing; or the body asks, after trimming,
  -- for a valid UUID and a path that is given, has no NUL byte and at most 1024 bytes, which the
  -- worker's own checks accept; then it looks the video up, answers the failure of that without
  -- publishing anything, and else publishes exactly this message and answers by the result.
  pub handle_create_job-JobRequested :
      (body : Bytes) (w : W) → JobRequested body w (handle_create_job server valid_uuid body w)
  unfolding handle_create_job
  handle_create_job-JobRequested body w =
      create_job-JobRequested body w _ refl
        (read_json-Blames (bytes "video_id") (bytes "output_bucket_path") body)
