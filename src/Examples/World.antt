-- ===== src/Examples/World.antt =====
-- A small world that keeps every contract: a table of jobs, a clock, and what the broker was told.
use golang_videoencoder_api.Prelude.{
  ℕ, ◌+◌, pos, Bytes, bytes, decimal, bytes_eq, bytes_eq_sound, Bool, true, false, List, [], ◌∷◌,
  ◌++◌, Option, none, some, ◌≡◌, refl, if◌then◌else◌, arith,
}
use golang_videoencoder_api.Result.{Result, ok, err, text, sentinel, record_not_found}
use golang_videoencoder_api.Exec.{Exec}
use golang_videoencoder_api.Domain.{VideoColumns, Video, Job, Platform}
use golang_videoencoder_api.Machine.{WalkEntry, Os, Storage}
use golang_videoencoder_api.Repository.{Gorm, JobRepository, VideoRepository}
use golang_videoencoder_api.Repository.Laws.{Rows, IsSavedAs, Reads, GormLaws, JobRepositoryLaws}
use golang_videoencoder_api.JobService.{JobService}
use golang_videoencoder_api.Processor.{Processor}
use golang_videoencoder_api.Worker.{Acknowledger}
use golang_videoencoder_api.Worker.Settlement.{Verdict, acked, nacked, Settled}

pub record World : Type 0 where
  pub jobs : List Job
  pub clock : ℕ
  pub told : Settled
  -- Whether the packaging tools fail.
  pub broken : Bool

abbrev pub lookup : List Job → Rows
lookup [] id = none
lookup (job ∷ rest) id = if bytes_eq job.id id then some job else lookup rest id

abbrev pub rows : World → Rows
rows w = lookup w.jobs

abbrev pub told : World → Settled
told w = w.told

abbrev pub unchanged {ℓ} : {A : Type ℓ} → A → World → Result A × World
unchanged a w = (ok a, w)

abbrev pub found : Option Job → World → Result Job × World
found none w = (err (sentinel record_not_found), w)
found (some job) w = (ok job, w)

abbrev pub find_job : Bytes → Exec World Job
find_job id w = found (lookup w.jobs id) w

abbrev pub store_job : Job → Exec World Job
store_job job w = (ok job, record w { jobs = job ∷ w.jobs })

abbrev pub sample_columns : VideoColumns
sample_columns = record {
  id = bytes "v1";
  resource_id = bytes "campaign";
  file_path = bytes "invite.mp4";
  created_at = 1;
}

abbrev pub sample_video : Video
sample_video = record { columns = sample_columns; jobs = [] }

abbrev pub platform : Platform World
platform = record {
  new_uuid = λ w. (decimal w.clock, record w { clock = w.clock + 1 });
  now = λ w. (w.clock, record w { clock = w.clock + 1 });
  validate_job = λ _. none;
  validate_video = λ _. none;
}

abbrev pub gorm : Gorm World
gorm = record {
  create_job = store_job;
  first_job = find_job;
  save_job = store_job;
  create_video = λ v. unchanged v;
  first_video = λ _. unchanged sample_video;
}

abbrev pub jobs : JobRepository World
jobs = record { insert = store_job; find = find_job; update = store_job }

abbrev pub videos : VideoRepository World
videos = record { insert = λ v. unchanged v; find = λ _. unchanged sample_video }

abbrev pub service : JobService World
service = record { job_repository = some jobs; video_repository = some videos }

abbrev pub tool : Bool → World → Result Bytes × World
tool true w = (err (text (bytes "exit status 1")), w)
tool false w = (ok [], w)

abbrev pub entries : List WalkEntry
entries =
    record { path = bytes "/tmp/v1"; is_dir = true; error = none }
    ∷ record { path = bytes "/tmp/v1/a.mpd"; is_dir = false; error = none }
    ∷ record { path = bytes "/tmp/v1/b.m4s"; is_dir = false; error = none }
    ∷ []

abbrev pub os : Os World
os = record {
  getenv = λ _. bytes "/tmp";
  mkdir = λ _. unchanged tt;
  create = λ _. unchanged 1;
  open_file = λ _. unchanged 1;
  close_file = λ _. unchanged tt;
  remove_all = λ _. unchanged tt;
  command = λ _ _ _ w. tool w.broken w;
  walk = λ _ w. (entries, w);
  schedule = λ w. (λ n. n, w);
}

abbrev pub storage : Storage World
storage = record {
  new_client = unchanged 1;
  close_client = λ _. unchanged tt;
  new_reader = λ _ _ _ _. unchanged 1;
  close_reader = λ _. unchanged tt;
  read_from = λ _ _. unchanged 1;
  new_writer = λ _ _ _ _ w. (1, w);
  copy = λ _ _. unchanged 1;
  close_writer = λ _. unchanged tt;
}

abbrev pub processor : Processor World
processor = record {
  job_service = some service;
  source_bucket = bytes "in";
  output_bucket = bytes "out";
  upload_concurrency = pos 4;
  timeout = pos 0;
}

abbrev pub tell : ℕ → Verdict → Exec World (Unit {0})
tell tag v w = (ok tt, record w { told = w.told ++ ((tag, v) ∷ []) })

abbrev pub acker : ℕ → Acknowledger World
acker tag = record { ack = tell tag acked; nack = λ requeue. tell tag (nacked requeue) }

abbrev pub start : World
start = record { jobs = []; clock = 7; told = []; broken = false }

abbrev pub start_broken : World
start_broken = record start { broken = true }

lookup-id : (l : List Job) (id : Bytes) (job : Job) → lookup l id ≡ some job → job.id ≡ id
lookup-id [] id job h = cc
lookup-id (j ∷ rest) id job h = ground (arith, bytes_eq_sound j.id id, lookup-id rest id job)

found-Reads :
    (id : Bytes) (w : World) (o : Option Job) → lookup w.jobs id ≡ o → Reads rows id w (found o w)
found-Reads id w none e = refl
found-Reads id w (some job) e = (e, lookup-id w.jobs id job e, refl)

IsSavedAs-refl : (job : Job) → IsSavedAs job job
IsSavedAs-refl job = record {
  id = refl;
  status = refl;
  error = refl;
  output_bucket_path = refl;
  video = refl;
}

pub gorm-GormLaws : GormLaws gorm rows
gorm-GormLaws = record {
  create = λ job w. (IsSavedAs-refl job, refl);
  first = λ id w. found-Reads id w (lookup w.jobs id) refl;
  save = λ job w. (IsSavedAs-refl job, refl);
}

pub jobs-JobRepositoryLaws : JobRepositoryLaws jobs rows
jobs-JobRepositoryLaws = record {
  insert = λ job w. (IsSavedAs-refl job, refl);
  find = λ id w. found-Reads id w (lookup w.jobs id) refl;
  update = λ job w. (IsSavedAs-refl job, refl);
}
