-- ===== src/Lib.antt =====
-- golang-videoencoder-api: a service that takes encoding requests over HTTP, queues them in
-- RabbitMQ, and turns videos into DASH output.
--
-- How the parts work together. The handlers of internal/api validate a request, register a video
-- through its repository, or publish a message for a job through the queue client. A worker
-- (internal/job/worker.go) receives a message of the queue, parses it, lets the job service
-- (internal/job/service.go) create a pending job through the repositories (internal/repositories),
-- and runs the processor (internal/job/processor.go) on it. The processor marks the job,
-- downloads, fragments and encodes the video (internal/video/service.go), uploads the output with
-- a pool of goroutines (internal/upload/manager.go), and records how it ended. The worker then
-- acknowledges the message or rejects it, and the queue client (internal/queue/queue.go), which
-- reconnects by itself, moves messages to and from the broker. The manager
-- (internal/job/manager.go) runs the workers on a channel that its consumer loop fills.
-- cmd/main.go opens the database (internal/database/db.go), makes one client for the consumer and
-- one for the API, starts the workers, and closes what it opened when a signal, the consumer or
-- the server ends it.
--
-- Which file models what.
-- - Domain: domain/job.go and domain/video.go (`NewJob`, `prepare`, `Validate`, `NewVideo`).
-- - Repository: internal/repositories/job/repository.go and
--   internal/repositories/video/repository.go. Repository/Answers is about the errors of `Find`,
--   Repository/Laws says what the services rely on of a repository, as a record of laws that the
--   services take as an argument and the GORM repository fills; Repository/Frame names views of
--   the world that platform, videos or jobs leave alone.
-- - JobService: internal/job/service.go. JobService/Updates and JobService/Creation say what it
--   does to the table of jobs, JobService/Frame what it leaves alone.
-- - Machine: the operating system and Google Cloud Storage, as records of calls, for the media
--   work.
-- - VideoService: internal/video/service.go; VideoService/Cleanup is about `Finish`.
-- - GoPath: `path.Join`, `filepath.Base` and `strings.TrimPrefix` of the Go library on byte
--   strings; GoPath/Joining says what joining does to plain names.
-- - UploadPool and Upload: internal/upload/manager.go, its goroutines and the rest.
--   UploadPool/Conservation, UploadPool/Honesty and UploadPool/Frame are about the goroutines,
--   Upload/Outcome about `ProcessUpload`, Upload/Objects about `objectName`.
-- - Processor: internal/job/processor.go; its children say what a run leaves in the table
--   (Outcome), in which order it works (Stages), what a left output directory does to it
--   (Leftovers), what it leaves alone (Frame) and that its errors have a text (Errors);
--   Processor/Settings has `NewProcessorFromEnv`.
-- - Worker: internal/job/worker.go; Worker/Jobs is about one message, Worker/Settlement about the
--   loop, Worker/Contract about the format of messages that the worker shares with the API.
-- - Queue: internal/queue/queue.go; Queue/Publishing has the methods that move messages,
--   Queue/Topology has `Declare`; Queue/Attempts is about `Publish`, Queue/Ownership and
--   Queue/Lifetime about the connections that are open over any calls, Queue/Pairs about two
--   clients in one process, Queue/Links about what a client has behind `Connect`.
-- - Manager: internal/job/manager.go. Manager/Consumer has `RunQueueConsumer`, Manager/Handoff is
--   about `consumeOnce`, Manager/Backoff about the waits, Manager/Endurance about when the loop
--   returns. Manager/Channels has the goroutines of `Start`, `Enqueue` and the stop function as a
--   step relation, Manager/Setup `NewManager`; Manager/Phases and Manager/Crew are about the
--   closing of the channels, Manager/Draining about the steps that are left, Manager/Serial and
--   Manager/Ordered about the order in which messages are served (with permutations in
--   Manager/Perms), Manager/Deliveries about their verdicts.
-- - Database: internal/database/db.go; Database/Opening says what `Connect` leaves.
-- - Main: cmd/main.go. Main/Opening and Main/Stopping follow the connections to RabbitMQ,
--   Main/Clients, Main/Limits and Main/Starting say what the start leaves, Main/Failing is about
--   settings that are missing, Main/Probing about the probe of readiness, Main/Delivery follows a
--   job from the route `POST /jobs` over the publisher to a worker, and Main/Tracking from the
--   worker to the route `GET /jobs/{id}`. Main/Shutdown has the end of `main` beside the
--   goroutines of the manager as a step relation; Main/Unwinding is about its order and the closed
--   channels, Main/Finishing about the steps that are left.
-- - Api: internal/api/server.go (types, mappers) and, in Api/Body (`readJSON`) and Api/Handlers,
--   internal/api/handlers.go; Api/Routes has the routes of `Handler` and the documented status
--   codes. Api/Blame, Api/JobRequests and Api/VideoRequests are about the handlers that take a
--   body, Api/Texts about the texts in it, Api/Columns about the mappers, Api/Lookups about
--   `handleGetJob`, Api/Statuses about every response.
-- - GoStrconv, GoStrings: `strconv.Atoi`, `strconv.ParseBool`, `strings.TrimSpace` and
--   `strings.IndexByte` of the Go library; GoStrings/Trimming and GoStrings/Backwards are about
--   the front and the end of a trimmed text.
-- - GoTime: `time.ParseDuration` of the Go library; GoTime/Rounds is about its loop,
--   GoTime/Minutes about whole minutes.
-- - Json: encoding/json of the Go library for structs of two strings, reader, writer, and the
--   scanner that finds the end of a value in a stream. Json/Runes says what valid UTF-8 is;
--   Json/Escapes, Json/RuneTrip, Json/RoundTrip and Json/StructTrip are about texts that are
--   written and read back; Json/Beginnings, Json/Scanned, Json/Unquoting, Json/Decoding and
--   Json/Fields are about the texts that come out of the reader.
-- - Prelude, Result, Exec: shared names, Go's errors as a data type, and the monad of calls.
--   Exec/Keeps has the rules for parts of the world that calls leave alone, Exec/Ends those for
--   what holds behind a call that succeeds.
-- - Examples: a small world that keeps every contract, and the theorems on it.
--
-- State and calls. A call of type `Exec W A` takes a world to a result and a world. The world W is
-- any type: what is outside the repository (GORM, RabbitMQ, the disk, the storage, the clock, the
-- source of UUIDs, govalidator) is a record of such calls, and a theorem that relies on its
-- behaviour names that behaviour in a record of laws or of frames. `do` blocks are Go's chains of
-- early returns, `finally` is `defer`, `rescue (wrap text)` is `fmt.Errorf` with `%w`, and
-- `best_effort` drops an error.
--
-- What is simplified. Strings are lists of bytes. Of the log only the lines of the manager for its
-- results are kept. A context is a number of nanoseconds or none, and its expiry is an error of
-- the call that gets it. The key of a row is one text, while a UUID column of PostgreSQL also
-- finds other spellings of it. That a broker is told a verdict means that Ack or Nack was called,
-- also where the call failed. The manager always has a job service, which is the one that `main`
-- gives it. `Job.Video` is the columns of the video, without the jobs of the video. Connections,
-- clients, files, readers and writers are numbers. A dereference of a nil pointer that the source
-- cannot reach is an error. The texts of the errors of the JSON reader are not those of Go. The
-- methods of the queue client hold its mutex and are single steps. In the pool of goroutines one
-- move is the receipt of a path from the channel or one whole upload, chosen by an arbitrary
-- function of the number of the move; the channel of indexes is the list of the paths at these
-- indexes, and its capacity does not matter to which moves exist, only to when the sender waits.
-- The consumer loop is given what its selects choose, turn by turn. In the manager a step is one
-- operation on a channel or the whole work of a worker on one message, and between two steps
-- nobody else acts on the world. The stop function closes `MessageChannel` whoever may still send;
-- a send on a closed channel is a panic in Go and no step here, and Main/Unwinding is about where
-- `main` calls it. `log.Fatal` in `main` is an error that ends it without the deferred calls, and
-- in Main what happens between the start and the deferred calls, the last rounds of consumer and
-- workers with it, is any list of events, and so is what handlers do behind each of the deferred
-- calls when the server did not stop in time. `time.ParseDuration` converts a decimal fraction
-- through float64, which is a parameter.
--
-- Bounds and fuel. The pool makes two moves for each path, one that receives it and one that
-- uploads it; `run_pool_complete` is about this bound. The JSON reader and writer and `trim_space`
-- run on fuel that is the length of the text, of which each round takes at least one byte
-- (Json/Rounds is about strings, GoStrings/Rounds about `trim_space`), and the reader has Go's
-- depth limit of 10000. The loop of `time.ParseDuration` runs on the length of its text as well
-- (GoTime/Rounds). Every other loop is structural.
--
-- What is not modelled. Of internal/api the encoding of responses, the log and the documentation
-- pages; of cmd/main.go the arrival of signals, the HTTP server and the file `.env`; the other
-- lines of the log and their texts. docs/docs.go is generated.
pub mod Api
pub mod Database
pub mod Domain
pub mod Examples
pub mod Exec
pub mod GoPath
pub mod GoStrconv
pub mod GoStrings
pub mod GoTime
pub mod JobService
pub mod Json
pub mod Machine
pub mod Main
pub mod Manager
pub mod Prelude
pub mod Processor
pub mod Queue
pub mod Repository
pub mod Result
pub mod Upload
pub mod UploadPool
pub mod VideoService
pub mod Worker
