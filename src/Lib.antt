-- ===== src/Lib.antt =====
-- A model of the work queues, the dispatcher, the services that feed them, the reconcilers' state, the
-- bots' client, the log rotation and the HTTP metrics of terraform-cloudrun-glue, with the theorems
-- that make them correct.
--
-- The program's parts. A work queue (pkg/workqueue) holds keys with options: a priority, a time
-- before which the key is not processed, and a delay. It has two implementations, one in memory and
-- one over the objects of a storage bucket. The dispatcher enumerates a queue, returns orphaned keys
-- to it, starts as many keys as it has slots for, and ends each by what the callback answers; an
-- HTTP handler starts its rounds. The trampoline receives GitHub's webhooks, whose events pass the
-- ingress and reach such queues through a subscriber; a second trampoline does so for the
-- notifications of a storage bucket. The bots dispatch events to handlers; they use a client of
-- GitHub, a round tripper that waits for GitHub's rate limits and a builder for check runs. The
-- reconcilers read the links that stand for issues and pull requests, share clients, and keep their
-- state in a comment. All services record metrics of their requests, and a sidecar uploads
-- logs and then deletes them.
--
-- The files.
--   Base: tests, lists, integers, texts as lists of bytes and where one occurs in another, maps as
--     association lists, decimal numerals, results of functions that may fail, loops over pages, and a
--     sorting loop that keeps the best elements.
--   Workqueue: pkg/workqueue/interface.go. Workqueue/Errors: pkg/workqueue/error.go.
--   Inmem: pkg/workqueue/inmem/inmem.go. The record Wq is the Go struct; queue_key, enumerate, start,
--     requeue_with_options, complete and deadletter are its methods. The order of an association
--     list stands for the order in which Go goes through the map.
--   Gcs: pkg/workqueue/gcs/gcs.go, its constants and what it computes of an object's metadata;
--     Gcs/Store is the storage service, Gcs/Ops the methods call by call, Gcs/Enumerate the listing.
--   Dispatcher: pkg/workqueue/dispatcher/dispatcher.go; Dispatcher/Rounds is a round of it with its
--     goroutines one after another. Dispatcher/Handler: handler.go beside it, as a step relation of
--     any number of requests over its two mutexes.
--   Trampoline: modules/github-events/internal/trampoline/server.go.
--   RateLimit: modules/github-bots/sdk/ratelimit.go. CheckRun: modules/github-bots/sdk/check/check.go.
--   Reconciler: pkg/githubreconciler/parser.go, with the types Resource and ResourceType of
--     reconciler.go beside it. Reconciler/Comments: the text of a comment of state.go;
--     Reconciler/Comments/Calls: its calls, where find_from and fetch_from are the loops over the
--     pages and the record Issues is GitHub. Reconciler/Clients: client.go and
--     Reconcile; Reconciler/Clients/Sharing: concurrent calls of Get as steps under the two locks.
--   Rotate: pkg/rotate/blob.go. The record Env is the file system and the bucket; upload is the loop
--     of attempts for one directory.
--   HttpMetrics: pkg/httpmetrics/transport.go, preserve_traceparent.go and restoreTraceparentHeader of
--     metrics.go. A round tripper is a function of a request and a state, and what is recorded is a
--     list of observations.
--   Sdk: modules/github-bots/sdk. Sdk/Bots is bot.go with handlers.go; Sdk/Clients and Sdk/Contents
--     are github.go.
--   Events: the ingress of modules/cloudevent-broker, the subscriber of modules/cloudevents-workqueue,
--     Process of modules/workqueue/cmd/receiver and cmd/inmem, and pkg/pubsub/cloudevent.go.
--   BucketEvents: modules/bucket-events/cmd/trampoline/main.go.
--   Tests: concrete packages, a bucket in memory, and runs of the model.
--
-- Times and durations are nanoseconds as integers, and the clock is an argument of each operation.
-- Where Go multiplies in an int64 the model wraps around (backoff_delay, limit_pause).
--
-- Fuel. Queue and RequeueWithOptions of the GCS queue call themselves again when the object that
-- they merge into has gone; each such round takes one unit of fuel, and one unit is proved enough
-- when nobody else removes objects. RoundTrip takes one unit for each attempt; it is proved to end
-- with one more than the refusals it meets. The loops over the pages of comments and of pull requests
-- take one unit for each page, and as many as there are pages are proved enough. The attempts of an
-- upload are counted down from MaxUploadAttempt.
--
-- Parameters. The storage service, package time, gRPC's statuses, go-github, octosts, mime, net/url,
-- encoding/json, go-oidc, gocloud's blob, the file system, otelhttp and the cloud events client are
-- not of this repository. They are functions or records of functions, and what a theorem needs of
-- them is a record of named laws (StorageLaws, TimeLaws, StatusLaws, IssuesLaws, EnvLaws) or a
-- hypothesis.
--
-- Not modelled: logs, since nothing reads them back, and metrics but for the HTTP transport;
-- generated code; the wiring of the binaries; tracing; and these parts of the packages above: CloneRepo,
-- the logs of workflow runs and the constructors of clients in the bots' SDK, the handlers of
-- pkg/httpmetrics, Upload of pkg/rotate, the event recorder and the prober.
pub mod Base
pub mod Workqueue
pub mod Inmem
pub mod Dispatcher
pub mod Gcs
pub mod Trampoline
pub mod CheckRun
pub mod RateLimit
pub mod Reconciler
pub mod Rotate
pub mod HttpMetrics
pub mod Sdk
pub mod Events
pub mod BucketEvents
pub mod Tests
