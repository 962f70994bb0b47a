-- ===== src/Lib.antt =====
-- The LMServ orchestrator in Go: a gateway takes inference requests over HTTP, a dispatcher queues
-- them by latency class, and an orchestrator gives each request a lease on a Docker container,
-- which it launches, resumes, pauses and removes within budgets of video memory.
--
-- Types          internal/orchestrator/types.go
-- Orchestrator   internal/orchestrator/orchestrator.go. State.antt has the slots, the leases and
--                the fields that the methods use; Select.antt `New` and `selectProfile`; Plan.antt
--                `planAcquire` and `canLaunchLocked`; Slots.antt `launchReservedSlot`,
--                `resumeReservedSlot`, `release`, `destroySlot` and `isFatalSlotError`;
--                Maintenance.antt the loop of `runMaintenance`; SlotId.antt `nextSlotID`;
--                Snapshot.antt `Snapshot`; Ready.antt `waitUntilReady`; Forward.antt the request of
--                `Forward`; Reserved.antt `launchReservedSlot` and `resumeReservedSlot` as a whole,
--                with Docker and the wait; Cycle.antt `runMaintenance` and `maintenanceLoop` as a
--                whole. Load.antt measures the slots. A method that gives up the lock while Docker
--                works is several functions, one for each stretch of code under the lock. In
--                Ready.antt the fuel counts rounds: each takes at least the interval between two,
--                so one round more than there are nanoseconds to the deadline is enough; the
--                client's time-out of three seconds and the deadline cut a request off.
-- Config         internal/orchestrator/config.go. The environment and `time.ParseDuration` are the
--                record `Surroundings`. Space.antt, Values.antt, Lists.antt and Fields.antt have
--                the readers of variables with what they use of Go's `strings` and `strconv`, on
--                bytes; Default.antt `DefaultConfig`.
-- System         the tasks that call these methods, in any interleaving. `advance` is a task's next
--                stretch of code under the lock, with the answers of Docker, of the health check
--                and of the clock; `step` lets a request arrive, a task advance, or the order of
--                the map of slots change, since Go fixes no order for `range`. Claims.antt says
--                which task is in charge of which slot, Leases.antt what a task knows of its slot,
--                Names.antt which profile's name it goes by and Profiles.antt which profile; Budget.antt and below it say what the
--                slots weigh; Progress.antt follows one request to its lease; Detail.antt ties the
--                whole methods of Reserved.antt to the steps, Maintained.antt says what a cycle of
--                maintenance does, and its child Loop.antt one cycle after another.
-- Gateway        the dispatcher over the orchestrator: requests that wait in the queues, workers
--                that are idle or at work on a job, handlers that answer under a lease, and the
--                tasks that are nobody's. `move` lets the workers be started (`Start`), a request
--                arrive, a worker take a job or return, a process take the next step of its task,
--                or a worker hand its result over; the jobs are numbers, and `meta` gives the
--                metadata that `InspectRequest` makes of their bodies, which can be any. A channel
--                without a buffer takes a job only for a worker that waits at it. View.antt ties
--                the moves to the steps of System, Counts.antt and Staff.antt count the workers,
--                Lanes.antt follows classes and profiles, Service.antt one job to its lease,
--                Once.antt the places of a job. `Forward` and the cancellation of one job are in
--                Dispatcher, whose steps are within a process here: a worker whose job fails ends
--                its task.
-- Docker         internal/orchestrator/docker.go. Env.antt has `mergeEnv` and the environment of a
--                container that is launched; Client.antt `removeContainer` and the pausing, over
--                the Docker client as a record of the seven calls that the code makes; Launch.antt
--                `launchEphemeralContainer`, with the containers that exist as its state;
--                Connect.antt `newDockerManager` and `close`, with the connection that `New` makes.
-- Dispatcher     internal/orchestrator/dispatcher.go. Queue.antt has `NewDispatcher`, the queueing
--                in `Submit`, a worker's reception and `Snapshot`; Submit.antt `Submit` from the
--                body to the queue, with what the recorder gets; Job.antt `processJob` and the two
--                `select` statements through which a result goes from the worker to `Submit`, as
--                steps in any order. Handover.antt, Abandoned.antt and Progress.antt follow the
--                lease and the result. Headers.antt has `cloneHeaders`. A queue of capacity 0 is a
--                channel without a buffer in Go, which takes a job only while a worker waits at
--                it: whether one does is an argument (`parked`) of `submit`.
-- Classifier     internal/orchestrator/classifier.go. Payload.antt has `InspectRequest` and its two
--                walks over the decoded JSON, Image.antt `looksLikeEncodedImage`. `json.Unmarshal`
--                is the parameter `unmarshal`, and the record `GoLib` holds `strings.ToLower`,
--                `strings.TrimSpace` and the base64 decoder; no law of them is used.
-- Metrics        internal/metrics. Recorder.antt has the recorder and its snapshot, Status.antt the
--                `statusRecorder`, Middleware.antt `Middleware` and the values that it logs,
--                Context.antt the recorder's place in the context. The handler behind the
--                middleware is what it does with the writer and the recorder.
-- Api            internal/api/server.go. Inference.antt has `handleInference`, with the answer of
--                `Submit` as an argument, Stream.antt `streamResponse`, Headers.antt the header
--                filters, Health.antt `handleHealth`, Routes.antt the limit of the body and
--                `NewServer`, from the request to the line of the log. `http.ServeMux` is a
--                parameter, which takes each of the two patterns for just its own path. The rounds
--                of the body's reader, with the error of each write to the client, are a list; a
--                list that ends before a round stops the loop is a handler that still streams.
--                `http.CanonicalHeaderKey` and the JSON encoder are parameters.
-- Store          a Go map with string keys: the list of its entries in the order of the next
--                `range`.
-- Prelude        bytes, lists over the native numbers, integers with 64-bit sums.
--
-- Strings are lists of bytes; `QueueClass` and `Backend`, string types with two constants, are data
-- types. Times are natural numbers of nanoseconds, `time.Duration` and `int` are integers, and the
-- sums of `canLaunchLocked` and `Snapshot` wrap at 64 bits. The counter of slot IDs is a uint64
-- that wraps: runs of fewer than 2^64 steps do not get there. A Docker error is an event of the
-- step that waits for it. The loop of `Acquire` has no bound: each round is a step.
--
-- Not modelled: the loggers, the timeouts of `http.Server` and the text of errors that the code
-- wraps, none of which decides anything; the bytes of JSON; the goroutines' own scheduling, which
-- is the order of the steps. server/ is the earlier program in Rust.
pub mod Prelude
pub mod Types
pub mod Store
pub mod Orchestrator
pub mod System
pub mod Docker
pub mod Classifier
pub mod Metrics
pub mod Dispatcher
pub mod Gateway
pub mod Api
pub mod Config
