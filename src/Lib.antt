-- ===== src/Lib.antt =====
-- jobplane: a verification development for the controller, the store, the worker and the command
-- line client of jobplane.
--
-- A client asks the controller over HTTP to run a job; the controller keeps jobs, executions and
-- the queue in Postgres; workers poll the controller for executions, run them, and report; the
-- controller calls tenants back by webhooks. Each part is modelled here from its Go source.
--
-- Store (internal/store). Store/Models has the rows of internal/store/models.go, Store/Db the
-- tables that the migrations of internal/store/postgres/migrations make, with their unique and
-- foreign keys. Store/Exec says how a method talks to the database: a method is a run of
-- statements in a World, which is the tables and a list of faults, one Boolean for each statement
-- to come that says whether the environment loses it. A transaction that does not commit leaves
-- the tables as they were. Store/Queue, Store/Executions, Store/Jobs, Store/Tenants and Store/Logs
-- translate queue.go, execution.go, job.go, tenants.go and log.go of internal/store/postgres, one
-- function for each method and one for each SQL statement. NOW() is an argument of each call, and
-- so are the queue rows that other open transactions hold, which SKIP LOCKED passes over; two
-- transactions are otherwise taken one after the other. Where ORDER BY leaves rows of logs equal,
-- their order is the function log_tie of Library. A row whose JSON column is NULL is an error
-- where the source scans it into json.RawMessage. The children of Store/Queue prove what the queue
-- promises, those of Store/Invariant which properties of the tables every method keeps. The
-- interface between the two is the record KeptByStore of Store/Invariant/Kept: a property of the
-- tables with a proof for each method, which the proofs about the controller take as an argument.
--
-- Controller (internal/controller, pkg/api). Api has the request and response bodies of
-- pkg/api/api.go. Controller/Handlers has the monad of a handler, which ends early in a response
-- on each error, and its children the handlers of internal/controller/handlers, from the decoded
-- request to the response. Controller/Middleware translates internal/controller/middleware,
-- Controller/Webhook internal/controller/webhook/webhook.go, with its goroutines as the step
-- relation of Controller/Webhook/Pool. Controller/Routes puts the middleware before a handler, and
-- Controller/System lets any requests, webhook deliveries and faults follow one another, by the
-- routes of internal/controller/server.go. Auth is HashKey of internal/auth/keys.go.
-- Controller/Program is main of cmd/controller/main.go, with what its calls return as an argument.
-- uuid.Parse, strconv.Atoi, json.Marshal and the SHA-256 digest are the record Library, the time
-- and the new uuid of a request the record Call, the token bucket of golang.org/x/time/rate the
-- record Bucket, and the network a function from the attempt to its outcome.
--
-- Worker (internal/worker, cmd/worker). Worker/Config is New of agent.go, Worker/Pull the loop of
-- Run as a step relation, with what the controller answers as a parameter, Worker/Report the
-- decisions of processItem and getResultFromFile, Worker/Retry doWithRetry, Worker/Calls the calls
-- of the controller and the heartbeat loop, and Worker/LogStream streamLogs. What the agent calls
-- of other packages is the record Host. Worker/Runtime has the interface of
-- internal/worker/runtime/interface.go as the record Runtime, and its client, the order of calls
-- in processItem; its children are the implementations Exec, Docker with Untar, and Kubernetes, of
-- exec.go, docker.go and kubernetes.go. What the operating system, the Docker daemon and the
-- Kubernetes API answer to an execution are the records Os, Daemon and ApiServer, how os.RemoveAll
-- ends and which children outlive a process included; the state is the machine's directories,
-- files, pipes and processes, the host's files and containers, and the cluster's jobs.
-- Worker/Program is how cmd/worker/main.go sets the worker up. Base/FilePath has filepath.Clean
-- and filepath.Join, which untar relies on.
--
-- Settings (internal/config). Config is Load; what viper finds in the environment and in the file,
-- and how it decodes numbers, is the record Viper.
--
-- Command line (cmd/cli/cmd). Cli/Client is client.go, with the network as the record Wire,
-- Cli/Logs the loop of logs.go, Cli/Status the output of status.go, and Cli/Commands the commands
-- of create.go, run.go, submit.go, status.go and dlq.go; the table of dlq list is in Cli/Dlq.
--
-- Loops. The retry loops of the webhook and of the agent recurse on the number of attempts left,
-- which the source bounds by 3 and 5 retries. A loop that polls with a ticker, or takes what a
-- channel holds, recurses on the list of what it is given; a poll of the Kubernetes runtime ends
-- with its context, which has a deadline, after the last answer of the list. The loop of `jobctl
-- logs` has fuel, and its theorem shows that one more than the number of entries is enough.
--
-- Numbers. An int is an integer without bound, and an attempt or an id a natural number. The sums,
-- products and shifts on them stay far below 2^63: the queue's backoff shifts by at most 5, the
-- agent's by at most 4, and a job's timeout comes from an INTEGER column, so that its nanoseconds
-- fit. Times count nanoseconds from Go's zero time, and are added to without bound.
--
-- Not modelled: JSON and SQL as text, spans, metrics and log lines, listening, signals, cobra and
-- the reading of flags, the alignment of the table of `jobctl dlq list`, the constructors of the
-- Docker and Kubernetes clients, and the reader that joins the two pipes of a process.
--
-- Examples has concrete tables, requests and runs, to which the theorems are applied.
pub mod Base
pub mod Auth
pub mod Config
pub mod Store
pub mod Api
pub mod Controller
pub mod Worker
pub mod Cli
pub mod Examples
