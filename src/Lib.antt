-- ===== src/Lib.antt =====
-- The Flex Query ingest plugin: jobs wait in a table of Postgres, a worker claims them one at a
-- time, each job fetches statements of trades or of cash transactions from the Flex Web Service, and
-- a failed attempt is retried, given up or puts the whole queue to rest, as its error text tells.
--
-- The parts, and the code that each file is about (under src/bifrost_flex_query/):
--   Common: texts, JSON values, integers, exceptions as values, and the lemmas on lists that the
--     parts share. A text is the list of its code points; the white space and the digits that
--     `strip`, `int` and `\d` know are those of ASCII.
--   Retry (worker/retry.py): the category of an error text, and the plan for a failed attempt.
--     Retry/Codes is about the quoted codes, Retry/Plan about the plans.
--   Queue (schema/ddl.py): the rows of job_flex_ingest, with the sequence behind their ids. Each
--     UPDATE is `update_where`. Queue/Claim has the operations of worker/claim.py by their names,
--     Queue/Enqueue those of scheduler/enqueue.py. The other files under Queue hold what the
--     operations keep: Rows for single updates, Invariant for the whole table, Requeue and Accept
--     for the row that goes back to pending, Claim/Choice for the row that a claim takes,
--     Enqueue/Dedup for repeated inserts, Enqueue/Trim for what a trim leaves.
--   Schema (schema/ddl.py): flex_ingest_freshness, one row for each kind of job, and the settings
--     row. Schema/Freshness is about one attempt, Schema/History about many.
--   Worker (worker/loop.py): `turn` is one round of `while True`, composed of the functions of
--     Retry, Queue and Schema as the loop composes them; Worker/Run has the start and the sequence
--     of turns. Worker/Turn, Worker/Settled, Worker/Cooldown, Worker/Returns and Worker/Outcome
--     hold what a turn does to the table. Worker/Db is WorkerDb, apart from the turns.
--   Windows (orchestration/transactions.py, orchestration/trades.py): the days that a run asks for,
--     and the chunks that one request covers. A date is its ordinal.
--   Cron (scheduler/cronutil.py): five-field crons; Cron/Fires is about the minutes at which they fire,
--     Cron/Next about the next of them. The clock of the cron's zone is an argument.
--   Slots (scheduler/daily.py, worker/catchup.py): the enqueue of a daily slot, and the catch-up of
--     the slots that the scheduler missed; Slots/Keeps is about the
--     queue after a catch-up, Slots/Run about the worker that catches up.
--   Calendar: strptime on the formats that occur, and the ordinal of a date, as the standard library
--     has them.
--   Flex (client/flex_client.py): a report is a tree of elements. Flex/Request is SendRequest,
--     Flex/Statement the polls of GetStatement, Flex/Rows the values of a row and parse_flex_datetime,
--     Flex/Trades and Flex/Cash the two parsers, Flex/Fetch the whole fetch. Flex/Request/Limits,
--     Flex/Statement/Polls and Flex/Trades/Kept are about what these return.
--   Config (orchestration/config_rw.py): the query rows, the range days and the tokens, with the
--     transaction that writes them in Config/Write; Config/Saved and Config/Days are about what is
--     read after a write.
--   Ingest (orchestration/trades.py, transactions.py and utils.py, worker/handlers.py): Ingest/Trades
--     and Ingest/Trades/Run are the run of the trades, with its result in Ingest/Trades/Report and
--     Ingest/Trades/Texts, the requests of its date fallback in Ingest/Fallback and the spans of its
--     rows in Ingest/Span; Ingest/Trades/Upload is the run on an uploaded report, Ingest/Cash and
--     Ingest/Cash/Run the run of the cash transactions. Ingest/Handlers is dispatch and
--     what it records, Ingest/Handlers/Kinds the handlers of the two kinds. Ingest/Fallback/Honest,
--     Ingest/Cash/Fetched, Ingest/Handlers/Recorded and Ingest/Trades/Complete are about the rows and
--     the errors that reach a job.
--   Ops (ops/diagnose.py, ops/coverage.py, api/ops.py): the self-check. Ops has the verdict on a kind,
--     Ops/Input what it reads and says, Ops/Checks and Ops/CoverageCheck the checks beside the kinds,
--     Ops/Diagnose the overall verdict and the next step, Ops/Collect what the route reads from the
--     tables. Ops/Collect/Latest and Ops/CatchUp compare them with the catch-up of Slots, on a table whose
--     rows were created in the order of their ids: the route takes the job with the greatest id, the
--     catch-up the greatest created_at. Ops/Coverage has the months without cash rows, and
--     Ops/Diagnose/Calm is about the answer as a whole.
--   Metrics (api/http_metrics.py): Metrics has the histogram and the labels, Metrics/Requests the
--     counters of HttpMetrics and the middleware. Metrics/Tally and Metrics/Refines compare them with
--     the list of the requests that were observed, Metrics/Served with the calls of the application,
--     Metrics/Escape is about a reader of a label.
--   Api: the routes, which answer a value, an HTTPException or a server error. Api/Settings is
--     api/config_summary.py, which calls Config; Api/Jobs is api/ingest.py over Queue and Slots;
--     Api/Manual and Api/Manual/Routes are api/manual_ops.py, which uses Queue, Schema and Retry;
--     Api/Kpis is api/freshness_kpis.py. Api/Stored and Api/Masked are about the configuration,
--     Api/RunNow about run-now, Api/Offered and Api/Checked about run-now and the self-check together,
--     Api/Manual/Audited about the trail of a manual run.
--   The Tests files run the parts on small data.
--
-- Choices. A time is a number of microseconds (of seconds in the rows of a report), and each
-- statement reads the clock once. Attempts
-- and delays are natural numbers that fit their columns; an insert whose priority or budget does not fit
-- its column raises. A statement that fails changes
-- nothing, since its transaction is rolled back. The rows that another transaction has locked are an
-- argument of a claim. One worker runs (k8s/ has one replica), so the turns of the loop follow each
-- other; between the statements of a turn nobody else writes the table, and a turn assumes that the
-- database answers, which is what WorkerDb.call is for. What dispatch returns or raises, and what
-- the catch-up does to the table, are arguments of a turn. The digest of a payload (canonical JSON
-- and SHA-256) is an argument of an insert. The parser of XML (`fromstring`), the answers of the
-- service, float() and str() on a float, strftime, isoformat and the zone of the exchange are
-- arguments, and so are the writers of executions and transactions and the reads of the database
-- that a run makes; the pauses between polls are left out. A run says which message it publishes.
-- Between the two statements of run-now, and while a manual run fetches, other transactions may write:
-- what they do is an argument. A request of the HTTP service takes a whole number of nanoseconds, and
-- the sum of a histogram is not rounded. What is printed of a JSON value that is no text, of an instant
-- and of a float is an argument.
--
-- Bounds. The loop of split_window runs on fuel: each round moves on by a day at least, so the days
-- of the window and two rounds are enough. The loop of iter_cron_fires
-- has a round for each minute up to its end, and one. WorkerDb.call runs over the list of its delays,
-- and GetStatement over its 24 attempts.
--
-- Not modelled: the delivery of messages through Redis, the query for the last stored days of the
-- accounts, the gauges of /metrics besides those of the requests, the dashboard's adherence, the peek
-- at raw rows, the reads of the landed data for the overview, how a verdict of the self-check is
-- printed, the loading of the configuration, and the statements that create and migrate tables. The log
-- is left out everywhere.
pub mod Api
pub mod Calendar
pub mod Common
pub mod Config
pub mod Cron
pub mod Flex
pub mod Ingest
pub mod Metrics
pub mod Ops
pub mod Queue
pub mod Retry
pub mod Schema
pub mod Slots
pub mod Windows
pub mod Worker
