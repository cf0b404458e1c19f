-- ===== src/Lib.antt =====
-- The execution records of QARunner, and what they guarantee.
--
-- QARunner runs test suites on remote workers. A Worker generation (src/qarunner/domain/worker.py)
-- registers with the control plane. An Assignment (src/qarunner/domain/assignment.py) reserves a
-- generation for one Run and is claimed and then committed, or closed before its start. A commit
-- creates an Attempt (src/qarunner/domain/attempt.py), which carries a fence and the Worker it was
-- committed to, and an AssignmentLease (src/qarunner/domain/worker_lease.py), which the Worker
-- renews. The Attempt takes events from the Worker, and ends either with evidence, which the
-- control plane rebuilds from its own facts (src/qarunner/domain/evidence.py), or as unknown, with
-- an observation and later decisions (src/qarunner/domain/unknown.py). A retry is a new Attempt,
-- with an authority and a provenance (src/qarunner/domain/retry.py), which a policy may decide on
-- (src/qarunner/domain/run_retry_policy.py). A Run (src/qarunner/domain/run.py) holds the
-- Assignments, the Attempts and the retry intents of one piece of work with the request to cancel
-- it (src/qarunner/domain/cancellation.py); its constructor checks their whole history again after
-- every command, and the commands on an Attempt go through it. When a Run is closed, the results of
-- its items, the Attempt that decides it and the decisions behind its outcome are put together as a
-- finalization basis (src/qarunner/domain/run_finalization.py). Batches wait in a bounded queue
-- (src/qarunner/domain/bounded_queue.py), and the response of a command is stored for its replay
-- (src/qarunner/domain/idempotency.py). Each record is immutable: a command returns the next record
-- or raises a domain error.
--
-- The files, by the code that they model:
--   Prelude      shared names and lemmas: results and their do blocks, lists, texts, numbers, and
--                the stable sort with its laws.
--   Values       domain/digest.py, authority.py, event.py, errors.py and the identities of
--                worker.py: digests, Worker references, authorities, events, times, the raised
--                errors, the checks that several records share, and `canonical_digest`.
--   Worker       domain/worker.py. Commands: what each command accepts and returns. History: what
--                any sequence of accepted commands keeps.
--   Lease        domain/worker_lease.py; Renewal holds its theorems.
--   Assignment   domain/assignment.py; Lifecycle holds its theorems.
--   Unknown      domain/unknown.py; Basis holds its theorem.
--   Retry        domain/retry.py, with the enumerations of run_retry_policy.py and
--                run_finalization.py that it uses; Policy holds its theorem.
--   Cancellation the cancellation intent of domain/cancellation.py.
--   RetryPolicy  domain/run_retry_policy.py: Validation is what a policy's constructor checks, Payload
--                the document of a decision; Decision and Validation hold its theorems.
--   Run          domain/run.py. Lookups, Attempts, Assignments, Cancelling, Pointers and Aggregate
--                are the checks of the constructor; Current, Scheduling, Committing, Closing,
--                Execution and Retries are the commands. Change is the step relation that they
--                refine, by the modules of Refinement; Invariant is what the constructor's checks
--                mean, and History what any sequence of commands keeps.
--   Finalization domain/run_finalization.py. Decisions, Keys, Items, ResolutionSet, Selection, Basis
--                and State are its value types with their constructors, Payload their documents.
--                The theorems are in Keys/Order, Items/Lineage, ResolutionSet/Ordered, Complete and
--                Worst, Selection/Latest, State, and Basis/Retries, Matrix and Bound; Basis/Leads says what
--                a chain of retries is.
--   Evidence     domain/evidence.py and the stop proof of domain/cancellation.py: FilePath,
--                Classify, Ordering, Payload and Manifest, each with its theorems below it.
--   Attempt      domain/attempt.py: Commands and Finalize are its operations, Validity what its
--                constructor accepts, Events the event log, History what any sequence of accepted
--                commands keeps and what a repeated delivery does.
--   Queue        domain/bounded_queue.py: the queue of batches before admission. Admission is what
--                `enqueue` accepts, Priority the order of `dequeue`, Bounds and History what any
--                sequence of calls keeps.
--   Idempotency  domain/idempotency.py, with its theorem.
--   Budget       domain/resource_profile.py: resource vectors, profiles, the host budget and the
--                admission of a set of shards; Admission holds its theorems.
--   Access       domain/rbac.py: the decisions on roles, actions and ownership; Duties holds its
--                theorem.
-- An Examples module below a part applies its theorems to concrete records.
--
-- How the code corresponds:
--   * A frozen dataclass is a record, an enumeration a data type, and `__post_init__` a function
--     `post_init` from the record to itself or an error. `dataclasses.replace` builds a new
--     record and runs `post_init` on it again, as in Python. A method takes the record first and
--     its arguments in the source's order.
--   * Tests of a value's type (`isinstance`, `is None` of a required field) are decided by the
--     types here. A stored version, fence, generation or count that Python checks not to be
--     negative is a ℕ, so the test that is left is the one against 0; a number that a caller
--     sends, such as an expected version or a count of assignments, is a ℤ.
--   * A time is a zone and an instant in microseconds. Python compares the instants and tests the
--     zone for UTC; a duration is a number of microseconds.
--   * A text is blank when Python's `strip` leaves nothing of it. The texts of error messages are
--     left out, but for their reasons.
--   * Of the refusals of `canonical_digest` one is left out, that of a text with a lone surrogate,
--     which UTF-8 cannot encode.
--   * A retry policy's `retry_scope` and `require_prior_execution_stop` have one value each, and are
--     no fields.
--   * The SHA-256 of the serialised canonical document is a parameter `Hash` of the functions
--     that need it. No property relies on anything but that it is a function.
--   * Loops over stored items are structural recursions, so no fuel is needed.
--   * The evidence proposal of a Worker enters a finalization only by its root digest, as in the
--     code; `finalize_with_stop` is the body that `finalize_evidence` and the Run's cancellation
--     call share.
--   * The mapping from ids to records that a check of a Run builds is a search for the first match,
--     as repeated ids are refused before it is used. A tuple index that Python would not find is an
--     error of its own. `updated is current` is the equality of the versions, since every change of
--     an Attempt counts its version up.
--   * `RunRequest` and `serve` gather the methods of a Run, so that a history is a list of requests.
--   * The fields that the two resolutions of an item share are one record, since the helpers read
--     them from either; the envelope of a resolution set and the `**values` of a basis are records
--     of their own too. An aggregation class is an outcome or the unknown lineage. A decision's
--     source is given as a whole or not at all, as its constructor wants it.
--   * A queue item's ISO text is the time itself, which it determines.
--
-- Not modelled: the Batch aggregate with its cancellation and finalization; the shard count under
-- a budget, which divides in floating point; schedules and suites; result parsing; the application services with their ports; the single-host core; and the
-- PostgreSQL, SQLite, Docker and HTTP adapters, the API, the migrations and the frontend, which are
-- input and output.
pub mod Prelude
pub mod Values
pub mod Access
pub mod Assignment
pub mod Attempt
pub mod Budget
pub mod Cancellation
pub mod Evidence
pub mod Finalization
pub mod Idempotency
pub mod Lease
pub mod Queue
pub mod Retry
pub mod RetryPolicy
pub mod Run
pub mod Unknown
pub mod Worker
