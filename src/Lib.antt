-- ===== src/Lib.antt =====
-- A model of CHC Rental's alert program (src/chc_rental), with what makes it correct.
--
-- The program watches rental listings for people on an allowlist. A planner turns their saved
-- searches into provider queries; a collector runs them, under leases and a circuit breaker, and
-- writes what it saw into an SQLite ledger; matches become rows of an outbox; a worker claims a row,
-- tests once more who may have it, sends it by Telegram and writes down the outcome. Once a day a
-- pipeline sends each due person the listings that match and that they have not seen, by way of a
-- journal of attempts and a ledger of seen keys in files.
--
-- The files and the code they model:
--   Base          shared helpers: Boolean tests, tables of rows (UPDATE, COUNT, SELECT, ORDER BY as
--                 functions on lists), texts, results of calls that may raise
--   Text          _normalize_text of src/chc_rental/matching.py, str.split, strip and lower
--   Models        the shapes of src/chc_rental/models.py: Search, Profile, AllowlistEntry, Allowlist,
--                 Listing, property_type_group
--   Schedule      src/chc_rental/notification_schedule.py, with the time zones as a parameter
--   Matching      matches_search of src/chc_rental/matching.py
--   Planner       plan_queries of src/chc_rental/sources/planner.py; SourceQuery of sources/base.py
--   Ledger        the tables of src/chc_rental/migrations as records of rows, one Ledger of all
--   Ledger.Outbox        the outbox methods of EventStore (src/chc_rental/event_store.py): enqueue_shadow,
--                 promote_shadow, claim_due_outbox, mark_outbox_sent, mark_outbox_failure and the others
--   Ledger.Runs   query scopes and source runs of EventStore: leases, runs, reset of a baseline
--   Ledger.Observations  record_observations of EventStore
--   Ledger.Breaker       the source breakers of EventStore
--   Worker        _targets, _eligibility, promote and _deliver_claimed of
--                 src/chc_rental/delivery_worker.py; Worker.Due deliver_due, Worker.Reconcile
--                 _reconcile_seen and run of the same file
--   Ledger.Costs  monthly_source_cost of EventStore
--   Planner.Incremental  plan_incremental_queries of src/chc_rental/sources/planner.py
--   Quota         reserve_request and refund_request of src/chc_rental/store.py
--   Journal       the journal of routine deliveries: records and fold of
--                 src/chc_rental/delivery_history.py; Journal.Store the methods on it of
--                 src/chc_rental/store.py, Journal.Seen those on the ledger of seen keys
--   Pipeline      the daily delivery, src/chc_rental/pipeline.py: Plan what is planned, Send one
--                 message, Deliver and Notices the loops
--   Collector     the incremental collector, src/chc_rental/incremental.py: State what it reads and
--                 keeps, Remote, Start and Loop its methods
--   Shadow        src/chc_rental/outbox.py, and observe_collection of src/chc_rental/events.py
-- The definitions of Ledger.Outbox stand in its children Rows, Enqueue, Operator and Transport, those
-- of Ledger.Runs in Scopes and Runs, of Ledger.Observations in Seen and Record, of Worker in State,
-- Gates, Deliver and Promote, of Shadow in State, Plan and Observe. Any other child module is named
-- for what it proves; Tests holds concrete inputs.
--
-- How state and operations correspond: a method is a function from its arguments and the ledger to
-- its result and the ledger after it. A method that raises returns `err` and, as its transaction is
-- rolled back, the ledger it was given; where the method commits first and raises then, the ledger
-- is the changed one. A sequence of methods is a list of operations (Steps.steps, Outage.applies).
-- UNIQUE, CHECK and foreign keys that an INSERT can break are tests of the function that inserts.
--
-- What stands for what: a time is a count of microseconds, as the texts that _iso writes compare as
-- the times do; money is in millionths of a dollar, baths in hundredths; a text that the program
-- takes apart is a list of code points, with `lower` on ASCII letters; any other text is a native
-- string. The column canonical_json is the listing it was written from, and matching_search_ids_json
-- the list of ids. Rows stand in order of insertion. There is no fuel: every loop of the modelled
-- code runs over a list, that of deliver_due over the list of the worlds that its turns meet; its pass
-- before the claims, and promote, take the world that each row meets. Numbers are unbounded in Python,
-- and the ones modelled are never negative.
-- What the program reads from files, from the zone database and from the network is a field of a
-- record that the functions take: `World` of Worker, `Collector` and `Client` of Collector, `Planning`
-- and `Mail` of Pipeline, `Shadowing` of Shadow, `Zones` of Schedule. The readings of `World` return
-- or raise; its seen keys are what active_seen_keys of Journal.Seen gives, its not_before is
-- notification_not_before of Schedule. In deliver_due the keys that _reconcile_seen has written are in
-- the worlds of the turns, and its reading of the settings may raise; that the reading of a seen file
-- fails there is left out. The files of a recipient are a value that the calls hand on, with a list
-- that says which of the writes to come fail; that of the seen keys may be missing. The messages that
-- were handed to Telegram are kept beside them.
--
-- Not modelled: migrations, backups, health reports and prune_history of EventStore; the validators
-- of models.py, whose values are taken as valid and, for baths, as numbers that are neither nan nor
-- infinite; dedup.py, whose keys are parameters; scheduler.py; cost.py and fetch.py, the result budget
-- and the daily fetch; caches, logs, retention, locks and the import of old history of store.py; HTTP (sources/zillow.py,
-- sources/apify.py, net.py, notify/telegram.py); the command line, reports and test pushes (cli.py,
-- operations.py, test_push.py) and the terminal screens (tui).
pub mod Base
pub mod Text
pub mod Models
pub mod Schedule
pub mod Matching
pub mod Planner
pub mod Ledger
pub mod Worker
pub mod Quota
pub mod Journal
pub mod Pipeline
pub mod Collector
pub mod Shadow
