-- ===== src/Lib.antt =====
-- Palworld Manager: the jobs of the server and of its host, backups, settings and accounts.
--
-- The program is a web process and a worker process over one SQLite database. The web process adds
-- rows to the table of jobs; the worker claims one row at a time, executes it on the Palworld
-- service through systemd and REST, and ends it. One maintenance lock, a row of the database, keeps
-- two dangerous jobs apart, and one lease, another row, keeps two workers apart. Every part writes
-- to the audit log; some events become Discord notifications, which a dispatcher delivers.
--
-- Prelude      shared names, tests on numbers and texts, lists, dictionaries, results. `Error`
--              names the exception classes; a function that can raise returns a `Result`.
-- Db           app/db/models and app/audit/service.py: `Rows` has a record for each table and `Db`
--              for the database, `Enums` the string constants as data types, `Jobs` the queries on
--              the table of jobs with its unique index, `Audit` `record_audit_event`.
-- JobService   app/jobs/service.py: `claim_next_job`, `recover_interrupted_jobs`, the lock.
--              `Invariant` says what holds of the queue and the lock between transactions.
-- Environment  the protocols of the service manager, the health check, the port probe, the REST
--              communicator and the clock, as one record of functions on a state of the world;
--              `Clock` says that time does not go back and that `sleep` lasts.
-- Lifecycle    app/lifecycle/service.py (`Executor`, `Fake`) and app/lifecycle/jobs.py (`Jobs`).
-- Shutdown     app/shutdown/service.py (`Executor`) and app/shutdown/jobs.py (`Jobs`, with the
--              countdown's `Control` and the completion in `Complete`).
-- HostPower    app/host_power/jobs.py: rebooting and powering off the host.
-- Worker       app/lifecycle/worker.py: `process_next`, which runs the jobs of Lifecycle, Shutdown
--              and HostPower; `Runs` is about one run, `Processed` about the whole call,
--              `Refinement` about the worker against a machine that knows only whether a job is
--              waiting, running or over, `Exclusion` about all who use the queue.
-- Backups      app/backups/jobs.py, with the retention in `Retention` and `Newest`, and
--              app/backups/scheduler.py in `Scheduler`.
-- PalworldSettings  app/palworld_settings/ini.py in `Ini` and `Values`, over texts as lists of code
--              points; app/palworld_settings/service.py in `Service` and `Save`; the fake storage of
--              app/palworld_settings/storage.py in `Storage`.
-- ManagerSettings  app/manager_settings/service.py: the operational settings that the jobs read.
-- Health       app/health/palworld.py and app/jobs/health.py: the two health checks.
-- Heartbeat    app/jobs/heartbeat.py: the lease of the worker.
-- Login        app/auth/login_protection.py: attempts and blocks.
-- Sessions     app/auth/sessions.py: issuing, resolving and revoking sessions.
-- Accounts     app/users/service.py, app/auth/service.py and app/auth/passwords.py: the accounts and
--              the last active administrator.
-- Authorization  app/auth/authorization.py and app/auth/middleware.py: which request is served.
-- Notifications  app/notifications/service.py: the outbox and its dispatcher.
-- Examples     small databases and environments on which the theorems are tried.
--
-- Conventions. A function of the model has the name of the function of the code. A time is a number
-- of microseconds, a session (`session_scope`) is one step on a `Db`, and an exception undoes the
-- step. `datetime.now(UTC)` and the database's CURRENT_TIMESTAMP are arguments. The next id is one
-- more than the largest, as in SQLite. The lock and the heartbeat have one key each, so that their
-- tables are options. JSON numbers are integers. Where other processes write between two sessions
-- of one function, the model takes their transactions as an argument (`Others` of the countdown's
-- control) or as a list of steps (`Transaction`, `Transition`, `Operation`,
-- `LeaseStep`, `Login`, `SessionRequest`).
--
-- Fuel. The polling loop takes fuel and returns none without it. The jobs give it one round for
-- each second of the timeout and one more: each round but the last sleeps for a second or up to the
-- deadline. The countdown is a recursion on the seconds that are left.
--
-- The job that the worker runs is alone with the database: other processes' transactions during a
-- countdown are in Shutdown/Race. A dispatch of the worker passes the fuel of the executor on.
--
-- Parameters. The regular expressions of the settings file are searches that answer with positions
-- (`Patterns`); no property of them is needed. `decimal`, `json` and `str.lower` are a
-- `ValueLibrary`, the file of the settings a `PalworldSettingsStorage`, SHA-256 and the formatted
-- name of a backup functions, and the table of settings a list. The time zones and
-- `time.fromisoformat` are a `Calendar`, the probes of the health check `HealthProbes`, the log
-- files of the jobs a `JobLogStore`, the patterns of the paths with an id `PathPatterns`, Argon2
-- and the Unicode functions of the accounts a `Library`, and the command that reboots the host a
-- function on the state of the world; the formats of the operational settings and their version are
-- a `SettingsLibrary`.
--
-- Not modelled: the redaction of audit texts, the rendering of messages, HTTP, systemd, file and
-- Drive access, the routers and templates; restores, updates, Drive jobs, the archive that a backup
-- writes and with it the successful end of a backup job; the labels and the grouping of the
-- server's settings. The password check and the normalisation of the user name are arguments of
-- the login, the hashes of the tokens are arguments of the sessions. Foreign keys are not checked.
-- A probe or a controller raises only the errors that its protocol names.
pub mod Prelude
pub mod Db
pub mod JobService
pub mod Environment
pub mod Notifications
pub mod Lifecycle
pub mod Shutdown
pub mod HostPower
pub mod Worker
pub mod Backups
pub mod PalworldSettings
pub mod ManagerSettings
pub mod Health
pub mod Heartbeat
pub mod Login
pub mod Sessions
pub mod Accounts
pub mod Authorization
pub mod Examples
