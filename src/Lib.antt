-- ===== src/Lib.antt =====
-- A verification library for the backend of Terraformer, which plans, applies and rolls back changes
-- to the configuration of network devices.
--
-- The program. A client asks for one change (a description, an admin state, a VLAN, a route, a routing
-- statement, a host name). `ChangeService.preview` reads the device over one connection, lets the
-- driver validate and render the change, and stores a draft plan of one step: the commands and those
-- that undo them. `JobService.enqueue` queues an apply_change job, and a worker runs
-- `execute_job`, which calls `ChangeService.apply`: it sends the commands, reads the device back,
-- checks that the change is in place, and otherwise sends the inverse.
--
-- The files, and the code they are about (paths from the repository's root):
--   Base            shared names, tests, lists
--   Text            Python's str, over lists of code points: Lines, Words, Strip, Ends, Numbers
--   Ipv4            the part of Python's ipaddress that the backend uses; Print its round trips
--   Errors          backend/app/core/errors.py, codes and statuses
--   Models          backend/app/models/entities.py, enumerations
--   Changes         backend/app/changes/types.py and risk.py: Interfaces, Vlans, Prefixes, Routing, Risk
--   Drivers.Facts   backend/app/drivers/base.py, the records and their lookups; Spelling and Found are
--                   about texts that differ in case and white space
--   Drivers.Cisco   backend/app/drivers/cisco_iosxe.py: Batch, Ports and Routes build the commands,
--                   Render is render_change, Validate is validate_change, Parsers and Tables are the
--                   parsers of static routes, routing processes, VLANs and switchports,
--                   Save is what save_configuration accepts
--   Pipeline        backend/app/changes/service.py and repositories/changes.py: the rows, the session
--                   and the outside; Checks is _post_check_ok and _previous_value, Reads what is read,
--                   Preview is preview, Apply is apply with _attempt_rollback, Save is
--                   save_running_config
--   Storage         backend/app/core/storage.py, Envelope is EnvelopeCipher of core/security.py, Files is
--                   _atomic_create and the files that it works on
--   Jobs            backend/app/repositories/jobs.py; Execute is execute_job of jobs/tasks.py, Queue is
--                   enqueue of services/jobs.py
--   Gate            backend/app/services/connection_gate.py: Redis is what it asks of Redis, Transaction
--                   is _transaction, Admit the operations; Leases is the pool of leases that it is
--                   meant to keep, Writes, Refines, Limits and Reach show that it does, Frees and
--                   Cooldown are about places that come back and about failed authentications, Store
--                   is an example of a Redis
--   Devices         Policy is backend/app/drivers/ssh_compatibility.py, Admission is admitted_connection
--                   of backend/app/services/devices.py, Callers what snapshots, changes and reads ask it
--                   for (backend/app/services/snapshots.py, changes/service.py, services/devices.py)
--   Assistant       backend/app/assistant/service.py: Context is _trim_to_context_limit, Turn the loop of
--                   handle_user_message, Turn/Socket what the branch user_message of
--                   backend/app/api/assistant.py sends for it, Allowance what Auto mode may apply
--                   (backend/app/api/changes.py and repositories/assistant.py), Allowance/Overlap what
--                   becomes of its count when requests overlap
-- A file named Tests holds examples.
--
-- State. A World holds the rows of the session and the rows that are saved, the batches that were
-- handed to the driver, oldest first, and a clock that counts the calls to the outside. An Env answers
-- those calls by the clock, so a device, the connection gate and the snapshot store may answer
-- differently each time, or raise; nothing is assumed of them but what a theorem says. A batch counts as
-- sent once it is handed to the driver. Exceptions are values, a typed error or any other. A commit to
-- the database does not fail, and a stored file that is there can be read. `enqueue` is one step, and
-- requests are answered one after the other, except in Assistant/Allowance/Overlap.antt. A turn of the
-- assistant starts at the history that it sends, behind compaction.
--
-- Numbers and texts. Numbers are natural; an integer that Python's `int` may return is signed. Texts
-- are lists of code points; case, digits and printability are those of ASCII, white space and line ends
-- are Python's. Loops are structural recursion; the digits of a number are written on fuel of the
-- number plus one, which is more than its digits. Times of the gate are microseconds. A transaction with
-- Redis is tried eight times and a turn of the assistant has thirteen rounds, as in the code.
--
-- Not modelled: the HTTP API, transports, the ORM's row locks and timestamps, messages of
-- errors and events, the rows of snapshots, analysis, discovery, the rows of devices, the trust of host
-- keys, the assistant's tools, compaction and clients, and the parsers of versions, interfaces and
-- neighbours. Redis, the model behind the assistant, the vault, AES-GCM,
-- gzip and the operating system are parameters.
pub mod Base
pub mod Text
pub mod Errors
pub mod Models
pub mod Ipv4
pub mod Changes
pub mod Drivers
pub mod Pipeline
pub mod Storage
pub mod Jobs
pub mod Gate
pub mod Devices
pub mod Assistant
