-- ===== src/Lib.antt =====
-- Verification library of mikrus-mcp: models of the program's own logic and what is proved of
-- them.
--
-- The program is a server that lets an agent operate mikr.us and SSH hosts. A call names a
-- capability and its arguments. The kernel validates the arguments (src/mikrus_mcp/validators.py),
-- authorizes the caller and the target (src/mikrus_mcp/kernel_policy.py), asks for a one-time
-- approval where the capability needs one (src/mikrus_mcp/approvals.py), and runs the capability;
-- long programs become durable remote jobs (src/mikrus_mcp/remote_jobs.py).
--
-- Files:
-- - Errors, Results, Exec: src/mikrus_mcp/errors.py and how calls end. `Result` is a value or an
--   exception, `Exec` also returns the state that a method leaves, since what was written before
--   an exception stays written.
-- - Prelude, Dict, Json: texts as lists of code points, dicts as association lists in insertion
--   order, JSON values as `json.loads` returns them. `Sample` is the concrete JSON library of the
--   tests.
-- - Approvals: src/mikrus_mcp/approvals.py. `Approvals.Record` is `ApprovalRecord`, `_matches` and
--   `_without_expired`; `Approvals.File` is the file's checks, `_parse_records` and `_payload`;
--   `Approvals.Registry` is `ApprovalRegistry`, method by method. The children named for laws hold
--   the proofs.
-- - RemoteJobs: src/mikrus_mcp/remote_jobs.py. `RemoteJobs.Record` is `RemoteJobRecord` and its
--   transitions, `RemoteJobs.Codec` its JSON form, `RemoteJobs.Store` the store and
--   `RemoteJobs.Registry` the durable registry.
-- - Validators: src/mikrus_mcp/validators.py. `Validators.Paths` is `validate_path`,
--   `Validators.Curl` the curl policy, `Validators.Programs` the other program policies and
--   `validate_program_invocation`.
-- - Manifests: src/mikrus_mcp/manifests.py, the manifest of a capability and `validate_manifests`
--   (`Manifests.Record`), the table of capabilities (`Manifests.Table`), and which of them are
--   active under the settings (`Manifests.Activation`).
-- - Policy: src/mikrus_mcp/kernel_policy.py. `Policy.Scopes` is the authorization and the lock
--   keys, `Policy.Retry` the retry loop over a stream of attempts (`Attempt`: outcome, random part
--   of the delay, clock). `Policy.Access.authorize` runs the four authorizations in the order of
--   `invoke` in src/mikrus_mcp/kernel.py.
-- - Targets: src/mikrus_mcp/targets.py. `Targets.Registry` is `TargetRegistry`; what a client does
--   when it is opened or closed is the argument `Opening`, and the lock of a target makes `get`
--   one step.
-- - Kernel: src/mikrus_mcp/kernel.py. `Kernel.State` is the state of `InvocationKernel` and what
--   an invocation meets (`World`), `Kernel.Admission` the checks of `invoke` before its lock,
--   `Kernel.Invoke` the rest, with `execute_once_locked` and the handlers (`respond`). While a
--   call waits for its lock, other calls act on the kernel as `World.meanwhile` says; the outcomes
--   of the adapter calls are the stream `World.attempts`. `Kernel.Admitted`, `Kernel.Began` and
--   `Kernel.Consumed` invert these steps.
-- - Kernel execution: src/mikrus_mcp/kernel_execution.py. `Kernel.Cron` is `cron_upsert` and
--   `cron_remove`, over the store of `Profiles` and the texts of `Crontab`. What the client reads
--   and how an install ends are the fields of `CronClient`, and what others do to the store while
--   an install runs is the argument `others`; the profile registry is configured and a client is
--   there.
-- - Profiles: src/mikrus_mcp/cron_profiles.py. `Profiles.Record` is `CronProfileRecord`,
--   `Profiles.Store` is `CronProfileStore`, and `Profiles.Spec` the map that the store stands for;
--   `Keyed` has the lists under a key that it uses. `CronProfileRegistry` passes its calls on.
-- - Plans: src/mikrus_mcp/docker_ops.py. `Plans.Record` is `PlanRecord`, `Plans.Store` is
--   `PlanRecordStore`, which reads its clock once per call, and `Plans.Diff` is `semantic_diff`
--   and `states_equal`, and `Plans.Output` is `plan_output`; `Desired` and `Live` are what
--   `desired_from_compose` and `live_state` return. The receipt of a plan, which
--   kernel_execution.py computes as a digest, is an argument.
-- - Crontab: src/mikrus_mcp/cron_profiles.py. `Crontab.Projection` is the quoting and the edits of
--   a crontab text, `Crontab.Installed` the generated line and what is read of an installed text.
-- - Jobs: src/mikrus_mcp/jobs.py. `Jobs.Registry` is `ProgramJobRegistry`; the end of a cancelled
--   task is a parameter of `cancel`, since it depends on the program that it runs, and no other
--   call comes between the two times that `cancel` holds the lock.
-- - RateLimit: src/mikrus_mcp/clients/common.py. `RateLimiter` with `acquire` at a reading of the
--   clock. Times are counted in a unit in which the interval between two slots is a whole number,
--   so the rounding of floats is left out; the lock makes `acquire` one step.
--
-- Conventions: exceptions are told apart by class and error code, message texts are left out.
-- Times are natural numbers of microsecond ticks, or texts where the source keeps ISO texts. The
-- file system is what a method observes of it (`Observed`, `Entry`, `Disk`); writes that may fail
-- have their outcome as a parameter. `json.loads` and `json.dumps` are the record `JsonLib`, of
-- which `IsLossless` says that what was dumped is loaded again. `str.lower`, `str.upper` and
-- `ipaddress.ip_address` are the record `CurlLib`. Loops over lists are structural recursion, so
-- no model needs fuel. A method that holds a lock is one step.
--
-- Not modelled: network and SSH clients, the protocol server and its tools, configuration loading,
-- provenance, and the argument tables and the rest of the dispatch of the kernel:
-- `Kernel.State.Catalog` has the table, the validated arguments, the digests and the sanitizing of
-- results as parameters, and a dispatched call leaves the registries of the model as they are.
pub mod Prelude
pub mod Errors
pub mod Dict
pub mod Results
pub mod Exec
pub mod Json
mod Sample
pub mod Approvals
pub mod RemoteJobs
pub mod Validators
pub mod Manifests
pub mod Policy
pub mod RateLimit
pub mod Targets
pub mod Keyed
pub mod Profiles
pub mod Plans
pub mod Crontab
pub mod Jobs
pub mod Kernel
