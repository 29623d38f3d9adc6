-- ===== src/Lib.antt =====
-- Admiral Fleet is the agent that runs applications on a node: it claims signed tasks from the
-- control plane, executes them with rootless Podman and systemd, and delivers the results.
--
-- The parts of the program, and the files that model them:
--
-- - Fleet/Task: the task of the control plane (`admiral.FleetTask`, of another repository), with
--   the fields that the fleet reads. Fleet/Effects: the actions of the executor. A call of a
--   collaborator (the systemd manager, Podman, the renderer, the file system) is a `Call`; the node
--   answers it by an arbitrary function of all that happened before, and the log keeps the calls
--   and the answers, the newest first. An action fails with an error or gives a value, and its
--   events stay in the log either way. Fleet/Effects/Keeps and
--   Fleet/Effects/Triples: how to reason about them.
-- - Fleet/Paths: package path/filepath on texts.
-- - Security: the validators of internal/security/sanitize.go.
-- - Quadlet: internal/quadlet/renderer.go. Names and Policy are the names and the registry policy,
--   Values the sanitizers, Units the text of the files, Render the files that `Render` writes and
--   `Remove` removes.
-- - Podman/IdMap: the id maps of user namespaces (internal/podman/inspector.go).
-- - Executor: internal/executor. Dispatch is `Execute` of both executors (executor.go,
--   systemd_podman.go), which calls the handlers: Lifecycle is `start`, `stop` and `resize`
--   (executor_lifecycle.go), Deprovision is `deprovision` (executor_deprovision.go), Provision is
--   `provision` with its setup guard and its readiness gate (executor_provision.go), which ends in
--   Deprovision when a service is not ready. Ports is `allocateHostPorts`, Files the documents of
--   an instance, Readiness the health checks and setup commands, Limits the memory limits, Report
--   the task results, whose texts are data here. Restore is `restoreBackup` (executor_restore.go),
--   with DataPlane for its steps: where a local artifact lies, from which addresses one is
--   downloaded, its checksum, databases and volumes.
--   Archive is the archive of volumes: the entries that `collectVolumeTar` writes
--   (executor_backup.go) and those that `extractGzipTarToDirFiltered` lets through.
-- - Agent/Replay and Agent/Claim: `verifyTaskSignature`, `rememberTask` and `ClaimTaskContext`
--   (internal/agent/agent.go). Agent/Outbox: internal/agent/outbox.go, and `HandleTaskContext`
--   from the result on.
-- - Agent/Health: the watch over the rootless systemd manager, and Agent/Pods: the health of pods
--   and of declared services, `checkAllPods` (both internal/agent/health.go).
-- - Rootless: `helperFor` (internal/podman/remote_runner.go) and the gate of the two helpers
--   (internal/helper/server.go, cmd/admiral-fleet-lifecycle, cmd/admiral-fleet-setup).
-- - Systemd/Manager: internal/systemd/manager.go, with its own log of commands.
-- - Prelude: texts as lists of code points, native numbers, decimal notation, and the library names
--   that the modules share. Tests: runs at concrete inputs.
--
-- Bounds: Go's `int` is a number or an integer without wrap-around where the source cannot reach
-- 2^63 (host ports are bounded by their range, and the counter file is checked against 2^63); the
-- sum of the sizes in the outbox wraps around at 2^64. Loops are structural: over services, units
-- and entries, and over the number of attempts that the source computes (10 for a published
-- port, 15 for a container, the threshold or the waiting time for a health check, 2 for a
-- reload), so that no fuel is needed. Times of claims are nanoseconds since 1970 that
-- `time.Time` can represent. The map of seen tasks is that of one run of the agent.
--
-- Parameters: the answers of the node and of the server, `os.IsNotExist` of an error, the
-- cryptography (`Crypto`, `Digests`), what `net.ParseIP` says of an address and the text of a CPU
-- limit (`Renderer`), `net.ParseIP` and the resolver (`Network`), the data helper of a restore
-- (`RestoreSettings`), what the health checks read of a node (`Answers`), the file system under the
-- outbox during one operation (`Disk`), the wall clock and the monotonic clock of a claim (`Clock`),
-- and the handlers that `Execute`
-- calls for inspection, backups, storage tests and restores (`Handlers`;
-- restores are modelled on their own).
--
-- Not modelled: the byte layout of archives, HTTP, process starts, timeouts (a
-- cancelled context is an error of the wait), the storage checker, leases, the S3 client, the
-- configuration. A Go map is the list of its entries in the order of iteration. Letter case and
-- white space are those of ASCII.
pub mod Prelude
pub mod Fleet
pub mod Security
pub mod Quadlet
pub mod Podman
pub mod Systemd
pub mod Rootless
pub mod Executor
pub mod Agent
pub mod Tests
