-- ===== src/Lib.antt =====
-- Verification library for linux_net, a control plane that runs commands on network devices.
--
-- The program. A controller (`Manager`, linux_net/services/manager.py) puts jobs on Redis queues.
-- A FIFO job goes to one shared queue; a pinned job goes to its host's own queue, which a worker on
-- some node serves. A scheduler (linux_net/plugins/schedulers) selects the node for a host that has
-- none; a spawn job on the node's queue makes the node's worker (`NodeWorker`,
-- linux_net/worker/node.py) start the pinned worker. Two Redis hashes hold the shared state: the
-- node of each host, which is also the host's lock, and the record of each node. A third hash holds
-- the detached tasks (linux_net/services/rediz.py), which a supervisor
-- (linux_net/services/supervisor.py) sweeps. linux_net/models/request.py validates what users ask
-- for. linux_net/services/rpc.py is what a worker does with a job: it runs the request on a driver
-- (linux_net/plugins/drivers), manages detached tasks, and sends webhooks. A request comes in through
-- linux_net/routes/device.py, which fills in credentials from Vault and expands a bulk to a request for
-- each device; the audit of a finished job goes through a queue to an archiver, which writes to MongoDB.
--
-- The files.
--   Base: Boolean tests, lists and their parts, sums and sorting on native numbers.
--   Nodes: `NodeInfo` (linux_net/models/common.py), the exceptions (linux_net/utils/exceptions.py),
--   and what a batch selection promises.
--   Schedulers: `node_select` and `batch_node_select` of the greedy, the least-load, the
--   least-load random and the load-weighted random scheduler, one module each; Schedulers/Groups has
--   the grouping by load and the result array that the least-load ones share, and Schedulers/Contract
--   what a dispatch needs of a selection, with the schedulers that provide it.
--   Redis: a hash as an interface with the laws of its documented commands. The server is not part of
--   the repository, so clients take the interface as a parameter; Redis/Table is an instance.
--   Pids: the node worker's dict from pids to hosts. Node: `NodeWorker.add`, `remove`, `_remove`,
--   `cleanup`, the registration in `listen`, `sigchld_handler`, and `Manager._force_delete_node`.
--   Node/Pinning: a node's invariant, its preservation by each operation, and in World all nodes
--   together, through histories of their events.
--   Manager: `_check_worker_alive`, `_get_assigned_node_for_host`, `_send_job`, `_send_batch_jobs`,
--   `_try_launch_pinned_worker`, `get_node`, `get_all_nodes`. Manager/Dispatch: `dispatch_rpc_job`.
--   Manager/Bulk: `dispatch_bulk_rpc_jobs`. Manager/Execute: `execute_on_device` and
--   `execute_on_bulk_devices`.
--   Manager/Jobs: `get_job_list` with the ids by status, `cancel_job` and `kill_worker`.
--   Detached: `DetachedTaskRegistry`, the Manager's listing and clearing of tasks, and the
--   supervisor's `_check_tasks` and `_trigger_push`.
--   Detached/Manage: `manage_detached_task`, the registry part of `rpc_webhook_callback`, and
--   `query_detached_task`, `kill_detached_task` and `discover_detached_tasks` of the Manager.
--   Rpc/Execute: `execute`, with the plugins as arguments. Rpc/Callback: the webhook events of
--   `rpc_webhook_callback`, and the rounds of push jobs, their management and their callbacks.
--   Paramiko: the driver of linux_net/plugins/drivers/paramiko; Transfer has `_upload_file` and
--   `_download_file`, Session the persistent connection, Logs `_read_logs`,
--   Config the lines of `config`. Netmiko/Config: `config` of linux_net/plugins/drivers/netmiko;
--   Netmiko/Session: its persistent session; Netmiko/Send: `send`.
--   Napalm: `send` and `config` of linux_net/plugins/drivers/napalm, the latter as `configure`.
--   Audit: Masking has `mask_sensitive_data` (linux_net/utils/__init__.py), Callback
--   `rpc_audit_callback` (linux_net/services/audit.py), and Archiver `process_audit_log`,
--   `process_detached_audit` and `_prune_collection_by_count` (linux_net/worker/archiver.py); Secrecy
--   puts them together.
--   Credentials/Vault: linux_net/plugins/credentials/vault_kv: Settings the configuration and the
--   policy on paths, Cache `_read_secret`, Provider the client and `resolve`.
--   Routes/Device: linux_net/routes/device.py, from a parsed request to the Manager.
--   Webhook: `dispatch_webhook` and `_dispatch_webhook_with_retry`. Request: the validators of
--   `ExecutionRequest`. Examples: the theorems at concrete inputs.
--
-- Choices. Counts, capacities and times are natural numbers; times are in microseconds or, in
-- requests, in seconds. Python's `total_available < host_count` compares integers and is written
-- without a subtraction. `_remove` decrements a count: on a record that the node still has, a pid is
-- there to be removed, so the count is not 0. `MAX_RETRIES = 3` gives four rounds. The while loop of
-- the random scheduler runs on fuel, the hosts to place plus the nodes to draw from: a round uses up
-- one of them, and the fuel is part of what is proved of it. Random numbers are an arbitrary stream
-- below the bounds that are asked for. The loop of a transfer runs on fuel, one more than the bytes of
-- the source: each round moves a byte or more. A connection is a function that says at which write it
-- fails, a client's wait for its job the list of what each look at the job finds. Floating-point
-- numbers are a parameter of the load-weighted scheduler, with what it needs of them as hypotheses.
-- The scheduler that a dispatch uses is an arbitrary function. MongoDB, hvac's client, Vault and the
-- Redis keys that expire are parameters; JSON numbers and the fields of a connection are kept simple,
-- since the code only passes them on.
--
-- Not modelled. Failures of Redis, and changes by other processes within one dispatch or one job of a
-- node: a step of Node/Pinning/World is one whole operation. `rq` beyond the queueing of a job, the
-- JSON encoding of records, job metadata, the file lock and the deaths that `listen` registers for
-- stale workers. Of the Paramiko driver, directories, sudo, interactive commands and the shell text of
-- detached tasks; of the netmiko driver, file transfers and the monitor's loop; of the napalm
-- driver, its construction and its arguments; of the archiver, the indexes,
-- with the expiry of documents that one of them asks for, and the connection; of a monitor thread, all
-- but that it may end by itself.
-- Statistics, the list of workers, the other routes and the parsing of HTTP bodies, the pyeapi driver,
-- the templates and webhook plugins and the command line: input and output, or text for other
-- programs.
pub mod Base
pub mod Nodes
pub mod Schedulers
pub mod Redis
pub mod Pids
pub mod Node
pub mod Manager
pub mod Detached
pub mod Webhook
pub mod Request
pub mod Paramiko
pub mod Netmiko
pub mod Napalm
pub mod Rpc
pub mod Audit
pub mod Credentials
pub mod Routes
pub mod Examples
