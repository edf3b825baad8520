-- ===== src/Lib.antt =====
-- The cluster federation agent (CNF): it moves virtual machines between OpenStack clusters whose disks
-- are mirrored by Ceph RBD, hands their addresses over by BGP, elects a master node through etcd, and
-- lets the master rebalance clusters by policies. A REST API, a gRPC server, Celery tasks and commands
-- of the OpenStack command line start and show its work.
--
-- The parts and their files.
-- - cnf/migration/engine.py: Migration. `Context` has the fields of MigrationContext and of an engine
--   and the updates of the database (_transition, _fail); `Tunnel` is QEMUMigrationTunnel; `Rollback`
--   the rollbacks and abort; `Steps` what both engines share and the frame of run; `Cold` and `Live`
--   are ColdMigrationEngine and LiveMigrationEngine, a definition for each method; `Start` makes a new
--   engine and runs it. `Protocol` states the machine that both implement. `Row`, `Events`, `Stages`,
--   `ColdEvents`, `MemoryEvents`, `LiveEvents`, `Recorded`, `Outcome`, `Returns`, `Finish`, `Deletion`,
--   `Gauge`, `Promotion`, `Unpromoted`, `Reported` and `Progress` are about what they are named for;
--   `Calls`, `StepCalls`, `ColdCalls`, `LiveCalls` and `NoPromotion` about the calls of the steps.
-- - cnf/storage/ceph.py: Ceph (`Json` and `Status` for what it reads, `Sync` and `Preflight` for the
--   theorems). cnf/network/bgp.py: Bgp. cnf/openstack/client.py: OpenStack, with the floats
--   of its percentages in `Rounding`.
-- - cnf/agent/raft.py: Raft. cnf/agent/agent.py: Agent, with the registration of the own cluster and
--   the callbacks of the election; `Start` for start and stop, `Metrics` for the loop of metrics.
-- - cnf/scheduler/scheduler.py: Scheduler (`Queries` for its reads of the database, `Running` for its
--   task and flags, `Choice`, `Order`, `Measured`, `Queued` and `Mastery` for the
--   theorems).
-- - cnf/grpc/server.py: Grpc, `Control` for CNFControlServicer and `Peer` for CNFPeerServicer.
-- - cnf/api: Api, a module for each router (`Vms`, `Migrations`, `Clusters`, `Master`), and `App` for
--   the proxy and the readiness of app.py. cnf/tasks/migration_tasks.py: Tasks.
-- - cnf/osc: Osc, the client; `Commands` has a definition for each command and `Table` how an answer is
--   laid out; `Answers` are the answers of the API's handlers as a client gets them.
-- - cnf/db/models.py: Db. cnf/config.py: Config. cnf/db/session.py: Effect.Session.
--
-- How they meet. The handlers of the API and the tasks start an engine with a new context and share
-- the tables with it; an engine calls the clients of Ceph, BGP and OpenStack and the stubs of the peers;
-- the election calls the agent's callbacks, which write the node's role and tell the scheduler.
--
-- State and errors. A method is an action: a function from a state to a result, a value or an
-- exception, and the next state, which is kept when it raises. The state of a client is a World, the
-- calls made so far and the tables; that of an engine or of a node has its own fields beside it, and
-- that of a command is the requests that it has sent. What is outside (the rbd, vtysh and ip commands,
-- the OpenStack SDK, libvirt, etcd, the gRPC stubs, the broker, the JSON parser, eval, the clock, and
-- faults of the database) is the record Env of functions that may answer anything from the calls before,
-- or raise; no law of them is assumed but where a theorem says so. A session commits what its body
-- wrote, or leaves the tables as they were if the body raises or the database fails.
--
-- Bounds and fuel. The polling loops of wait_for_sync and _wait_vm_status take the seconds of their
-- timeout as fuel, which is enough since every round adds an interval of a second or more. The election
-- loop and the monitor of a live migration run for a number of rounds that is given, since they end
-- when their task is cancelled. The progress of a migration is an exact fraction where the code has a
-- float; the shares of use are rounded to 53 bits as floats are, and kept in hundredths. Where the order
-- of the policies or of the migrations is left open by their query, the environment says which comes
-- first; of two metrics or events of the same time the one that was added first comes first.
--
-- Not modelled: the servers, signals and tasks that the agent's start hands to asyncio, uvicorn and
-- gRPC; create_grpc_server and create_app, which configure those libraries; the parsers of the commands;
-- and the configuration of logging, Celery, SQLAlchemy and Alembic. Tasks that run beside an engine are
-- not interleaved with it, save the monitor of a live migration; cancellation is left out.
pub mod Osc
pub mod Prelude
pub mod Config
pub mod Db
pub mod Effect
pub mod Ceph
pub mod Agent
pub mod Bgp
pub mod OpenStack
pub mod Migration
pub mod Raft
pub mod Scheduler
pub mod Api
pub mod Tasks
pub mod Grpc
pub mod Tests
