-- ===== src/Lib.antt =====
-- drafter moves virtual machines between hosts. A peer runs a VM whose devices (kernel, disk, state,
-- memory and so on) are migrated by Silo while it runs. Its parts, as modelled here:
--
-- * Common.VmState (pkg/common/vm_state.go): whether the VM is suspended, and the function that
--   suspends it, `SuspendAndMsync`, `suspend_and_msync`.
-- * Common.DirtyManager (pkg/common/dirty_manager.go): one goroutine for each device calls
--   `PreGetDirty`, `PostGetDirty` and `PostMigrateDirty` in turn, until the device is finished. When
--   all devices are ready the VM is suspended, and when all have sent what was dirty then, authority
--   over it is transferred. The handlers are split into the segments in which they hold a lock or
--   touch one device; `Segment` names them, and `Reach` has the states that any interleaving of
--   them reaches. The set of ready devices is the list of their names, and the devices are a
--   dictionary that the handlers change in place, as the shared pointers are in the code.
-- * Common.Package (pkg/common/package.go): `ArchivePackage` and `ExtractPackage`, a package of the
--   devices' files and back.
-- * Common.MigrateTo and Common.MigrateFrom (pkg/common/migrations.go): `MigrateToPipe` makes the dirty
--   manager and hands its handlers to Silo; `MigrateFromFS` makes the schemas of a VM's devices, hands
--   them to Silo and puts each device in its place; `MigrateFromPipe` exposes what comes from elsewhere.
-- * Network.Namespace (pkg/network/namespace.go): the network namespace of a VM, its links, routes
--   and rules: `Open` and `Close`.
-- * Network.IpTable (pkg/network/ipmanager.go): the addresses that the namespaces take.
-- * Network.Nat.Namespaces (pkg/network/nat/namespaces.go): the namespaces that a process claims and
--   releases.
-- * Network.NatRules (pkg/network/nat.go): the rules of the host for all its namespaces.
-- * Network.Nat.Create (pkg/network/nat/nat.go): `CreateNAT`, which makes the namespaces in one loop,
--   with addresses from two tables, and `Close`, which releases all. The goroutine that waits for the end
--   of the context may run its `Close` part by part between the steps of the loop.
-- * Network.Forwarder (pkg/network/forwarder/forward_ports.go): `ForwardPorts` and its `Close`. The
--   ports are forwarded at the same time: each has an oracle of its own, which may answer in any way,
--   so that no order of their calls is left out, and they finish in the order that is given.
-- * Firecracker (pkg/runtimes/firecracker): Host reads what the system offers, Machine starts, closes and
--   waits for the process and speaks to its API (machine.go), Snapshot makes a VM's first snapshot
--   (snapshotter.go), Runtime is the provider with its operations, Memory copies the memory of a VM that
--   runs to Silo (runtime.go), and Vsock dials the guest (vsock/conn.go, vsock/dialer.go).
-- * Runtimes (pkg/runtimes): the interface of a runtime as a record of operations, what its users rely on as
--   a record of laws, and the empty, mock, replay and firecracker runtimes. Quiet is about any runtime
--   that has the laws, Stopped about the mock.
-- * Peer (pkg/peer/peer.go): the peer that owns the runtime and the device group: its operations, any
--   sequence of which is a life, `Lives`. The runtime and the migrations are calls.
-- * Ipc.Remote (pkg/ipc/agent_rpc.go): the goroutine that serves the agent's connections one by one, and
--   `GetRemote`, which hands out the remote of the current one through a channel: the steps of all
--   that share the channel, in any order, `Runs`.
-- * Ipc.Client (pkg/ipc/agent_client.go): the goroutine of the guest that connects to the host.
-- * Ipc.Liveness (pkg/ipc/liveness.go): the server that waits for one sign of life of a guest, as the steps of
--   `ReceiveAndClose`, its goroutine and the callers of `Close`, in any order.
-- * Utils.Padding and Utils.Loop (pkg/utils/padding.go, pkg/utils/loop.go): how block devices are padded, and
--   loop devices.
--
-- Base has what all share, Errors the sentinels of the packages: a Go error is the list of the causes
-- that `errors.Join` has put together, and nil is the empty list. Script is a Go function that makes
-- one fallible call after another and returns at the first error, with its deferred calls; Action is one
-- that changes a state too: its modules Laws, Effects and Invariants are about the calls that one has
-- made, the state that it leaves and the properties that it keeps. A call of the system or of another
-- library is named by a constructor, with its arguments, and logged; what it returns is an argument of
-- the model, an `Oracle`, that may depend on all calls before. So the theorems hold whatever the system
-- does, and where one assumes that calls succeed, it says so.
--
-- Numbers are natural numbers, with the wrap-around of uint64 and int64 written out where the code
-- computes with them; counters that grow by one in each cycle are left unbounded. Loops are over finite
-- lists, but for three that have fuel: the attempts of Resume to reach the guest have ten, of which at
-- most nine are used; the blocks of a range of memory have as many as it has bytes, since each block
-- takes at least one; and the digits of a number have as many as its successor. Where Go walks over
-- a map, the order of the walk is an argument or does not matter.
--
-- Not modelled: the log, contexts and their deadlines (a cancelled context is a call that fails, or a step
-- of its own), times and the delay between two cycles, which changes no state, and Prometheus; the link
-- between the agent's server and client, which wires panrpc to a connection; the commands under cmd, which
-- parse flags, wire the packages and measure; and the helpers of the tests.
pub mod Base
pub mod Errors
pub mod Utils
pub mod Script
pub mod Action
pub mod Common
pub mod Network
pub mod Firecracker
pub mod Runtimes
pub mod Peer
pub mod Ipc
