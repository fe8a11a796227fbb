-- ===== src/Lib.antt =====
-- Verification library of Yaghan, a platform that runs sandboxes in Firecracker microVMs.
--
-- The api-server keeps the sandboxes in DynamoDB and turns calls into intents; the daemon of each
-- node reconciles the microVMs of its sandboxes with these intents, gives each a network of its own
-- and resolves names for them under the sandbox's egress policy.
--
-- Base holds what the parts share: Boolean tests, lists over the native numbers, texts as lists of
-- bytes (Base.Text), association lists (Base.Dict) and decimal numerals (Base.Decimal).
-- Proto holds the messages of apis/proto/yaghan/control_plane/v1alpha1 that the parts exchange.
-- Net.Addr models netip.Addr, and Net.Allocator is daemon/pkg/network/allocator.go.
-- Dns.Matcher, Dns.PolicyStore and Dns.Handler are the files of daemon/pkg/dns of those names:
-- CompileMatcher is compile_matcher, Match is matches, ServeDNS is serve_dns, which returns the
-- list of its actions (queries sent upstream, reports to the firewall, replies) in order.
-- Db.Sandbox is api-server/pkg/db/sandbox/dynamodb/dynamodb.go: Create, Get and Update are create,
-- get and update over Db.Dynamo.Client, the interface of the DynamoDB client with the documented
-- behaviour of conditional writes as its laws; the encodings of package proto and the hash are the
-- interface Codec. Db.Sandbox.Index is list.go beside it. Db.Node is
-- api-server/pkg/db/node/dynamodb/dynamodb.go over the same client.
--
-- Service is api-server/pkg/service/sandbox.go and errors.go: PauseSandbox, ResumeSandbox,
-- DeleteSandbox and StartSnapshot are pause_sandbox, resume_sandbox, delete_sandbox and
-- start_snapshot, which read, change and write back over Db.Sandbox; CreateSandbox is
-- create_sandbox of Service.Creation, with the scheduler and the snapshots as parameters.
-- Service.Nodes is api-server/pkg/service/cluster_node.go: registerNode and applyNodePatch are
-- register_node and apply_node_patch over Db.Node; what others write meanwhile is a parameter.
-- Daemon.Reconciler is daemon/pkg/reconciler/reconciler.go with the index of VMs of
-- daemon/pkg/firecracker/impl.go: Reconcile is reconcile, boot, pause, resume, delete and snapshot
-- are boot, pause, resume, delete_vm and snapshot. The kernel, Firecracker and the snapshot store are
-- the interface Daemon.Host, also for the VM of a sandbox to which a boot attaches because it runs
-- without being in the index. Daemon.Egress holds what a sandbox's policy and resources become on
-- the host.
-- Daemon.Firewall is daemon/pkg/network/firewall/iptables.go: EnsureHost, EnsureDNSAccess and
-- ConfigureNamespace are ensure_host, ensure_dns_access and configure_namespace over Kernel, the
-- interface of iptables and ipset with their documented behaviour; Daemon.Firewall.Verdict says what
-- a list of rules does with a packet, after the manual of iptables.
-- Daemon.Controller is daemon/pkg/controller/controller.go and resync.go over Daemon.Indexer
-- (indexer.go): dispatch, processItem, processNext, markFailed and resync are dispatch, process_item,
-- process_next, mark_failed and resync. The work queue, the reconciler and the RPC clients are the
-- interface Outside; events that arrive while a pass runs are its argument. The step relation of
-- Daemon.Controller.Steps lets the goroutines' steps alternate in any order.
-- Daemon.Session is daemon/pkg/controller/session.go: Load and Save are load and save over
-- FileSystem, with package strconv's integers in Base.Integer.
-- Daemon.Firecracker is daemon/pkg/firecracker/impl.go and disk.go over Machine, the interface of
-- files, processes, the jailer and Firecracker's API: CreateMicroVM, LoadSnapshot, DeleteMicroVM,
-- Recover and attach are create_microvm, load_snapshot, delete_microvm, recover and attach of
-- Daemon.Firecracker.Provider and Launch; a boot is a sequence of steps of Daemon.Firecracker.Staging.
-- Watch.Stream is api-server/pkg/watch/providers/redis/watch.go and watcher.go: readLoop, readStream,
-- deliver and Receive are read_loop, read_stream, deliver and receive over Outside, the interface of
-- Redis and of the consumer, whose answers are those of its world at the time; others may add and
-- trim entries at any call.
-- Auth is commons/pkg/auth/authorizer.go and jwt.go: GetScopes, Check, Authorize and parseActor are
-- get_scopes, check, authorize and parse_actor; Auth.Keys is setJWTOptions of jwt.go.
-- Agent.Framing is agent/internal/framing/framing.go: Write and Read are write and read over Codec,
-- proto's Marshal and Unmarshal; read_loop is a reader that reads until the first error.
-- Agent.Guest is agent/internal/guest/server.go: stream and execCommand are stream and the relation
-- ExecCommand, which has every order in which the two readers can write; Agent.Guest.Files is
-- handleUpload, atomicWriteFile, handleDownload and readFileCapped over GuestFiles, the files of the
-- guest. Agent.Guest.Terminal is pumpToStdin, resizeTerm and detachStdio as steps of one goroutine
-- each, in any order.
-- The modules Tests run the theorems on concrete data.
--
-- Numbers are natural, but for the session id, the pid file and exit codes, which are Integers of
-- Base.Integer; the 32-bit arithmetic of the allocator keeps its wrap-around. Loops are structural.
-- Three take fuel: read_loop of Watch.Stream runs a given number of rounds, since it ends only with
-- its watcher; a resync has the hundred pages that the source allows it; and read_loop of
-- Agent.Framing is given the length of the stream and one, since a message takes at least four
-- bytes. Time is a parameter, in nanoseconds. Locks make the operations they guard atomic, and so
-- are those operations here.
--
-- Not modelled: the wrappers of AWS, gRPC, Redis, netlink and Firecracker, which are outside calls;
-- generated code; the command-line client; cancellation, the environment and the connections of the
-- guest agent; logs, and the texts of errors but for those that the guest agent reads; the pages and
-- tokens of List; the snapshot table; publishing to the watch streams and the table of watchers; the
-- stream of Connect, and the connection and timers of the daemon's controller.
pub mod Agent
pub mod Base
pub mod Net
pub mod Dns
pub mod Proto
pub mod Db
pub mod Service
pub mod Watch
pub mod Auth
pub mod Daemon
