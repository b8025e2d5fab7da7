-- ===== src/Lib.antt =====
-- MeshLite: the node agent, its packet classifier, and the gateway between clusters.
--
-- A node runs the agent (kprobe/kprobe-userspace), which keeps a stream to the control plane Sigil.
-- What Sigil pushes goes into the certificate store and the policy cache (crates/meshlite-tls),
-- what Kubernetes reports of the pods goes into a snapshot, and after each change the
-- reconciliation writes the verdict of each pair of pods into two BPF maps. The classifier
-- (kprobe/kprobe-ebpf) reads these maps and passes or drops each outgoing packet. Conduit (conduit)
-- carries requests from one cluster to another: its egress checks the destination against the
-- policy cache and connects over mTLS to the ingress of the other cluster, which forwards to the
-- service.
--
-- Which file is about what:
--   Base, Word, HashMap, Results, Strings: what the program uses of its language and standard
--     library. Text and byte strings are lists of numbers; a HashMap is the list of its entries,
--     and code that iterates over one takes the order as a parameter, of which only `IsIteration`
--     is assumed.
--   CertStore, PolicyCache: crates/meshlite-tls/src/cert_store.rs and policy_cache.rs.
--   PodWatcher: kprobe/kprobe-userspace/src/pod_watcher.rs, as the snapshot that a list of events
--     of the watch leaves; Told says of this snapshot what is in it by the events alone, Bounded
--     that its addresses have 32 bits.
--   SigilClient: kprobe/kprobe-userspace/src/sigil_client.rs, as a machine of three states. A turn
--     of its outer loop takes what the network does (`Attempt`); Drains is about the streams,
--     Received about what a run takes from them, Progress, Turns and Recovery about sequences of
--     turns, Address about where the bootstrap connects to.
--   VerdictSync: `sync` of kprobe/kprobe-userspace/src/verdict_sync.rs, in the steps flag, clear
--     and populate. Plan and Pairs say which pair comes from which pods, Reconcile what stands in
--     the maps, Justified where each entry comes from when the map is full or addresses are shared,
--     Interrupted what stands in the map between two of its calls into the kernel, Absent why a pair
--     has no entry.
--   Bpf: the maps of the crate aya, as a record of operations with laws that ListMap fills.
--   Classifier: kprobe/kprobe-ebpf/src/main.rs. Frame says how a frame is loaded on either byte
--     order, and Filter is a filter on bytes, described without the loads, that the code
--     implements.
--   Reader: the readers of the perf buffers in kprobe/kprobe-userspace/src/main.rs. Layout is a
--     record in memory, as the classifier puts it out and as the reader takes it from a slot; Slots
--     is the task of one CPU, over the answers of aya; Reports and Frames are about what it prints
--     and sends for what the classifier decided.
--   Telemetry: telemetry.rs of kprobe/kprobe-userspace/src and of conduit/src, with the record, the
--     channel (Delivery) and the request to Trace (Post).
--   Agent: the tasks of kprobe/kprobe-userspace/src/main.rs side by side, as a step relation over
--     what they share: the pod watcher, the forwarder, the Sigil client and the reconciliation,
--     with the two channels between them. What comes from outside and what the tasks do by
--     themselves are separate relations; Reach is any interleaving of both. Startup is `main` up to
--     the start of the tasks and the readers, over the answers of aya; Queues, Freshness, Settling
--     and Enforces are about the channels, the invariant, the runs to rest, and the maps at rest;
--     Inputs is about the agent in terms of what came in, History, LastSync, Views and Moments
--     about the maps at any time, Trail about what Trace is told of the packets. A call of `sync` is
--     one step of the relation; what the classifier finds in the maps while it is at work is
--     `IsView` in Views.
--   Enforcement: the two sides of the maps together, from the policy to the packet; Accountable
--     does without conditions on the pods and on the size of the map.
--   Conduit: conduit/src. A connection is a script: what the network answers is its input, and what
--     it does is a list of actions. Host reads the head of a request, TlsConfig is tls_config.rs,
--     ClusterClient is cluster_client.rs; Egress and Ingress are the handlers of the two proxies,
--     and Gateway is main.rs with their accept loops, over the order of polls and connections.
--     Secured is about the TLS configuration that a connection uses, Crossing about the two proxies
--     in a row.
--   Tests: the definitions at inputs from the tests of the source, and the theorems at concrete
--     inputs.
--
-- Loops are recursion on the list that they consume, so that no definition has fuel. The bounds are
-- the source's own: 4096 entries of the verdict map, 16 bytes of a packet record, 32 messages in each
-- channel of the agent, 512 and 256 records in those of telemetry, 32-bit addresses and 16-bit ports with their byte order,
-- 65535 for a status code.
--
-- Parameters: the maps of aya, with their documented behaviour as the hypothesis `IsAya`, and what
-- loading and attaching the eBPF object answers; the channel of telemetry, with that of tokio as
-- the hypothesis `IsMpsc`; the loads of the packet context; PEM parsing, and what the root stores
-- and configurations of rustls and tonic accept; the watch of kube; TCP, the streams and the clock; the
-- parsers and printers of serde.
--
-- Not modelled: logging; the parsing of the command lines; Sigil, meshctl, Trace,
-- the site and the charts. A lock is held for one operation at a time:
-- between two of these, the tasks of the agent interleave in any way, while a connection of Conduit
-- is one event, which sees the caches as they are then.
mod Base
pub mod Word
pub mod HashMap
pub mod Results
pub mod Strings
pub mod Classifier
pub mod Bpf
pub mod CertStore
pub mod PolicyCache
pub mod VerdictSync
pub mod PodWatcher
pub mod SigilClient
pub mod Telemetry
pub mod Reader
pub mod Enforcement
pub mod Agent
pub mod Conduit
mod Tests
