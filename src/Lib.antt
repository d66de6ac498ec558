-- ===== src/Lib.antt =====
-- Verification of frr-visible, the telemetry shim that runs beside FRR on a router: it listens to
-- what the routing daemons and the kernel push, and keeps a gNMI cache and a list of convergence
-- traces up to date; and of the programs that ask the shims of a network: the path-trace exporter,
-- the topology exporter, the trace aggregator and the test client.
--
-- The program's parts, and the files that model them (Go files from the repository's root):
--   internal/ingest/fpm.go    zebra's forwarding plane manager connection. Fpm/Stream has the framing
--     and the dispatch (handle, handleNetlink), Attr the attribute walk and the MPLS label stacks
--     (forEachAttr, parseMPLSEncap, decodeMPLSStack, labelsCSV), Fpm/Nexthop the nexthop objects
--     (handleNexthop, resolveNH), Fpm/Route the routes (handleRoute, formatPrefix).
--   internal/ingest/vrf.go    the VRF names of routing tables: Vrf.
--   internal/ingest/bmp.go    bgpd's monitoring connection. Bmp/Stream has the framing, Bmp/Peer the
--     Peer Up and Peer Down messages with the VRF names that they teach (perPeer, peerState,
--     peerUpVRF), Bmp/Peer/Moved a session that is filed twice, Bmp/Race the goroutines of several connections in peerState, Bmp/Update the UPDATE
--     messages (parseUpdate, handleMP, writeVPNRoute), Bmp/Nlri the VPN routes (parseVPNNLRI,
--     formatRD, parseRTs).
--   internal/ingest/ospf.go   the OSPF adjacencies: Ospf (reconcile, parseOSPFNbrs, adjState, lc), and
--     when snapshots are taken: Ospf/Trigger (Run, runSyslog, reconcileWorker, signal).
--   internal/ingest/lldp.go   the LLDP neighbors: Lldp (reconcile, parseLLDP), and Lldp/Race
--     the two goroutines that call reconcile (Run).
--   internal/ingest/netlink.go  links, bridge FDB, MPLS table, addresses, counters: Netlink.
--   internal/state/cache.go   the cache wrapper: Cache (Update); Cache/Interleaved has the
--     calls of several ingesters interleaved.
--   internal/correlate/correlate.go  the correlator: Correlate (Emit, Run, flush, ServeHTTP).
--   internal/ingest/cgroup.go  the container's resource numbers: Cgroup (sample, readKV, readUint).
--   internal/gnmiserver/server.go  the snapshots that the shim answers: Server (Get), with
--     Server/Subscribe (Recv) and Server/Capabilities.
--   cmd/frr-visible/main.go  the entry point: Shim has what it starts and what ends the process,
--     Shim/Served what the ingesters may do to the rest, Shim/Inputs the ingesters together, and
--     Shim/Routes, Shim/Monitor, Shim/Host and Shim/Neighbors go through what each of them writes.
--   cmd/pathtrace-exporter/main.go  the hop-by-hop walk: Pathtrace (trace, parseFlows), with the
--     lookups in Pathtrace/Lookup (buildIP2Node, routeLookup, mplsLookup). Pathtrace/Forwarding has
--     the forwarding of a packet as a step relation, which the walk is compared with, and
--     Pathtrace/Render the page of metrics (render).
--   cmd/topology-exporter/main.go  the topology: Topology (render), Topology/Merge (addEdge,
--     addPseudo), Topology/Layers (the loops of the layers), Topology/Names, Topology/Paths;
--     Topology/Render prints the page.
--   cmd/trace-aggregator/main.go  the distributed traces: Aggregator (build, merge), Aggregator/Link
--     (linkKey), Aggregator/Zipkin (pushZipkin), Aggregator/Rounds (loop),
--     Aggregator/Inventory (parseInventory).
--   cmd/subtest/main.go       the test client: Subtest (parsePath, pathStr, valStr, main).
-- Exporter has what the exporters share (dissect, sval, get, parseInventory), Exporter/Clients their
-- map of clients, and Exporter/Metrics the samples that they print with fmt, together with a reader of
-- Prometheus' text format.
-- Gnmi has the messages that the ingesters build and their path builders, Wire and Text the parts of
-- Go's encoding/binary, strconv, strings and net that they call, Prelude the shared helpers, and
-- Examples the theorems at concrete inputs.
--
-- How the code corresponds to the model. An ingester is a function from its state and an input to
-- its next state and the list of its effects: the cache updates and the events that it makes, in
-- order. Nothing reads an effect back, so their order within an ingester is all there is to them.
-- A byte is a number, a slice a list; nil and the empty slice are the same list where the source
-- tests only one of them and the wire gives no other. A slice expression out of range is `panics`.
-- The goroutines of the OSPF and of the LLDP ingester are steps on a state that holds the router's
-- neighbors too, and for OSPF the datagrams in the socket; there a ghost field says whether a change
-- since vtysh's last answer went unlogged. The goroutines of the BMP connections are steps on a board
-- that they share, one step for each stretch of code between two uses of the lock. Go maps are association
-- lists; the order of a range is the order of the entries, and no theorem depends on a particular one.
-- Integers are natural numbers that the decoders keep in the width of their fields. Times and durations are in nanoseconds. A sort keeps
-- equal elements in their order, which Go leaves open.
--
-- Bounds and fuel. A loop that eats a slice runs on as much fuel as the slice has bytes: each round
-- takes one byte at least, so that is enough. The walk has 24 rounds, as in the source. resolveNH
-- runs for five rounds, as its depth check allows. The ring holds 50 traces and the event buffer
-- 1024 events, as in the source.
--
-- Parameters. The openconfig/gnmi cache is the interface GnmiCache, with three laws on what an accepted
-- notification does to a leaf, timestamps aside; Examples/Memory fills it. What the kernel answers to
-- netlink calls, what vtysh and lldpcli print after json decoding, and the clock are arguments.
--
-- Not modelled: TCP listeners, logging, HTTP and JSON encoding, and what the subscribe server of
-- openconfig/gnmi does behind Recv. Outside peerState a connection is handled as one sequence of
-- messages, without another one in between; the locks that guard single reads and writes there are
-- left out. Of the exporters and the aggregator HTTP, the pace of their loops, the environment
-- variables besides INVENTORY and FLOWS, and the dialling of the shims are left out. The tables of
-- unicode.IsPrint, the text that %g makes of a duration, what a shim answers (in each round of a walk
-- something else), the hash and the text of an instant in a Zipkin span are arguments. Addresses are
-- IPv4 text, and letters are folded as ASCII. The constructors and the setters of the ingesters are
-- part of what the entry point starts.
mod Prelude
mod Examples
pub mod Text
pub mod Gnmi
pub mod Wire
pub mod Attr
pub mod Vrf
pub mod Fpm
pub mod Cache
pub mod Bmp
pub mod Correlate
pub mod Ospf
pub mod Netlink
pub mod Lldp
pub mod Exporter
pub mod Pathtrace
pub mod Topology
pub mod Aggregator
pub mod Server
pub mod Shim
pub mod Subtest
pub mod Cgroup
