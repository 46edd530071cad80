-- ===== src/Lib.antt =====
-- MADAODV, a variant of the AODV routing protocol for the simulator ns-3: a node finds routes on
-- demand by flooding requests and sending replies back, keeps them in a table, and reports the
-- links that break.
--
-- The parts, and the files that model them. Paths are from the root of the repository; the C++ is
-- in model/, and a function keeps its name in snake case.
--   * Entry, RoutingTable: `RoutingTableEntry` and `RoutingTable` (model/madaodv-rtable.h,
--     model/madaodv-rtable.cc). A method takes the table and gives it back with its result.
--   * IdCache: `IdCache` and `DuplicatePacketDetection` (model/madaodv-id-cache.h,
--     model/madaodv-id-cache.cc, model/madaodv-dpd.cc).
--   * RequestQueue: the packets that wait for a route (model/madaodv-rqueue.h,
--     model/madaodv-rqueue.cc). The error callbacks that a method calls are part of its result.
--   * Neighbors: the list of neighbors (model/madaodv-neighbor.h, model/madaodv-neighbor.cc). The
--     link failure callbacks that a method calls are part of its result.
--   * Headers: the messages RREQ, RREP, RREP-ACK and RERR and their type header, and their
--     serialization in Headers/Codec (model/madaodv-packet.h, model/madaodv-packet.cc).
--   * Helper: `MadaodvHelper::AssignStreams` (helper/madaodv-helper.cc), over the routing protocols
--     of the nodes.
--   * Protocol: `RoutingProtocol` (model/madaodv-routing-protocol.h,
--     model/madaodv-routing-protocol.cc). Protocol holds its state as the record `Node`, which has
--     one of each of the components above; Protocol/Request, RreqRetry, RecvRequest, Reply,
--     RecvReply, Rerr, Hello, Queue, Routes, Handlers, RouteOutput, RouteInput, Interfaces and Setup
--     hold its methods, each a function from the node to the node; Protocol/Tag has the tag of a
--     deferred packet. A message is exchanged as its header; Protocol/Bytes has the bytes of its
--     packet, and `RecvMadaodv` on them. Protocol/Discovery and Protocol/Relay put
--     two and three nodes together to the discovery of a route, in which every message comes in
--     through `RecvMadaodv` (Protocol/Entering). Protocol/System has the events by
--     which ns-3 enters a node, `handle`, which says what each does, and `Reach`, the nodes that
--     come about from the constructor by any events; Protocol/Kept follows a property of the routing
--     table and the queue through the methods. What a method does to the world (messages, scheduled
--     calls, packets handed to callbacks) it appends to the field `trace`. A method that can fail an
--     assertion or meet undefined behaviour (an overflow of `int32_t`, a shift beyond the width)
--     gives `none` there.
-- Base, Int and Map are helpers: lists and Boolean tests, integers on the native numbers, and the
-- sorted association lists that stand for `std::map`. Tests has a small network and runs in it.
--
-- What is not code of the repository is a parameter. Ns3 lists what is taken from the IPv4 stack,
-- `World` in Protocol adds the instant `Simulator::Now()` and the random delays, `Arp` in Neighbors
-- is the caches of the ARP protocol, and Wire is the buffer of ns-3, of which the round trips need
-- `IsFaithful`: what it writes has its width and is read back. Decoding any bytes needs `Recovers`,
-- the converse; the buffer of a tag has `Keeps`. The sockets that ns-3 creates are
-- arguments of the handlers in Interfaces. Times are integers in nanoseconds, unbounded; streams of the helper are in the range of an `int64_t`. Fields of
-- 8, 16 and 32 bits wrap where the code adds to them.
--
-- Loops are recursion on the list that they run over. The loop of `SendPacketFromQueue` has fuel,
-- one more than the packets in the queue, which is enough since each round but the last takes one
-- out.
--
-- Not modelled: printing and the type ids; how ns-3 binds a socket and delivers to it; of helper/
-- all but `AssignStreams`, since it only calls the object factory; examples/ and test/.
pub mod Base
pub mod Int
pub mod Map
pub mod Ns3
pub mod Entry
pub mod RoutingTable
pub mod IdCache
pub mod Ipv4
pub mod RequestQueue
pub mod Neighbors
pub mod Wire
pub mod Headers
pub mod Helper
pub mod Protocol
pub mod Tests
