-- ===== src/Protocol.antt =====
-- The state of `RoutingProtocol` (model/madaodv-routing-protocol.h and
-- model/madaodv-routing-protocol.cc), and the helpers through which its handlers reach the routing
-- table, the sockets and the neighbors. A handler takes the node and gives the node after it; where
-- it can fail an assertion or meet undefined behaviour it gives `none` for that. What a handler
-- does to the world is appended to `trace`.
pub mod Routes
pub mod Request
pub mod RreqRetry
pub mod Queue
pub mod Rerr
pub mod Hello
pub mod Reply
pub mod Tag
pub mod Bytes
pub mod RecvRequest
pub mod RecvReply
pub mod Handlers
pub mod RouteOutput
pub mod RouteInput
pub mod Interfaces
pub mod Setup
pub mod After
pub mod Kept
pub mod System
pub mod Reached
pub mod Waiting
pub mod Routed
pub mod Deferred
pub mod LoopedBack
pub mod Broadcasts
pub mod Refused
pub mod Ends
pub mod Down
pub mod UpDown
pub mod Removed
pub mod Serial
pub mod Reversed
pub mod LeadsBack
pub mod Lacks
pub mod Ways
pub mod Heard
pub mod Answers
pub mod Answered
pub mod Relayed
pub mod Linked
pub mod Passing
pub mod Passed
pub mod Relay
pub mod Discovered
pub mod Settled
pub mod Asked
pub mod Entering
pub mod Smalls
pub mod Asking
pub mod Discovery
pub mod Freshness
pub mod Limits
pub mod Searched
pub mod Drain
pub mod BrokenLink
pub mod Duplicates
pub mod GivenUp
pub mod Reported
pub mod Sending
pub mod Beacons
use madaodv_ns.Base.{
  ℕ, ◌+◌, ◌%◌, Bool, true, false, Option, none, some, List, [], ◌∷◌, ◌++◌, ◌==◌, if◌then◌else◌, any,
}
use madaodv_ns.Int.{ℤ, pos, ◌+ℤ◌}
use madaodv_ns.Map.{Map}
use madaodv_ns.Map
use madaodv_ns.Ns3.{Ns3}
use madaodv_ns.Ipv4.{Packet, Ipv4Header}
use madaodv_ns.Entry.{Entry, Route, default_entry}
use madaodv_ns.RoutingTable.{RoutingTable}
use madaodv_ns.RoutingTable
use madaodv_ns.IdCache.{IdCache}
use madaodv_ns.RequestQueue.{RequestQueue, QueueEntry}
use madaodv_ns.Neighbors.{Arp, Neighbors}
use madaodv_ns.Neighbors
use madaodv_ns.Headers.{RreqHeader, RrepHeader, RrepAckHeader, RerrHeader}

-- The world at the instant of a handler: ns-3, the ARP caches, `Simulator::Now()`, the delay that
-- the k-th draw `MilliSeconds(GetInteger(0, 10))` gives, and `Time::GetMilliSeconds` with its
-- inverse `MilliSeconds`.
pub record World : Type 0 where
  pub ns : Ns3
  pub arp : Arp
  pub now : ℤ
  pub jitter : ℕ → ℤ
  pub to_ms : ℤ → ℤ
  pub of_ms : ℕ → ℤ

-- The attributes.
pub record Config : Type 0 where
  pub rreq_retries : ℕ
  pub ttl_start : ℕ
  pub ttl_increment : ℕ
  pub ttl_threshold : ℕ
  pub timeout_buffer : ℕ
  pub rreq_rate_limit : ℕ
  pub rerr_rate_limit : ℕ
  pub active_route_timeout : ℤ
  pub net_diameter : ℕ
  pub node_traversal_time : ℤ
  pub net_traversal_time : ℤ
  pub path_discovery_time : ℤ
  pub my_route_timeout : ℤ
  pub hello_interval : ℤ
  pub allowed_hello_loss : ℕ
  pub delete_period : ℤ
  pub next_hop_wait : ℤ
  pub black_list_timeout : ℤ
  pub max_queue_len : ℕ
  pub max_queue_time : ℤ
  pub destination_only : Bool
  pub gratuitous_reply : Bool
  pub enable_hello : Bool
  pub enable_broadcast : Bool

pub data Message : Type 0 where
  rreq_message : RreqHeader → Message
  rrep_message : RrepHeader → Message
  rerr_message : RerrHeader → Message
  ack_message : RrepAckHeader → Message

-- `socket->SendTo` of a message with a TTL; the same through `Simulator::Schedule` after a delay;
-- a scheduled call of `SendRequest`; a packet handed to its unicast forward callback; a queued
-- packet handed to its error callback; a packet handed to a local deliver callback with the
-- interface it came in at; and a packet handed to the error callback of `RouteInput`. Then what is
-- done to the simulator: a socket is bound to a device and an address, and asks for the TTL of what
-- it receives or does not; a socket is closed; the trace of dropped frames of a device is connected
-- to `NotifyTxError`, and disconnected; and a call of `Start` is scheduled.
pub data Action : Type 0 where
  sends : ℕ → ℕ → ℕ → Message → Action
  schedules_send : ℤ → ℕ → ℕ → ℕ → Message → Action
  schedules_request : ℤ → ℕ → Action
  forwards : ℕ → Route → Packet → Ipv4Header → Action
  fails : QueueEntry → Action
  delivers : ℕ → Packet → Ipv4Header → ℤ → Action
  rejects : ℕ → Packet → Ipv4Header → Action
  binds : ℕ → ℕ → ℕ → Bool → Action
  closes_socket : ℕ → Action
  connects_trace disconnects_trace : ℕ → Action
  schedules_start : Action

-- `m_ipv4` is set or not; `m_lo` is `lo`.
pub record Node : Type 0 where
  pub config : Config
  pub has_ipv4 : Bool
  pub lo : ℕ
  pub socket_addresses : Map ℕ
  pub socket_subnet_broadcast_addresses : Map ℕ
  pub table : RoutingTable
  pub queue : RequestQueue
  pub request_id : ℕ
  pub seq_no : ℕ
  pub rreq_id_cache : IdCache
  pub dpd : IdCache
  pub nb : Neighbors
  pub rreq_count : ℕ
  pub rerr_count : ℕ
  pub htimer : Option ℤ
  pub rreq_rate_limit_timer : Option ℤ
  pub rerr_rate_limit_timer : Option ℤ
  pub address_req_timer : Map (Option ℤ)
  pub last_bcast_time : ℤ
  pub draws : ℕ
  pub trace : List Action

infixl 5 ◌>>=◌
abbrev pub ◌>>=◌ {ℓ κ} : {A : Type ℓ} {B : Type κ} → Option A → (A → Option B) → Option B
none >>= f = none
some a >>= f = f a

unfoldable pub emit : Action → Node → Node
emit a n = record n { trace = n.trace ++ a ∷ [] }

-- `m[k] = v`.
unfoldable pub assign {ℓ} : {V : Type ℓ} → ℕ → V → Map V → Map V
assign k v m = Map.write k v (Map.insert k v m)

module _ (w : World) where
  open w use {ns, now}

  -- `RoutingTableEntry rt;`.
  abbrev pub blank : Entry
  blank = default_entry ns now

  unfoldable pub lookup_route : ℕ → Entry → Node → Node × Bool × Entry
  lookup_route id rt n =
      let (t, ok, rt') = RoutingTable.lookup_route now id rt n.table in
      (record n { table = t }, ok, rt')

  unfoldable pub lookup_valid_route : ℕ → Entry → Node → Node × Bool × Entry
  lookup_valid_route id rt n =
      let (t, ok, rt') = RoutingTable.lookup_valid_route now id rt n.table in
      (record n { table = t }, ok, rt')

  unfoldable pub add_route : Entry → Node → Node
  add_route rt n = record n { table = (RoutingTable.add_route now rt n.table).0 }

  unfoldable pub delete_route : ℕ → Node → Node
  delete_route dst n = record n { table = (RoutingTable.delete_route now dst n.table).0 }

  -- A message to one address, after a random delay.
  unfoldable pub send_later : ℕ → ℕ → ℕ → Message → Node → Node
  send_later socket destination ttl message n =
      let m = record n { draws = n.draws + 1 } in
      emit (schedules_send (w.jitter n.draws) socket destination ttl message) m

  -- The all-hosts address on a /32 interface, the subnet's broadcast address otherwise.
  unfoldable pub broadcast_address : ℕ → ℕ
  broadcast_address iface = if ns.is_host_mask iface then ns.all_hosts else ns.broadcast iface

  -- `GetNetDevice(GetInterfaceForAddress(receiver))` and `GetAddress(…, 0)`.
  abbrev pub device_of : ℕ → ℕ
  device_of receiver = ns.net_device (ns.interface_for_address receiver)

  abbrev pub iface_of : ℕ → ℕ
  iface_of receiver = ns.address (ns.interface_for_address receiver)

  -- The loop of `IsMyOwnAddress`.
  unfoldable pub owns : ℕ → Map ℕ → Bool
  owns src sockets = any (λ s. src == ns.local s.1) sockets

  unfoldable pub is_my_own_address : ℕ → Node → Bool
  is_my_own_address src n = owns src n.socket_addresses

unfoldable pub update_route : Entry → Node → Node
update_route rt n = record n { table = (RoutingTable.update rt n.table).0 }

-- The loop of `FindSocketWithInterfaceAddress` and of
-- `FindSubnetBroadcastSocketWithInterfaceAddress`.
unfoldable pub find_socket : ℕ → Map ℕ → Option ℕ
find_socket addr [] = none
find_socket addr ((socket, iface) ∷ m) = if iface == addr then some socket else find_socket addr m

unfoldable pub find_socket_with_interface_address : ℕ → Node → Option ℕ
find_socket_with_interface_address addr n = find_socket addr n.socket_addresses

unfoldable pub find_subnet_broadcast_socket_with_interface_address : ℕ → Node → Option ℕ
find_subnet_broadcast_socket_with_interface_address addr n =
    find_socket addr n.socket_subnet_broadcast_addresses
