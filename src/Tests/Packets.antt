-- ===== src/Tests/Packets.antt =====
-- Packets that leave and come in at the node of Tests/Data.
use madaodv_ns.RequestQueue
use madaodv_ns.Protocol.RreqRetry
use madaodv_ns.Protocol.Request
use madaodv_ns.Protocol.Rerr
use madaodv_ns.Headers
use madaodv_ns.Protocol.Routes
use madaodv_ns.Protocol.RouteInput
use madaodv_ns.Protocol.Queue
use madaodv_ns.Protocol.Handlers
use madaodv_ns.IdCache
use madaodv_ns.Base
use madaodv_ns.RoutingTable
use madaodv_ns.Protocol.RouteOutput
use madaodv_ns.Protocol
use madaodv_ns.Map
use madaodv_ns.Entry
use madaodv_ns.Base.{ℕ, ◌≡◌, refl, true, false, Bool, Option, none, some, [], ◌∷◌, any, arith, ◌⊎◌}
use madaodv_ns.Int.{pos, ◌+ℤ◌, ◌-ℤ◌, max_ℤ}
use madaodv_ns.Ipv4.{Packet, Ipv4Header}
use madaodv_ns.Entry.{Route}
use madaodv_ns.Protocol.{World, Node, lookup_valid_route, blank}
use madaodv_ns.Protocol.Queue.{send_packet_from_queue, drain}
use madaodv_ns.Protocol.RouteOutput.{Output, SockErr, no_error, no_route_to_host, route_output}
use madaodv_ns.Protocol.RouteInput.{input_broadcast, route_input}
use madaodv_ns.Protocol.Routed.{Leaves, LeavesElsewhere, route_output_lem, route_output-refused}
use madaodv_ns.Protocol.Broadcasts.{IsDropped, input_broadcast-IsDropped}
use madaodv_ns.Protocol.Refused.{route_input-refused}
use madaodv_ns.Protocol.Ends.{drain-ends}
use madaodv_ns.Tests.Data.{test_ns, world, node}

abbrev bare : Packet
bare = record { uid = 5; deferred_tag = none; udp_port = 9 }

abbrev going_to : ℕ → Ipv4Header
going_to dst = record { source = 33; destination = dst; ttl = 64; protocol = 17 }

abbrev nowhere : Route
nowhere = record { destination = 0; gateway = 0; source = 0; output_device = 0 }

abbrev output : ℕ → ℕ → Output
output dst oif = elim (route_output world (some bare) (going_to dst) oif node) [
  | none ↦ record { node = node; packet = none; route = none; sockerr = none }
  | some o ↦ o
]

abbrev chosen : ℕ → Route
chosen dst = elim ((output dst 0).route) [ none ↦ nowhere | some r ↦ r ]

route_output_lem_example :
    ((output 60 0).sockerr ≡ some no_error)
    × Leaves world bare (going_to 60) 0 node (output 60 0) (chosen 60)
unfolding route_output RouteOutput.has_no_sockets RouteOutput.output_packet
    Protocol.lookup_valid_route RoutingTable.lookup_valid_route RoutingTable.lookup_route
    RoutingTable.found Map.find RoutingTable.purge RoutingTable.purge_entries Map.filter_map
    RoutingTable.purge_entry Entry.is_outdated ◌-ℤ◌ Entry.flag_eq RouteOutput.output_through
route_output_lem_example =
    route_output_lem world bare (going_to 60) 0 node (output 60 0) (chosen 60) refl refl

route_output-refused_example :
    ((output 60 99).sockerr ≡ some no_route_to_host)
    × ((output 60 99).packet ≡ some bare)
    × ((node.socket_addresses ≡ []) ⊎ LeavesElsewhere world 60 99 node)
unfolding route_output RouteOutput.has_no_sockets RouteOutput.output_packet
    Protocol.lookup_valid_route RoutingTable.lookup_valid_route RoutingTable.lookup_route
    RoutingTable.found Map.find RoutingTable.purge RoutingTable.purge_entries Map.filter_map
    RoutingTable.purge_entry Entry.is_outdated ◌-ℤ◌ Entry.flag_eq RouteOutput.output_through
route_output-refused_example =
    route_output-refused world bare (going_to 60) 99 node (output 60 99) refl refl

abbrev put_off : Packet
put_off = elim ((output 90 7).packet) [ none ↦ bare | some q ↦ q ]

abbrev waiting : Option (Node × Bool)
waiting = route_input world put_off (going_to 90) 3 1 none 2 node

abbrev left_waiting : Node
left_waiting = elim waiting [ none ↦ node | some (m, taken) ↦ m ]

abbrev taken_in : Node
taken_in = input_broadcast world bare (going_to 255) (pos 1) 1 (some 4) 2 node

abbrev came_again : Option (Node × Bool)
came_again = route_input world bare (going_to 255) 7 1 (some 4) 2 taken_in

abbrev again : Node
again = elim came_again [ none ↦ node | some (m, taken) ↦ m ]

input_broadcast-IsDropped_example : IsDropped taken_in again
unfolding any ◌+ℤ◌ RouteInput.takes_broadcast input_broadcast IdCache.is_duplicate_packet
    IdCache.is_duplicate IdCache.purge Base.reject RouteInput.is_control
    RouteInput.forward_broadcast Protocol.lookup_route RoutingTable.lookup_route RoutingTable.found
    Map.find RoutingTable.purge RoutingTable.purge_entries Map.filter_map RouteInput.deliver
    Protocol.emit Entry.default_entry Entry.flag_eq Entry.invalidate Entry.is_outdated
    Entry.make_entry IdCache.is_expired max_ℤ ◌-ℤ◌ Map.write Queue.eq_ℤ
    Routes.update_route_life_time Protocol.update_route RoutingTable.purge_entry
    RoutingTable.reset_unless_in_search RoutingTable.update route_input RouteOutput.has_no_sockets
    RouteInput.input_packet Protocol.is_my_own_address Protocol.owns
input_broadcast-IsDropped_example =
    input_broadcast-IsDropped world world bare bare (going_to 255) (going_to 255) (pos 1) 7 1 2
      (some 4) node again true refl (omega arith) (omega arith) refl refl refl refl refl

abbrev refused : Node
refused = elim (route_input world bare (going_to 90) 7 1 (some 4) 2 node) [
  | none ↦ node
  | some (m, taken) ↦ m
]

route_input-refused_example :
    (node.socket_addresses ≡ [])
    ⊎ (test_ns.is_multicast 90 ≡ true)
    ⊎ ((lookup_valid_route world 90 (blank world) node).1 ≡ false)
unfolding route_input RouteOutput.has_no_sockets RouteInput.input_packet Protocol.is_my_own_address
    Protocol.owns any RouteInput.takes_broadcast Queue.eq_ℤ Handlers.forwarding
    Protocol.lookup_route RoutingTable.lookup_route RoutingTable.found Map.find RoutingTable.purge
    RoutingTable.purge_entries Map.filter_map RoutingTable.purge_entry Entry.is_outdated ◌-ℤ◌
    Entry.flag_eq Entry.invalidate ◌+ℤ◌ Handlers.refuse Rerr.send_rerr_when_no_route_to_forward
    Headers.add_un_destination Headers.make_rerr Headers.get_dest_count Rerr.send_rerr_to_origin
    lookup_valid_route RoutingTable.lookup_valid_route
route_input-refused_example =
    route_input-refused world bare (going_to 90) 7 1 (some 4) 2 node refused (omega arith) refl

drain-ends_example :
    (m : Node) × (send_packet_from_queue world 60 nowhere node ≡ some m)
    × (drain world 5 60 nowhere node ≡ some m)
drain-ends_example = drain-ends world 5 60 nowhere node (omega arith)
