-- ===== src/Tests/Errors.antt =====
-- A route error that comes in at the node of Tests/Data, and its HELLO timer.
use madaodv_ns.Int
use madaodv_ns.Protocol.Hello
use madaodv_ns.Base.{◌++◌, ◌≡◌, length, refl, none, some, [], ◌∷◌, any, arith}
use madaodv_ns.Int.{ℤ, pos, ◌≤ℤ◌, ◌-ℤ◌, ◌+ℤ◌}
use madaodv_ns.Map
use madaodv_ns.Entry.{flag_eq, is_outdated}
use madaodv_ns.Entry
use madaodv_ns.RoutingTable.{purge, purge_entries, purge_entry, found}
use madaodv_ns.RoutingTable
use madaodv_ns.Headers.{RerrHeader}
use madaodv_ns.Headers
use madaodv_ns.Protocol.{Node}
use madaodv_ns.Protocol
use madaodv_ns.Protocol.Rerr.{recv_error}
use madaodv_ns.Protocol.Rerr
use madaodv_ns.Protocol.Reported.{IsReported, recv_error_lem}
use madaodv_ns.Protocol.Hello.{hello_timer_expire}
use madaodv_ns.Protocol.Beacons.{hellos, hello_timer_expire_lem}
use madaodv_ns.Tests.Data.{world, node}

abbrev message : RerrHeader
message = record { flag = 0; reserved = 0; unreachable = (60, 9) ∷ (90, 1) ∷ [] }

abbrev told : Node
told = elim (recv_error world message 50 node) [ none ↦ node | some n ↦ n ]

recv_error_lem_example : IsReported ((60, 9) ∷ (90, 1) ∷ []) 50 told.table
unfolding recv_error Rerr.keep_reached Protocol.lookup_route RoutingTable.lookup_route found purge
    purge_entries purge_entry is_outdated flag_eq ◌-ℤ◌ ◌+ℤ◌ any Map.filter_map Map.find Map.insert
    Rerr.fill_rerr Rerr.reached_through Rerr.send_if_any Rerr.send_rerr_message
    Rerr.send_to_precursors Rerr.unicast_rerr Rerr.multicast_rerr Rerr.broadcast_rerr
    Rerr.collect_ifaces Rerr.suppress_rerr Rerr.invalidate_routes_with_dst
    Headers.add_un_destination Headers.make_rerr Headers.get_dest_count
    RoutingTable.get_list_of_destination_with_next_hop RoutingTable.collect_next_hop
    RoutingTable.invalidate_routes_with_dst RoutingTable.lookup_valid_route Entry.get_precursors
    Entry.is_precursor_list_empty Entry.push_missing Entry.default_entry Entry.make_entry
    Entry.invalidate Protocol.lookup_valid_route Protocol.send_later Protocol.emit
    Protocol.broadcast_address Protocol.find_socket Protocol.find_socket_with_interface_address
recv_error_lem_example =
    recv_error_lem world message 50 node told
      (omega arith, (omega arith, (omega arith, (omega arith, tt)))) refl

abbrev beaten : Node
beaten = hello_timer_expire world node

-- Two HELLOs, and the next round in a second, at 2000.
two_hellos : (length beaten.trace ≡ 2) × (beaten.htimer ≡ some (pos 2000))
unfolding hello_timer_expire Hello.send_hello Hello.broadcast_hello Protocol.send_later
    Protocol.emit ◌+ℤ◌ Int.max_ℤ ◌-ℤ◌
two_hellos = (refl, refl)

hello_timer_expire_lem_example :
    (beaten.trace ≡ [] ++ hellos world node 0 node.socket_addresses)
    × (beaten.htimer ≡ some (Int.max_ℤ (pos 1000) (pos 1000 +ℤ pos 1000)))
    × (beaten.last_bcast_time ≡ pos 0)
hello_timer_expire_lem_example = hello_timer_expire_lem world node
