-- ===== src/Tests/System.antt =====
-- A node from its constructor on, and interfaces that come and go.
use madaodv_ns.Protocol.RreqRetry
use madaodv_ns.Protocol.Request
use madaodv_ns.Protocol.Setup
use madaodv_ns.RoutingTable
use madaodv_ns.Protocol.RouteOutput
use madaodv_ns.Neighbors
use madaodv_ns.Map
use madaodv_ns.Int
use madaodv_ns.Entry
use madaodv_ns.Base
use madaodv_ns.Protocol.Interfaces
use madaodv_ns.Protocol
use madaodv_ns.Base.{
  ℕ, ◌*◌, ◌≡◌, refl, true, false, Bool, Option, none, some, List, [], ◌∷◌, ◌++◌, arith,
}
use madaodv_ns.Int.{ℤ, pos, ◌*ℤ◌, max_ℤ}
use madaodv_ns.Map.{find}
use madaodv_ns.Entry.{Entry, valid}
use madaodv_ns.RoutingTable.{update}
use madaodv_ns.RoutingTable.Invariant.{IsValid}
use madaodv_ns.Protocol.{World, Node, Action, closes_socket}
use madaodv_ns.Protocol.Routes.{seq_diff}
use madaodv_ns.Protocol.Serial.{AgreesWith, seq_diff-AgreesWith}
use madaodv_ns.Protocol.Setup.{make_node}
use madaodv_ns.Protocol.Interfaces.{
  notify_interface_up, notify_interface_down, notify_remove_address,
}
use madaodv_ns.Protocol.System.{
  Event, sets_ipv4, starts, brings_up, requests, handle, step, Reach, made, later,
}
use madaodv_ns.Protocol.Reached.{Reach-IsValid, Reach-delete_period}
use madaodv_ns.Protocol.Down.{IsDown, notify_interface_down_lem}
use madaodv_ns.Protocol.UpDown.{notify_interface_up_down}
use madaodv_ns.Protocol.Removed.{Lingers, notify_remove_address_lem}
use madaodv_ns.Tests.Data.{test_ns, test_entry, world, node}

abbrev tenths : ℕ → ℤ
tenths n = pos (100 * n)

abbrev ms : ℕ → ℤ
ms n = pos n

-- The loopback is the only interface.
abbrev alone : World
alone = record world { ns = record test_ns { address = λ i. 127 } }

abbrev fresh : Node
fresh = make_node tenths ms true

abbrev goes : World → Event → Node → Node
goes w e n = elim (handle w e n) [ none ↦ fresh | some m ↦ m ]

abbrev attached : Node
attached = goes alone sets_ipv4 fresh

abbrev started : Node
started = goes world starts attached

abbrev up : Node
up = goes world (brings_up 1 5 6) started

abbrev asking : Node
asking = goes world (requests 60) up

reach_attached : Reach tenths ms attached
unfolding handle Setup.set_ipv4 make_node
reach_attached = later (made true) (step {n = fresh} {m = attached} alone sets_ipv4 refl)

reach_started : Reach tenths ms started
unfolding handle
reach_started = later reach_attached (step {n = attached} {m = started} world starts refl)

reach_up : Reach tenths ms up
unfolding handle notify_interface_up Interfaces.listen_on Interfaces.open_socket
    Interfaces.open_broadcast_socket
reach_up = later reach_started (step {n = started} {m = up} world (brings_up 1 5 6) refl)

reach_asking : Reach tenths ms asking
unfolding handle Request.send_request notify_interface_up Interfaces.listen_on
    Interfaces.open_socket Interfaces.open_broadcast_socket Interfaces.watch_losses Protocol.emit
    Interfaces.use_arp_cache Interfaces.add_broadcast_route Protocol.add_route Setup.start
    Setup.set_ipv4 make_node Setup.initial_config Request.originate_request
    RreqRetry.schedule_rreq_retry RreqRetry.retry_delay Protocol.lookup_route
    RoutingTable.lookup_route RoutingTable.found find RoutingTable.purge RoutingTable.purge_entries
    Map.filter_map Request.broadcast_rreq Request.search_route RoutingTable.add_route Map.insert
    RoutingTable.empty_table RoutingTable.purge_entry Entry.is_outdated Int.◌-ℤ◌
    RoutingTable.reset_unless_in_search Entry.flag_eq Entry.make_entry Int.◌+ℤ◌ Protocol.send_later
    Request.count_if_full ◌*ℤ◌
reach_asking = later reach_up (step {n = up} {m = asking} world (requests 60) refl)

Reach-IsValid_example : IsValid asking.table
Reach-IsValid_example = Reach-IsValid tenths ms asking reach_asking

Reach-delete_period_example : asking.table.bad_link_lifetime ≡ 5 *ℤ max_ℤ (pos 3000) (pos 1000)
Reach-delete_period_example = Reach-delete_period tenths ms asking reach_asking

-- Both addresses have both sockets.
abbrev full : Node
full = record node { socket_subnet_broadcast_addresses = (3, 10) ∷ (4, 20) ∷ [] }

abbrev down : Node
down = elim (notify_interface_down world 1 full) [ none ↦ node | some m ↦ m ]

notify_interface_down_lem_example : IsDown 10 full down
unfolding notify_interface_down Interfaces.ignore_losses Protocol.find_socket_with_interface_address
    Protocol.find_socket Protocol.emit Protocol.find_subnet_broadcast_socket_with_interface_address
    Interfaces.close_socket
notify_interface_down_lem_example = notify_interface_down_lem world 1 full down refl

-- One address has its sockets.
abbrev half : Node
half = record node {
  socket_addresses = (2, 20) ∷ [];
  socket_subnet_broadcast_addresses = (4, 20) ∷ [];
}

abbrev half_up : Node
half_up = elim (notify_interface_up world 1 5 6 half) [ none ↦ node | some m ↦ m ]

abbrev half_down : Node
half_down = elim (notify_interface_down world 1 half_up) [ none ↦ node | some m ↦ m ]

notify_interface_up_down_example :
    (half_down.socket_addresses ≡ half.socket_addresses)
    × (half_down.socket_subnet_broadcast_addresses ≡ half.socket_subnet_broadcast_addresses)
unfolding Protocol.find_socket_with_interface_address Protocol.find_socket
    Protocol.find_subnet_broadcast_socket_with_interface_address find notify_interface_up
    Interfaces.listen_on Interfaces.open_socket Interfaces.open_broadcast_socket
    notify_interface_down Interfaces.ignore_losses Protocol.emit Interfaces.watch_losses
    Interfaces.use_arp_cache Interfaces.add_broadcast_route Protocol.add_route Map.insert
    Interfaces.close_socket Base.reject Entry.flag_eq Entry.invalidate Entry.is_outdated
    Entry.make_entry Int.◌+ℤ◌ Int.◌-ℤ◌ Map.erase Map.filter_map Neighbors.add_arp_cache
    Neighbors.clear Neighbors.del_arp_cache Interfaces.close_broadcast_socket
    Interfaces.delete_all_routes_from_interface Interfaces.fall_silent RouteOutput.has_no_sockets
    RoutingTable.add_route RoutingTable.clear RoutingTable.delete_all_routes_from_interface
    RoutingTable.purge RoutingTable.purge_entries RoutingTable.purge_entry
    RoutingTable.reset_unless_in_search
notify_interface_up_down_example =
    notify_interface_up_down world world 1 5 6 half half_up half_down refl refl refl refl refl refl
      refl refl

abbrev removed : Node
removed = elim (notify_remove_address world 1 10 5 6 full) [ none ↦ node | some m ↦ m ]

notify_remove_address_lem_example : Lingers 10 3 1 full removed
unfolding Protocol.find_subnet_broadcast_socket_with_interface_address Protocol.find_socket
    Protocol.find_socket_with_interface_address notify_remove_address Interfaces.leave_address
    Interfaces.listen_on Interfaces.open_socket Interfaces.open_broadcast_socket
notify_remove_address_lem_example =
    notify_remove_address_lem world 1 10 5 6 3 1 full removed (omega arith, (omega arith, tt)) refl
      refl refl

seq_diff-AgreesWith_example : AgreesWith 5 4294967290 (seq_diff 5 4294967290)
seq_diff-AgreesWith_example = seq_diff-AgreesWith 5 4294967290 (omega arith) (omega arith)

abbrev near : Entry
near = test_entry 50 51 6 2 valid (pos 5000)

abbrev far : Entry
far = test_entry 60 51 9 3 valid (pos 5000)
