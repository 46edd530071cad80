-- ===== src/Tests/Waiting.antt =====
-- A node from its constructor to two packets that wait for a route.
use madaodv_ns.Protocol.RreqRetry
use madaodv_ns.Protocol.Request
use madaodv_ns.Int
use madaodv_ns.Entry
use madaodv_ns.RoutingTable
use madaodv_ns.RequestQueue
use madaodv_ns.Protocol.Queue
use madaodv_ns.Protocol.Handlers
use madaodv_ns.Base
use madaodv_ns.Protocol.RouteOutput
use madaodv_ns.Protocol.RouteInput
use madaodv_ns.Protocol
use madaodv_ns.Map
use madaodv_ns.Protocol.Setup
use madaodv_ns.Protocol.Interfaces
use madaodv_ns.Base.{
  ℕ, ◌*◌, ◌≤◌, ◌<◌, ◌≡◌, refl, true, Option, none, some, List, [], ◌∷◌, length, any, arith,
}
use madaodv_ns.Int.{ℤ, pos}
use madaodv_ns.Ipv4.{Packet, Ipv4Header}
use madaodv_ns.RequestQueue.{QueueEntry}
use madaodv_ns.RequestQueue.Once.{IsOnce}
use madaodv_ns.Protocol.{World, Node}
use madaodv_ns.Protocol.Setup.{make_node}
use madaodv_ns.Protocol.System.{
  Event, configures_queue_len, sets_ipv4, brings_up, inputs, handle, step, Reach, made, later,
}
use madaodv_ns.Protocol.Waiting.{Fits, Reach-IsOnce, Reach-Fits}
use madaodv_ns.Tests.Data.{test_ns, world}

abbrev tenths : ℕ → ℤ
tenths n = pos (100 * n)

abbrev ms : ℕ → ℤ
ms n = pos n

abbrev alone : World
alone = record world { ns = record test_ns { address = λ i. 127 } }

abbrev packet : ℕ → Packet
packet uid = record { uid = uid; deferred_tag = some (pos 1); udp_port = 9 }

abbrev to_60 : Ipv4Header
to_60 = record { source = 10; destination = 60; ttl = 64; protocol = 17 }

-- The packet comes back from the loopback device.
abbrev loops : ℕ → Event
loops uid = inputs (packet uid) to_60 7 1 none 2

abbrev fresh : Node
fresh = make_node tenths ms true

abbrev goes : World → Event → Node → Node
goes w e n = elim (handle w e n) [ none ↦ fresh | some m ↦ m ]

abbrev limited : Node
limited = goes world (configures_queue_len 2) fresh

abbrev attached : Node
attached = goes alone sets_ipv4 limited

abbrev up : Node
up = goes world (brings_up 1 5 6) attached

abbrev one_waits : Node
one_waits = goes world (loops 5) up

abbrev two_wait : Node
two_wait = goes world (loops 6) one_waits

abbrev waiting : Node → List QueueEntry
waiting n = let q = n.queue in q.queue

is_limited : handle world (configures_queue_len 2) fresh ≡ some limited
unfolding handle
is_limited = refl

is_attached : handle alone sets_ipv4 limited ≡ some attached
unfolding handle Setup.set_ipv4 Setup.configure_queue_len make_node
is_attached = refl

is_up : handle world (brings_up 1 5 6) attached ≡ some up
unfolding handle Interfaces.notify_interface_up Interfaces.listen_on Interfaces.open_socket
    Interfaces.open_broadcast_socket
is_up = refl

one_enters : handle world (loops 5) up ≡ some one_waits
unfolding handle RouteInput.route_input RouteOutput.has_no_sockets Interfaces.notify_interface_up
    Interfaces.listen_on Interfaces.open_socket Interfaces.open_broadcast_socket
    Interfaces.watch_losses Protocol.emit Interfaces.use_arp_cache Interfaces.add_broadcast_route
    Protocol.add_route Map.insert Setup.set_ipv4 Setup.configure_queue_len make_node
    RouteInput.input_deferred Handlers.deferred_route_output RequestQueue.enqueue any
    RequestQueue.purge Base.reject RequestQueue.set_max_queue_len Setup.make_request_queue
    RequestQueue.place Handlers.await_route Protocol.lookup_route RoutingTable.lookup_route
    RoutingTable.found Map.find RoutingTable.purge RoutingTable.purge_entries Map.filter_map
    Queue.fail_all RoutingTable.add_route RoutingTable.empty_table RoutingTable.purge_entry
    Entry.is_outdated Int.◌-ℤ◌ RoutingTable.reset_unless_in_search Entry.flag_eq Entry.make_entry
    Int.◌+ℤ◌ Request.send_request Setup.initial_config Request.originate_request
    RreqRetry.schedule_rreq_retry RreqRetry.retry_delay Request.broadcast_rreq Request.search_route
    Protocol.send_later Request.count_if_full Int.◌*ℤ◌
one_enters = refl

two_enter : handle world (loops 6) one_waits ≡ some two_wait
unfolding handle RouteInput.route_input RouteOutput.has_no_sockets Interfaces.notify_interface_up
    Interfaces.listen_on Interfaces.open_socket Interfaces.open_broadcast_socket
    Interfaces.watch_losses Protocol.emit Interfaces.use_arp_cache Interfaces.add_broadcast_route
    Protocol.add_route Map.insert Setup.set_ipv4 Setup.configure_queue_len make_node
    RouteInput.input_deferred Handlers.deferred_route_output RequestQueue.enqueue any
    RequestQueue.purge Base.reject RequestQueue.set_max_queue_len Setup.make_request_queue
    RequestQueue.place Handlers.await_route Protocol.lookup_route RoutingTable.lookup_route
    RoutingTable.found Map.find RoutingTable.purge RoutingTable.purge_entries Map.filter_map
    Queue.fail_all RoutingTable.add_route RoutingTable.empty_table RoutingTable.purge_entry
    Entry.is_outdated Int.◌-ℤ◌ RoutingTable.reset_unless_in_search Entry.flag_eq Entry.make_entry
    Int.◌+ℤ◌ Request.send_request Setup.initial_config Request.originate_request
    RreqRetry.schedule_rreq_retry RreqRetry.retry_delay Request.broadcast_rreq Request.search_route
    Protocol.send_later Request.count_if_full Int.◌*ℤ◌ RequestQueue.is_expired
    RequestQueue.same_packet RequestQueue.make_queue_entry
two_enter = refl

abbrev path : Reach tenths ms two_wait
path =
    later
      (later
        (later
          (later
            (later (made true)
              (step {n = fresh} {m = limited} world (configures_queue_len 2) is_limited))
            (step {n = limited} {m = attached} alone sets_ipv4 is_attached))
          (step {n = attached} {m = up} world (brings_up 1 5 6) is_up))
        (step {n = up} {m = one_waits} world (loops 5) one_enters))
      (step {n = one_waits} {m = two_wait} world (loops 6) two_enter)

two_are_queued : length (waiting two_wait) ≡ 2
unfolding handle RouteInput.route_input RouteOutput.has_no_sockets Interfaces.notify_interface_up
    Interfaces.listen_on Interfaces.open_socket Interfaces.open_broadcast_socket
    Interfaces.watch_losses Protocol.emit Interfaces.use_arp_cache Interfaces.add_broadcast_route
    Protocol.add_route Map.insert Setup.set_ipv4 Setup.configure_queue_len make_node
    RouteInput.input_deferred Handlers.deferred_route_output RequestQueue.enqueue any
    RequestQueue.purge Base.reject RequestQueue.set_max_queue_len Setup.make_request_queue
    RequestQueue.place Handlers.await_route Protocol.lookup_route RoutingTable.lookup_route
    RoutingTable.found Map.find RoutingTable.purge RoutingTable.purge_entries Map.filter_map
    Queue.fail_all RoutingTable.add_route RoutingTable.empty_table RoutingTable.purge_entry
    Entry.is_outdated Int.◌-ℤ◌ RoutingTable.reset_unless_in_search Entry.flag_eq Entry.make_entry
    Int.◌+ℤ◌ Request.send_request Setup.initial_config Request.originate_request
    RreqRetry.schedule_rreq_retry RreqRetry.retry_delay Request.broadcast_rreq Request.search_route
    Protocol.send_later Request.count_if_full Int.◌*ℤ◌ RequestQueue.is_expired
    RequestQueue.same_packet RequestQueue.make_queue_entry
two_are_queued = refl

Reach-IsOnce_example : IsOnce (waiting two_wait)
Reach-IsOnce_example = Reach-IsOnce tenths ms two_wait path

Reach-Fits_example : Fits two_wait.queue
unfolding make_node Setup.make_request_queue
Reach-Fits_example =
    Reach-Fits tenths ms two_wait path (tt, (tt, (tt, (tt, ((omega arith, omega arith), tt)))))
