-- ===== src/Tests/Relayed.antt =====
-- The node 10 asks for 30, which it reaches through 25.
use madaodv_ns.Protocol.Rerr
use madaodv_ns.Protocol.RecvRequest
use madaodv_ns.Protocol.RecvReply
use madaodv_ns.Neighbors
use madaodv_ns.Int
use madaodv_ns.IdCache
use madaodv_ns.Entry
use madaodv_ns.RoutingTable
use madaodv_ns.Protocol.Request
use madaodv_ns.Protocol
use madaodv_ns.Map
use madaodv_ns.Headers
use madaodv_ns.Base
use madaodv_ns.Protocol.Queue
use madaodv_ns.Protocol.Reply
use madaodv_ns.RequestQueue.{has_dst, is_expired}
use madaodv_ns.Base.{◌≡◌, refl, none, some, [], ◌∷◌, arith, ◌*◌}
use madaodv_ns.Int.{ℤ, pos, ◌*ℤ◌, ◌-ℤ◌, ◌+ℤ◌}
use madaodv_ns.Headers.{RreqHeader, RrepHeader}
use madaodv_ns.Protocol.{World, Node}
use madaodv_ns.Protocol.LeadsBack.{LeadsBack}
use madaodv_ns.Protocol.Heard.{Hears, farther}
use madaodv_ns.Protocol.Answered.{Arrives}
use madaodv_ns.Protocol.Relayed.{Passes}
use madaodv_ns.Protocol.Passed.{Forwards}
use madaodv_ns.Protocol.Asking.{ComesBack}
use madaodv_ns.Protocol.Relay.{far_reply, sent_back, IsFound, relayed_discovery}
use madaodv_ns.Protocol.Entering.{Step, entering, comes_in}
use madaodv_ns.Protocol.Handlers
use madaodv_ns.Protocol.Routes
use madaodv_ns.Map.{find}
use madaodv_ns.Protocol.{rreq_message}
use madaodv_ns.Tests.Data.{test_ns, world}
use madaodv_ns.Tests.Discovery.{later, there, asker, asked_for, between, request, may_ask}

abbrev at_relay : World
at_relay = record world { ns = record test_ns { address = λ i. 25 }; now = pos 1200 }

abbrev first : Step
first = record { w = at_relay; ttl = 3; socket = 6; iface = 25; sender = 10 }

abbrev last : Step
last = record { w = there; ttl = 2; socket = 5; iface = 30; sender = 25 }

abbrev again : Step
again = record {
  w = record at_relay { now = pos 1300 };
  ttl = 2;
  socket = 6;
  iface = 25;
  sender = 30;
}

abbrev home : Step
home = record { w = later; ttl = 1; socket = 1; iface = 10; sender = 25 }

abbrev reply : RrepHeader
reply = far_reply world 30 10 last asker asked_for

-- The relay, after it has sent the request on.
abbrev relayed : Node
relayed = elim (comes_in first (rreq_message request) between) [ none ↦ between | some n ↦ n ]

first-Hears : Hears at_relay request 25 10 (entering first between)
unfolding Base.any Base.reject Base.select Entry.default_entry Entry.flag_eq Entry.invalidate
    Entry.is_outdated Entry.make_entry Handlers.dispatch Handlers.receiver_iface
    Handlers.recv_madaodv Headers.get_ack_required Headers.get_bit Headers.get_unknown_seqno
    Headers.make_rrep Headers.set_ack_required Headers.set_bit Headers.set_gratuitous_rrep
    Headers.set_unknown_seqno Headers.to_u32 IdCache.is_duplicate IdCache.is_expired IdCache.purge
    Int.max_ℤ Map.filter_map Map.find Map.insert Map.write Neighbors.closes Neighbors.has_address
    Neighbors.is_empty Neighbors.lookup_mac_address Neighbors.make_neighbor Neighbors.purge
    Neighbors.refresh Neighbors.refresh_first Neighbors.schedule_timer Neighbors.update
    Neighbors.usable Protocol.add_route Protocol.emit Protocol.find_socket
    Protocol.is_my_own_address Protocol.lookup_route Protocol.owns Protocol.send_later
    Protocol.update_route Queue.eq_ℤ Queue.wrong_interface RecvReply.replaces RecvRequest.answer
    RecvRequest.forward_rreq RecvRequest.handle_request RecvRequest.minimal_lifetime
    RecvRequest.neighbor_entry RecvRequest.neighbor_route RecvRequest.newer_seq_no
    RecvRequest.recv_request RecvRequest.relay RecvRequest.reverse_entry RecvRequest.reverse_route
    Reply.reply_seq_no Request.ask_seqno Request.blank_rreq Request.count_if_full Request.next_ttl
    Request.search_route Request.searched_entry Rerr.handle_link_failures Rerr.update_neighbor
    Routes.update_route_to_neighbor RoutingTable.add_route RoutingTable.found
    RoutingTable.lookup_route RoutingTable.purge RoutingTable.purge_entries RoutingTable.purge_entry
    RoutingTable.reset_unless_in_search RoutingTable.update has_dst is_expired ◌*ℤ◌ ◌+ℤ◌ ◌-ℤ◌
first-Hears = record {
  table_valid = record { sorted = (omega arith, tt); keyed = (refl, tt) };
  trusted = refl;
  fresh = refl;
  small = omega arith;
  smalls = (omega arith, tt);
  quiet = refl;
  long = omega arith;
  active = omega arith;
}

farther-Hears : Hears there (farther request) 30 25 (entering last asked_for)
unfolding Base.any Base.reject Base.select Entry.default_entry Entry.flag_eq Entry.invalidate
    Entry.is_outdated Entry.make_entry Handlers.dispatch Handlers.receiver_iface
    Handlers.recv_madaodv Headers.get_ack_required Headers.get_bit Headers.get_unknown_seqno
    Headers.make_rrep Headers.set_ack_required Headers.set_bit Headers.set_gratuitous_rrep
    Headers.set_unknown_seqno Headers.to_u32 IdCache.is_duplicate IdCache.is_expired IdCache.purge
    Int.max_ℤ Map.filter_map Map.find Map.insert Map.write Neighbors.closes Neighbors.has_address
    Neighbors.is_empty Neighbors.lookup_mac_address Neighbors.make_neighbor Neighbors.purge
    Neighbors.refresh Neighbors.refresh_first Neighbors.schedule_timer Neighbors.update
    Neighbors.usable Protocol.add_route Protocol.emit Protocol.find_socket
    Protocol.is_my_own_address Protocol.lookup_route Protocol.owns Protocol.send_later
    Protocol.update_route Queue.eq_ℤ Queue.wrong_interface RecvReply.replaces RecvRequest.answer
    RecvRequest.forward_rreq RecvRequest.handle_request RecvRequest.minimal_lifetime
    RecvRequest.neighbor_entry RecvRequest.neighbor_route RecvRequest.newer_seq_no
    RecvRequest.recv_request RecvRequest.relay RecvRequest.reverse_entry RecvRequest.reverse_route
    Reply.reply_seq_no Request.ask_seqno Request.blank_rreq Request.count_if_full Request.next_ttl
    Request.search_route Request.searched_entry Rerr.handle_link_failures Rerr.update_neighbor
    Routes.update_route_to_neighbor RoutingTable.add_route RoutingTable.found
    RoutingTable.lookup_route RoutingTable.purge RoutingTable.purge_entries RoutingTable.purge_entry
    RoutingTable.reset_unless_in_search RoutingTable.update has_dst is_expired ◌*ℤ◌ ◌+ℤ◌ ◌-ℤ◌
farther-Hears = record {
  table_valid = record { sorted = (omega arith, tt); keyed = (refl, tt) };
  trusted = refl;
  fresh = refl;
  small = omega arith;
  smalls = (omega arith, tt);
  quiet = refl;
  long = omega arith;
  active = omega arith;
}

passes : Passes at_relay request 25 10 (entering first between)
unfolding Base.any Base.reject Base.select Entry.default_entry Entry.flag_eq Entry.invalidate
    Entry.is_outdated Entry.make_entry Handlers.dispatch Handlers.receiver_iface
    Handlers.recv_madaodv Headers.get_ack_required Headers.get_bit Headers.get_unknown_seqno
    Headers.make_rrep Headers.set_ack_required Headers.set_bit Headers.set_gratuitous_rrep
    Headers.set_unknown_seqno Headers.to_u32 IdCache.is_duplicate IdCache.is_expired IdCache.purge
    Int.max_ℤ Map.filter_map Map.find Map.insert Map.write Neighbors.closes Neighbors.has_address
    Neighbors.is_empty Neighbors.lookup_mac_address Neighbors.make_neighbor Neighbors.purge
    Neighbors.refresh Neighbors.refresh_first Neighbors.schedule_timer Neighbors.update
    Neighbors.usable Protocol.add_route Protocol.emit Protocol.find_socket
    Protocol.is_my_own_address Protocol.lookup_route Protocol.owns Protocol.send_later
    Protocol.update_route Queue.eq_ℤ Queue.wrong_interface RecvReply.replaces RecvRequest.answer
    RecvRequest.forward_rreq RecvRequest.handle_request RecvRequest.minimal_lifetime
    RecvRequest.neighbor_entry RecvRequest.neighbor_route RecvRequest.newer_seq_no
    RecvRequest.recv_request RecvRequest.relay RecvRequest.reverse_entry RecvRequest.reverse_route
    Reply.reply_seq_no Request.ask_seqno Request.blank_rreq Request.count_if_full Request.next_ttl
    Request.search_route Request.searched_entry Rerr.handle_link_failures Rerr.update_neighbor
    Routes.update_route_to_neighbor RoutingTable.add_route RoutingTable.found
    RoutingTable.lookup_route RoutingTable.purge RoutingTable.purge_entries RoutingTable.purge_entry
    RoutingTable.reset_unless_in_search RoutingTable.update has_dst is_expired ◌*ℤ◌ ◌+ℤ◌ ◌-ℤ◌
passes = record {
  hears = first-Hears;
  not_own = refl;
  not_origin = refl;
  not_neighbor = refl;
  unknown = refl;
}

relays : comes_in first (rreq_message request) between ≡ some relayed
unfolding Base.any Base.reject Base.select Entry.default_entry Entry.flag_eq Entry.invalidate
    Entry.is_outdated Entry.make_entry Handlers.dispatch Handlers.receiver_iface
    Handlers.recv_madaodv Headers.get_ack_required Headers.get_bit Headers.get_unknown_seqno
    Headers.make_rrep Headers.set_ack_required Headers.set_bit Headers.set_gratuitous_rrep
    Headers.set_unknown_seqno Headers.to_u32 IdCache.is_duplicate IdCache.is_expired IdCache.purge
    Int.max_ℤ Map.filter_map Map.find Map.insert Map.write Neighbors.closes Neighbors.has_address
    Neighbors.is_empty Neighbors.lookup_mac_address Neighbors.make_neighbor Neighbors.purge
    Neighbors.refresh Neighbors.refresh_first Neighbors.schedule_timer Neighbors.update
    Neighbors.usable Protocol.add_route Protocol.emit Protocol.find_socket
    Protocol.is_my_own_address Protocol.lookup_route Protocol.owns Protocol.send_later
    Protocol.update_route Queue.eq_ℤ Queue.wrong_interface RecvReply.replaces RecvRequest.answer
    RecvRequest.forward_rreq RecvRequest.handle_request RecvRequest.minimal_lifetime
    RecvRequest.neighbor_entry RecvRequest.neighbor_route RecvRequest.newer_seq_no
    RecvRequest.recv_request RecvRequest.relay RecvRequest.reverse_entry RecvRequest.reverse_route
    Reply.reply_seq_no Request.ask_seqno Request.blank_rreq Request.count_if_full Request.next_ttl
    Request.search_route Request.searched_entry Rerr.handle_link_failures Rerr.update_neighbor
    Routes.update_route_to_neighbor RoutingTable.add_route RoutingTable.found
    RoutingTable.lookup_route RoutingTable.purge RoutingTable.purge_entries RoutingTable.purge_entry
    RoutingTable.reset_unless_in_search RoutingTable.update has_dst is_expired ◌*ℤ◌ ◌+ℤ◌ ◌-ℤ◌
relays = refl

arrives : Arrives there (farther request) 30 25 5 (entering last asked_for)
unfolding Base.any Base.reject Base.select Entry.default_entry Entry.flag_eq Entry.invalidate
    Entry.is_outdated Entry.make_entry Handlers.dispatch Handlers.receiver_iface
    Handlers.recv_madaodv Headers.get_ack_required Headers.get_bit Headers.get_unknown_seqno
    Headers.make_rrep Headers.set_ack_required Headers.set_bit Headers.set_gratuitous_rrep
    Headers.set_unknown_seqno Headers.to_u32 IdCache.is_duplicate IdCache.is_expired IdCache.purge
    Int.max_ℤ Map.filter_map Map.find Map.insert Map.write Neighbors.closes Neighbors.has_address
    Neighbors.is_empty Neighbors.lookup_mac_address Neighbors.make_neighbor Neighbors.purge
    Neighbors.refresh Neighbors.refresh_first Neighbors.schedule_timer Neighbors.update
    Neighbors.usable Protocol.add_route Protocol.emit Protocol.find_socket
    Protocol.is_my_own_address Protocol.lookup_route Protocol.owns Protocol.send_later
    Protocol.update_route Queue.eq_ℤ Queue.wrong_interface RecvReply.replaces RecvRequest.answer
    RecvRequest.forward_rreq RecvRequest.handle_request RecvRequest.minimal_lifetime
    RecvRequest.neighbor_entry RecvRequest.neighbor_route RecvRequest.newer_seq_no
    RecvRequest.recv_request RecvRequest.relay RecvRequest.reverse_entry RecvRequest.reverse_route
    Reply.reply_seq_no Request.ask_seqno Request.blank_rreq Request.count_if_full Request.next_ttl
    Request.search_route Request.searched_entry Rerr.handle_link_failures Rerr.update_neighbor
    Routes.update_route_to_neighbor RoutingTable.add_route RoutingTable.found
    RoutingTable.lookup_route RoutingTable.purge RoutingTable.purge_entries RoutingTable.purge_entry
    RoutingTable.reset_unless_in_search RoutingTable.update has_dst is_expired ◌*ℤ◌ ◌+ℤ◌ ◌-ℤ◌
arrives = record { hears = farther-Hears; own = refl; listens = refl }

way : LeadsBack again.w.now reply.origin 10 25 (entering again relayed).table
unfolding Base.any Base.reject Base.select Entry.default_entry Entry.flag_eq Entry.invalidate
    Entry.is_outdated Entry.make_entry Handlers.dispatch Handlers.receiver_iface
    Handlers.recv_madaodv Headers.get_ack_required Headers.get_bit Headers.get_unknown_seqno
    Headers.make_rrep Headers.set_ack_required Headers.set_bit Headers.set_gratuitous_rrep
    Headers.set_unknown_seqno Headers.to_u32 IdCache.is_duplicate IdCache.is_expired IdCache.purge
    Int.max_ℤ Map.filter_map Map.find Map.insert Map.write Neighbors.closes Neighbors.has_address
    Neighbors.is_empty Neighbors.lookup_mac_address Neighbors.make_neighbor Neighbors.purge
    Neighbors.refresh Neighbors.refresh_first Neighbors.schedule_timer Neighbors.update
    Neighbors.usable Protocol.add_route Protocol.emit Protocol.find_socket
    Protocol.is_my_own_address Protocol.lookup_route Protocol.owns Protocol.send_later
    Protocol.update_route Queue.eq_ℤ Queue.wrong_interface RecvReply.replaces RecvRequest.answer
    RecvRequest.forward_rreq RecvRequest.handle_request RecvRequest.minimal_lifetime
    RecvRequest.neighbor_entry RecvRequest.neighbor_route RecvRequest.newer_seq_no
    RecvRequest.recv_request RecvRequest.relay RecvRequest.reverse_entry RecvRequest.reverse_route
    Reply.reply_seq_no Request.ask_seqno Request.blank_rreq Request.count_if_full Request.next_ttl
    Request.search_route Request.searched_entry Rerr.handle_link_failures Rerr.update_neighbor
    Routes.update_route_to_neighbor RoutingTable.add_route RoutingTable.found
    RoutingTable.lookup_route RoutingTable.purge RoutingTable.purge_entries RoutingTable.purge_entry
    RoutingTable.reset_unless_in_search RoutingTable.update has_dst is_expired ◌*ℤ◌ ◌+ℤ◌ ◌-ℤ◌
way = record {
  table_valid = record { sorted = (omega arith, (omega arith, tt)); keyed = (refl, (refl, tt)) };
  entry = _;
  at = refl;
  leads = record { next_hop = refl; through = refl; alive = refl };
}

forwards : Forwards again.w reply 25 30 10 25 6 (entering again relayed)
unfolding Base.any Base.reject Base.select Entry.default_entry Entry.flag_eq Entry.invalidate
    Entry.is_outdated Entry.make_entry Handlers.dispatch Handlers.receiver_iface
    Handlers.recv_madaodv Headers.get_ack_required Headers.get_bit Headers.get_unknown_seqno
    Headers.make_rrep Headers.set_ack_required Headers.set_bit Headers.set_gratuitous_rrep
    Headers.set_unknown_seqno Headers.to_u32 IdCache.is_duplicate IdCache.is_expired IdCache.purge
    Int.max_ℤ Map.filter_map Map.find Map.insert Map.write Neighbors.closes Neighbors.has_address
    Neighbors.is_empty Neighbors.lookup_mac_address Neighbors.make_neighbor Neighbors.purge
    Neighbors.refresh Neighbors.refresh_first Neighbors.schedule_timer Neighbors.update
    Neighbors.usable Protocol.add_route Protocol.emit Protocol.find_socket
    Protocol.is_my_own_address Protocol.lookup_route Protocol.owns Protocol.send_later
    Protocol.update_route Queue.eq_ℤ Queue.wrong_interface RecvReply.replaces RecvRequest.answer
    RecvRequest.forward_rreq RecvRequest.handle_request RecvRequest.minimal_lifetime
    RecvRequest.neighbor_entry RecvRequest.neighbor_route RecvRequest.newer_seq_no
    RecvRequest.recv_request RecvRequest.relay RecvRequest.reverse_entry RecvRequest.reverse_route
    Reply.reply_seq_no Request.ask_seqno Request.blank_rreq Request.count_if_full Request.next_ttl
    Request.search_route Request.searched_entry Rerr.handle_link_failures Rerr.update_neighbor
    Routes.update_route_to_neighbor RoutingTable.add_route RoutingTable.found
    RoutingTable.lookup_route RoutingTable.purge RoutingTable.purge_entries RoutingTable.purge_entry
    RoutingTable.reset_unless_in_search RoutingTable.update has_dst is_expired ◌*ℤ◌ ◌+ℤ◌ ◌-ℤ◌ way
forwards = record {
  way = way;
  settled = refl;
  newer = refl;
  no_hello = refl;
  real = refl;
  no_ack = refl;
  not_own = refl;
  lasting = omega arith;
  listens = refl;
}

comes_back : ComesBack world home.w 30 10 (sent_back reply) 10 25 asker
unfolding Base.any Base.reject Base.select Entry.default_entry Entry.flag_eq Entry.invalidate
    Entry.is_outdated Entry.make_entry Handlers.dispatch Handlers.receiver_iface
    Handlers.recv_madaodv Headers.get_ack_required Headers.get_bit Headers.get_unknown_seqno
    Headers.make_rrep Headers.set_ack_required Headers.set_bit Headers.set_gratuitous_rrep
    Headers.set_unknown_seqno Headers.to_u32 IdCache.is_duplicate IdCache.is_expired IdCache.purge
    Int.max_ℤ Map.filter_map Map.find Map.insert Map.write Neighbors.closes Neighbors.has_address
    Neighbors.is_empty Neighbors.lookup_mac_address Neighbors.make_neighbor Neighbors.purge
    Neighbors.refresh Neighbors.refresh_first Neighbors.schedule_timer Neighbors.update
    Neighbors.usable Protocol.add_route Protocol.emit Protocol.find_socket
    Protocol.is_my_own_address Protocol.lookup_route Protocol.owns Protocol.send_later
    Protocol.update_route Queue.eq_ℤ Queue.wrong_interface RecvReply.replaces RecvRequest.answer
    RecvRequest.forward_rreq RecvRequest.handle_request RecvRequest.minimal_lifetime
    RecvRequest.neighbor_entry RecvRequest.neighbor_route RecvRequest.newer_seq_no
    RecvRequest.recv_request RecvRequest.relay RecvRequest.reverse_entry RecvRequest.reverse_route
    Reply.reply_seq_no Request.ask_seqno Request.blank_rreq Request.count_if_full Request.next_ttl
    Request.search_route Request.searched_entry Rerr.handle_link_failures Rerr.update_neighbor
    Routes.update_route_to_neighbor RoutingTable.add_route RoutingTable.found
    RoutingTable.lookup_route RoutingTable.purge RoutingTable.purge_entries RoutingTable.purge_entry
    RoutingTable.reset_unless_in_search RoutingTable.update has_dst is_expired ◌*ℤ◌ ◌+ℤ◌ ◌-ℤ◌
comes_back = record {
  same = refl;
  other = refl;
  small = omega arith;
  lasting = omega arith;
  free = refl;
}

at_again : Handlers.receiver_iface again.socket relayed ≡ some again.iface
unfolding Base.any Base.reject Base.select Entry.default_entry Entry.flag_eq Entry.invalidate
    Entry.is_outdated Entry.make_entry Handlers.dispatch Handlers.receiver_iface
    Handlers.recv_madaodv Headers.get_ack_required Headers.get_bit Headers.get_unknown_seqno
    Headers.make_rrep Headers.set_ack_required Headers.set_bit Headers.set_gratuitous_rrep
    Headers.set_unknown_seqno Headers.to_u32 IdCache.is_duplicate IdCache.is_expired IdCache.purge
    Int.max_ℤ Map.filter_map Map.find Map.insert Map.write Neighbors.closes Neighbors.has_address
    Neighbors.is_empty Neighbors.lookup_mac_address Neighbors.make_neighbor Neighbors.purge
    Neighbors.refresh Neighbors.refresh_first Neighbors.schedule_timer Neighbors.update
    Neighbors.usable Protocol.add_route Protocol.emit Protocol.find_socket
    Protocol.is_my_own_address Protocol.lookup_route Protocol.owns Protocol.send_later
    Protocol.update_route Queue.eq_ℤ Queue.wrong_interface RecvReply.replaces RecvRequest.answer
    RecvRequest.forward_rreq RecvRequest.handle_request RecvRequest.minimal_lifetime
    RecvRequest.neighbor_entry RecvRequest.neighbor_route RecvRequest.newer_seq_no
    RecvRequest.recv_request RecvRequest.relay RecvRequest.reverse_entry RecvRequest.reverse_route
    Reply.reply_seq_no Request.ask_seqno Request.blank_rreq Request.count_if_full Request.next_ttl
    Request.search_route Request.searched_entry Rerr.handle_link_failures Rerr.update_neighbor
    Routes.update_route_to_neighbor RoutingTable.add_route RoutingTable.found
    RoutingTable.lookup_route RoutingTable.purge RoutingTable.purge_entries RoutingTable.purge_entry
    RoutingTable.reset_unless_in_search RoutingTable.update has_dst is_expired ◌*ℤ◌ ◌+ℤ◌ ◌-ℤ◌
at_again = refl

relayed_discovery_example :
    IsFound world 30 1 10 5 10 6 first last again home asker between relayed asked_for
unfolding find Handlers.receiver_iface
relayed_discovery_example =
    relayed_discovery world 30 1 10 5 10 25 6 first last again home asker between relayed asked_for
      may_ask refl refl passes relays refl arrives at_again forwards refl comes_back
