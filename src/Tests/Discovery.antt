-- ===== src/Tests/Discovery.antt =====
-- A node with the address 10 asks its neighbor 30 for a route.
use madaodv_ns.Protocol.RecvRequest
use madaodv_ns.Neighbors
use madaodv_ns.Base
use madaodv_ns.RoutingTable
use madaodv_ns.Protocol.Request
use madaodv_ns.Protocol.Reply
use madaodv_ns.Map
use madaodv_ns.IdCache
use madaodv_ns.Entry
use madaodv_ns.Protocol.Queue
use madaodv_ns.Protocol
use madaodv_ns.Headers
use madaodv_ns.Base.{
  ℕ, ◌+◌, ◌%◌, ◌≡◌, refl, true, false, Option, none, some, [], ◌∷◌, any, reject, arith,
}
use madaodv_ns.Int.{pos, ◌-ℤ◌, ◌+ℤ◌, ◌*ℤ◌}
use madaodv_ns.Map.{Map, find}
use madaodv_ns.Entry.{Entry, valid, in_search}
use madaodv_ns.RoutingTable.{RoutingTable, purge, purge_entries}
use madaodv_ns.RoutingTable.Agrees.{Agrees}
use madaodv_ns.RoutingTable.Invariant.{IsValid}
use madaodv_ns.RequestQueue.{has_dst, is_expired}
use madaodv_ns.Headers.{RreqHeader, RrepHeader}
use madaodv_ns.Protocol.{World, Node}
use madaodv_ns.Protocol.RecvRequest.{recv_request}
use madaodv_ns.Protocol.RecvReply.{recv_reply, reply_entry}
use madaodv_ns.Protocol.Searched.{IsRing}
use madaodv_ns.Protocol.Answers.{reply_header}
use madaodv_ns.Protocol.Heard.{Hears}
use madaodv_ns.Protocol.Relayed.{Passes, Relayed, recv_request-Relayed}
use madaodv_ns.Protocol.Answered.{Arrives, Answered, recv_request-Answered}
use madaodv_ns.Protocol.Discovered.{Awaits, released, recv_reply-released}
use madaodv_ns.Protocol.Routes
use madaodv_ns.Protocol.Handlers
use madaodv_ns.Protocol.Entering.{Step, entering}
use madaodv_ns.Protocol.Asking.{MayAsk, ComesBack, request_from, hopped}
use madaodv_ns.Protocol.Discovery.{IsDiscovered, discovery}
use madaodv_ns.Tests.Data.{test_ns, test_neighbors, test_queue, test_entry, queued, world, node}
use madaodv_ns.Tests.Components.{test_table-IsValid}

abbrev pub later : World
later = record world { now = pos 1500 }

-- The world of the node with the address 30.
abbrev pub there : World
there = record world { ns = record test_ns { address = λ i. 30 }; now = pos 1200 }

abbrev pub asker : Node
asker = record node {
  socket_addresses = (1, 10) ∷ [];
  table = record { entries = []; bad_link_lifetime = pos 15000 };
  queue = record test_queue { queue = queued 4 30 (pos 9000) ∷ [] };
}

abbrev pub asked_for : Node
asked_for = record node {
  socket_addresses = (5, 30) ∷ [];
  table = record { entries = []; bad_link_lifetime = pos 15000 };
  nb = record test_neighbors { nb = [] };
  trace = [];
}

ring : IsRing node.config
ring = record { diameter_u16 = omega arith; threshold_le = omega arith; start_le = omega arith }

pub may_ask : MayAsk world 30 asker
may_ask = record {
  under_limit = refl;
  table_valid = record { sorted = tt; keyed = tt };
  smalls = tt;
  timers_sorted = (omega arith, tt);
  ring = ring;
  few = λ e h. absurd (unfold purge purge_entries Map.filter_map Map.find in ground (arith, h));
}

abbrev pub request : RreqHeader
request = request_from world 30 10 asker

hears : (m : Map ℕ) → Hears there request 30 10 (record asked_for { socket_addresses = m })
unfolding find RoutingTable.purge RoutingTable.purge_entries Map.filter_map IdCache.is_duplicate any
    IdCache.purge reject Protocol.is_my_own_address Protocol.owns Headers.set_gratuitous_rrep
    Request.search_route Protocol.lookup_route RoutingTable.lookup_route RoutingTable.found
    Headers.set_unknown_seqno Protocol.find_socket Entry.default_entry Entry.flag_eq
    Entry.invalidate Entry.is_outdated Entry.make_entry Headers.set_bit IdCache.is_expired ◌+ℤ◌ ◌-ℤ◌
    Map.insert Map.write Request.ask_seqno Request.count_if_full Request.next_ttl
    Request.searched_entry Protocol.add_route Protocol.update_route RoutingTable.add_route
    RoutingTable.purge_entry RoutingTable.reset_unless_in_search RoutingTable.update
    Neighbors.update Neighbors.refresh_first Neighbors.purge Neighbors.is_empty Base.select
    Neighbors.closes Neighbors.make_neighbor ◌*ℤ◌ RecvRequest.minimal_lifetime Request.blank_rreq
hears m = record {
  table_valid = record { sorted = tt; keyed = tt };
  trusted = tt;
  fresh = refl;
  small = omega arith;
  smalls = tt;
  quiet = refl;
  long = omega arith;
  active = omega arith;
}

arrives : Arrives there request 30 10 5 asked_for
unfolding find RoutingTable.purge RoutingTable.purge_entries Map.filter_map IdCache.is_duplicate any
    IdCache.purge reject Protocol.is_my_own_address Protocol.owns Headers.set_gratuitous_rrep
    Request.search_route Protocol.lookup_route RoutingTable.lookup_route RoutingTable.found
    Headers.set_unknown_seqno Protocol.find_socket Entry.default_entry Entry.flag_eq
    Entry.invalidate Entry.is_outdated Entry.make_entry Headers.set_bit IdCache.is_expired ◌+ℤ◌ ◌-ℤ◌
    Map.insert Map.write Request.ask_seqno Request.count_if_full Request.next_ttl
    Request.searched_entry Protocol.add_route Protocol.update_route RoutingTable.add_route
    RoutingTable.purge_entry RoutingTable.reset_unless_in_search RoutingTable.update
    Neighbors.update Neighbors.refresh_first Neighbors.purge Neighbors.is_empty Base.select
    Neighbors.closes Neighbors.make_neighbor ◌*ℤ◌ RecvRequest.minimal_lifetime Request.blank_rreq
arrives = record { hears = hears ((5, 30) ∷ []); own = refl; listens = refl }

-- The same node with another address, which does not know 30.
abbrev pub between : Node
between = record asked_for { socket_addresses = (6, 25) ∷ [] }

passes : Passes there request 30 10 between
unfolding find RoutingTable.purge RoutingTable.purge_entries Map.filter_map IdCache.is_duplicate any
    IdCache.purge reject Protocol.is_my_own_address Protocol.owns Headers.set_gratuitous_rrep
    Request.search_route Protocol.lookup_route RoutingTable.lookup_route RoutingTable.found
    Headers.set_unknown_seqno Protocol.find_socket Entry.default_entry Entry.flag_eq
    Entry.invalidate Entry.is_outdated Entry.make_entry Headers.set_bit IdCache.is_expired ◌+ℤ◌ ◌-ℤ◌
    Map.insert Map.write Request.ask_seqno Request.count_if_full Request.next_ttl
    Request.searched_entry Protocol.add_route Protocol.update_route RoutingTable.add_route
    RoutingTable.purge_entry RoutingTable.reset_unless_in_search RoutingTable.update
    Neighbors.update Neighbors.refresh_first Neighbors.purge Neighbors.is_empty Base.select
    Neighbors.closes Neighbors.make_neighbor ◌*ℤ◌ RecvRequest.minimal_lifetime Request.blank_rreq
passes = record {
  hears = hears ((6, 25) ∷ []);
  not_own = refl;
  not_origin = refl;
  not_neighbor = refl;
  unknown = refl;
}

recv_request-Relayed_example :
    (n' : Node) × (recv_request there 3 request 30 10 between ≡ some n')
    × Relayed there 3 request 30 10 between n'
recv_request-Relayed_example = recv_request-Relayed there 3 request 30 10 between passes

abbrev pub goes : Step
goes = record { w = there; ttl = 1; socket = 5; iface = 30; sender = 10 }

abbrev returns : Step
returns = record { w = later; ttl = 1; socket = 1; iface = 10; sender = 30 }

-- The request comes in through `RecvMadaodv`, which makes the route to 10.
entered-Hears : Hears there request 30 10 (entering goes asked_for)
unfolding find RoutingTable.purge RoutingTable.purge_entries Map.filter_map IdCache.is_duplicate any
    IdCache.purge reject Protocol.is_my_own_address Protocol.owns Headers.set_gratuitous_rrep
    Request.search_route Protocol.lookup_route RoutingTable.lookup_route RoutingTable.found
    Headers.set_unknown_seqno Protocol.find_socket Entry.default_entry Entry.flag_eq
    Entry.invalidate Entry.is_outdated Entry.make_entry Headers.set_bit IdCache.is_expired ◌+ℤ◌ ◌-ℤ◌
    Map.insert Map.write Request.ask_seqno Request.count_if_full Request.next_ttl
    Request.searched_entry Protocol.add_route Protocol.update_route RoutingTable.add_route
    RoutingTable.purge_entry RoutingTable.reset_unless_in_search RoutingTable.update
    Neighbors.update Neighbors.refresh_first Neighbors.purge Neighbors.is_empty Base.select
    Neighbors.closes Neighbors.make_neighbor ◌*ℤ◌ RecvRequest.minimal_lifetime Request.blank_rreq
    Routes.update_route_to_neighbor
entered-Hears = record {
  table_valid = record { sorted = (omega arith, tt); keyed = (refl, tt) };
  trusted = refl;
  fresh = refl;
  small = omega arith;
  smalls = (omega arith, tt);
  quiet = refl;
  long = omega arith;
  active = omega arith;
}

entered-Arrives : Arrives there request 30 10 5 (entering goes asked_for)
unfolding find RoutingTable.purge RoutingTable.purge_entries Map.filter_map IdCache.is_duplicate any
    IdCache.purge reject Protocol.is_my_own_address Protocol.owns Headers.set_gratuitous_rrep
    Request.search_route Protocol.lookup_route RoutingTable.lookup_route RoutingTable.found
    Headers.set_unknown_seqno Protocol.find_socket Entry.default_entry Entry.flag_eq
    Entry.invalidate Entry.is_outdated Entry.make_entry Headers.set_bit IdCache.is_expired ◌+ℤ◌ ◌-ℤ◌
    Map.insert Map.write Request.ask_seqno Request.count_if_full Request.next_ttl
    Request.searched_entry Protocol.add_route Protocol.update_route RoutingTable.add_route
    RoutingTable.purge_entry RoutingTable.reset_unless_in_search RoutingTable.update
    Neighbors.update Neighbors.refresh_first Neighbors.purge Neighbors.is_empty Base.select
    Neighbors.closes Neighbors.make_neighbor ◌*ℤ◌ RecvRequest.minimal_lifetime Request.blank_rreq
    Routes.update_route_to_neighbor
entered-Arrives = record { hears = entered-Hears; own = refl; listens = refl }

comes_back :
    ComesBack world later 30 10 (reply_header there request (entering goes asked_for)) 10 30 asker
unfolding Headers.make_rrep Reply.reply_seq_no Headers.get_unknown_seqno Headers.get_bit
    Headers.set_gratuitous_rrep Headers.set_bit Request.search_route Protocol.lookup_route
    RoutingTable.lookup_route RoutingTable.found find RoutingTable.purge RoutingTable.purge_entries
    Map.filter_map Headers.set_unknown_seqno Request.blank_rreq any Entry.default_entry
    Entry.flag_eq Entry.invalidate Entry.is_outdated Entry.make_entry Headers.to_u32 ◌+ℤ◌ ◌-ℤ◌
    Map.insert Map.write Request.ask_seqno Request.count_if_full Request.next_ttl
    Request.searched_entry Protocol.add_route Protocol.update_route RoutingTable.add_route
    RoutingTable.purge_entry RoutingTable.reset_unless_in_search RoutingTable.update reject
    is_expired has_dst Queue.wrong_interface Queue.eq_ℤ IdCache.is_duplicate IdCache.purge
    Protocol.is_my_own_address Protocol.owns Protocol.find_socket IdCache.is_expired
    Neighbors.update Neighbors.refresh_first Neighbors.purge Neighbors.is_empty Base.select
    Neighbors.closes Neighbors.make_neighbor ◌*ℤ◌ RecvRequest.minimal_lifetime
    Routes.update_route_to_neighbor
comes_back = record {
  same = refl;
  other = refl;
  small = omega arith;
  lasting = omega arith;
  free = refl;
}

recv_request-Answered_example :
    (n' : Node) × (recv_request there 3 request 30 10 asked_for ≡ some n')
    × Answered there request 30 10 5 asked_for n'
recv_request-Answered_example = recv_request-Answered there 3 request 30 10 5 asked_for arrives

discovery_example : IsDiscovered world 30 1 10 5 goes returns asker asked_for
unfolding find Handlers.receiver_iface
discovery_example =
    discovery world 30 1 10 5 goes returns asker asked_for may_ask refl refl entered-Arrives refl
      comes_back

-- The reply for 80, from 50.
abbrev reply : RrepHeader
reply = record {
  flags = 0;
  prefix_size = 0;
  hop_count = 2;
  dst = 80;
  dst_seq_no = 6;
  origin = 10;
  life_time = 4000;
}

awaits : Awaits world reply 10 50 node
unfolding find Headers.get_ack_required Headers.get_bit Protocol.is_my_own_address Protocol.owns any
    reject is_expired ◌-ℤ◌ has_dst Queue.wrong_interface Queue.eq_ℤ
awaits = record {
  table_valid = test_table-IsValid;
  entry = test_entry 80 0 2 35 in_search (pos 5000);
  at = refl;
  searching = refl;
  small = omega arith;
  old_small = omega arith;
  no_hello = refl;
  no_ack = refl;
  own = refl;
  lasting = omega arith;
  free = refl;
}

recv_reply-released_example :
    let new = reply_entry world (hopped reply) 10 50 in
    (t : RoutingTable) × (recv_reply world 5 reply 10 50 node ≡ some (released world 80 new t node))
    × IsValid t
    × (find 80 t.entries ≡ some new)
    × Agrees 80 (purge world.now (purge world.now node.table)) t
recv_reply-released_example = recv_reply-released world 5 reply 10 50 node awaits
