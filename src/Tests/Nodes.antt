-- ===== src/Tests/Nodes.antt =====
-- The theorems on the protocol, at the node of Tests/Data.
use madaodv_ns.Base.{zero, suc, List, ℕ, ◌≡◌, refl, none, some, [], ◌∷◌, any, reject, select, arith}
use madaodv_ns.Int.{pos, ◌-ℤ◌, ◌+ℤ◌}
use madaodv_ns.Map
use madaodv_ns.Entry.{Entry, Route, valid, in_search, flag_eq, is_outdated}
use madaodv_ns.Entry
use madaodv_ns.RoutingTable.{purge, purge_entries, purge_entry, found}
use madaodv_ns.RoutingTable
use madaodv_ns.RoutingTable.Invariant.{IsValid}
use madaodv_ns.RequestQueue.{is_expired, has_dst}
use madaodv_ns.Headers.{RreqHeader, RrepHeader}
use madaodv_ns.Headers
use madaodv_ns.Protocol.{World, Config, Node, fails}
use madaodv_ns.Protocol
use madaodv_ns.Protocol.Queue.{forwarded, wrong_interface, send_packet_from_queue, eq_ℤ}
use madaodv_ns.Protocol.Rerr.{send_rerr_when_breaks_link_to_next_hop}
use madaodv_ns.Protocol.Rerr
use madaodv_ns.Protocol.Request.{send_request, broadcast_rreq}
use madaodv_ns.Protocol.RecvRequest.{recv_request, reverse_route}
use madaodv_ns.Protocol.Reversed.{Reversed, reverse_route_lem}
use madaodv_ns.Tests.Components.{test_table-IsValid}
use madaodv_ns.Protocol.RecvReply.{reply_entry, forward_route}
use madaodv_ns.Protocol.Drain.{send_packet_from_queue_lem}
use madaodv_ns.Protocol.Freshness.{Routed, forward_route_lem}
use madaodv_ns.Protocol.Searched.{IsRing}
use madaodv_ns.Protocol.Limits.{IsSearching, send_request_lem}
use madaodv_ns.Protocol.BrokenLink.{IsLost, send_rerr_when_breaks_link_to_next_hop_lem}
use madaodv_ns.Protocol.Duplicates.{IsIgnored, broadcast_rreq-IsIgnored}
use madaodv_ns.Tests.Data.{world, test_config, test_entry, test_table, test_queue, queued, node}

abbrev route : Route
route = record { destination = 60; gateway = 50; source = 10; output_device = 7 }

send_packet_from_queue_lem_example :
    send_packet_from_queue world 60 route node
    ≡ some (record node {
      queue = record test_queue { queue = queued 2 80 (pos 9000) ∷ [] };
      trace = fails (queued 1 60 (pos 10)) ∷ forwarded route (queued 3 60 (pos 9000)) ∷ [];
    })
unfolding reject select any is_expired has_dst wrong_interface eq_ℤ ◌-ℤ◌
send_packet_from_queue_lem_example = send_packet_from_queue_lem world 60 route node refl

abbrev broken : Node
broken = elim (send_rerr_when_breaks_link_to_next_hop world 50 node) [ none ↦ node | some n ↦ n ]

send_rerr_when_breaks_link_to_next_hop_lem_example : IsLost 50 broken.table
unfolding send_rerr_when_breaks_link_to_next_hop Protocol.lookup_route RoutingTable.lookup_route
    found purge purge_entries purge_entry is_outdated flag_eq ◌-ℤ◌ ◌+ℤ◌ any Map.filter_map Map.find
    Map.insert Rerr.break_link Rerr.fill_rerr Rerr.reached_through Rerr.send_if_any
    Rerr.send_rerr_message Rerr.send_to_precursors Rerr.unicast_rerr Rerr.multicast_rerr
    Rerr.broadcast_rerr Rerr.collect_ifaces Rerr.suppress_rerr Rerr.invalidate_routes_with_dst
    Headers.add_un_destination Headers.make_rerr Headers.get_dest_count
    RoutingTable.get_list_of_destination_with_next_hop RoutingTable.collect_next_hop
    RoutingTable.invalidate_routes_with_dst RoutingTable.lookup_valid_route Entry.get_precursors
    Entry.is_precursor_list_empty Entry.push_missing Entry.default_entry Entry.make_entry
    Entry.invalidate Protocol.lookup_valid_route Protocol.send_later Protocol.emit
    Protocol.broadcast_address Protocol.find_socket Protocol.find_socket_with_interface_address
send_rerr_when_breaks_link_to_next_hop_lem_example =
    send_rerr_when_breaks_link_to_next_hop_lem world 50 node broken
      (test_entry 50 50 4 1 valid (pos 5000))
      (omega arith, (omega arith, (omega arith, (omega arith, tt)))) refl refl

abbrev reply : RrepHeader
reply = record {
  flags = 0;
  prefix_size = 0;
  hop_count = 2;
  dst = 60;
  dst_seq_no = 8;
  origin = 10;
  life_time = 3000;
}

node-IsValid : IsValid test_table
node-IsValid = record {
  sorted = (omega arith, (omega arith, (omega arith, (omega arith, tt))));
  keyed = (refl, (refl, (refl, (refl, tt))));
}

forward_route_lem_example :
    Routed 60
      (reply_entry world reply 10 51)
      (purge (pos 1000) test_table)
      (forward_route world reply (reply_entry world reply 10 51) node)
forward_route_lem_example = forward_route_lem world reply 10 51 node node-IsValid

test_config-IsRing : IsRing test_config
test_config-IsRing = record {
  diameter_u16 = omega arith;
  threshold_le = omega arith;
  start_le = omega arith;
}

send_request_lem_example :
    (n : Node) × (send_request world 80 node ≡ some n) × IsSearching 80 n × (n.rreq_count ≡ 1)
unfolding purge purge_entries purge_entry is_outdated flag_eq ◌-ℤ◌ Map.filter_map Map.find
send_request_lem_example =
    send_request_lem world 80 node node-IsValid (omega arith, tt) test_config-IsRing
      (λ e at. ground (arith, at))

abbrev worlds : ℕ → List World
worlds zero = []
worlds (suc k) = world ∷ worlds k

abbrev request : RreqHeader
request = record {
  flags = 0;
  reserved = 0;
  hop_count = 0;
  request_id = 41;
  dst = 80;
  dst_seq_no = 2;
  origin = 20;
  origin_seq_no = 18;
}

abbrev knowing : Node
knowing = record node {
  rreq_id_cache = record {
    ids = record { context = 20; id = 41; expire = pos 6000 } ∷ [];
    lifetime = pos 5600;
  };
}

abbrev later : World
later = record world { now = pos 1200 }

broadcast_rreq-IsIgnored_example :
    let sent = broadcast_rreq world 1 request node.socket_addresses node in
    IsIgnored later sent (recv_request later 30 request 10 51 sent)
unfolding any ◌+ℤ◌
broadcast_rreq-IsIgnored_example =
    broadcast_rreq-IsIgnored world later 20 10 51 1 30 request request node.socket_addresses node
      (omega arith) (omega arith) refl refl refl refl

reverse_route_lem_example :
    Reversed request 51
      (Map.find request.origin (purge (pos 1000) test_table).entries)
      (reverse_route world request 10 51 node)
reverse_route_lem_example = reverse_route_lem world request 10 51 node test_table-IsValid
