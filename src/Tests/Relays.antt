-- ===== src/Tests/Relays.antt =====
-- A reply passes through the node of Tests/Data.
use madaodv_ns.Base
use madaodv_ns.Base.{◌≡◌, refl, some, arith}
use madaodv_ns.Int.{pos, ◌-ℤ◌}
use madaodv_ns.Map
use madaodv_ns.Entry
use madaodv_ns.Entry.{valid}
use madaodv_ns.RoutingTable
use madaodv_ns.Headers
use madaodv_ns.Headers.{RrepHeader}
use madaodv_ns.Protocol
use madaodv_ns.Protocol.{Node}
use madaodv_ns.Protocol.LeadsBack.{LeadsBack}
use madaodv_ns.Protocol.RecvReply.{recv_reply}
use madaodv_ns.Protocol.Passed.{Forwards, Passed, recv_reply-Passed}
use madaodv_ns.Tests.Data.{test_entry, world, node}
use madaodv_ns.Tests.Components.{test_table-IsValid}

-- The reply for 90, from 20; 60 had asked, which is reached through 50.
abbrev reply : RrepHeader
reply = record {
  flags = 0;
  prefix_size = 0;
  hop_count = 2;
  dst = 90;
  dst_seq_no = 6;
  origin = 60;
  life_time = 4000;
}

way : LeadsBack world.now 60 50 10 node.table
unfolding Map.find Entry.is_outdated ◌-ℤ◌
way = record {
  table_valid = test_table-IsValid;
  entry = test_entry 60 50 8 3 valid (pos 5000);
  at = refl;
  leads = record { next_hop = refl; through = refl; alive = refl };
}

forwards : Forwards world reply 20 20 50 10 1 node
unfolding Entry.flag_eq way RoutingTable.purge RoutingTable.purge_entries Map.filter_map
    RoutingTable.purge_entry Headers.get_ack_required Headers.get_bit Protocol.is_my_own_address
    Protocol.owns Base.any Protocol.find_socket
forwards = record {
  way = way;
  settled = refl;
  newer = tt;
  no_hello = refl;
  real = refl;
  no_ack = refl;
  not_own = refl;
  lasting = omega arith;
  listens = refl;
}

recv_reply-Passed_example :
    (n' : Node) × (recv_reply world 5 reply 20 20 node ≡ some n')
    × Passed world 5 reply 20 20 50 1 node n'
recv_reply-Passed_example = recv_reply-Passed world 5 reply 20 20 50 10 1 node forwards
