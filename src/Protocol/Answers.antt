-- ===== src/Protocol/Answers.antt =====
-- A request that comes to its destination is answered.
use madaodv_ns.Base.{ℕ, ◌%◌, ◌≡◌, true, some, [], ◌∷◌, ◌++◌, arith}
use madaodv_ns.Entry.{Entry, get_destination, get_next_hop}
use madaodv_ns.RoutingTable.{purge}
use madaodv_ns.Headers.{RreqHeader, RrepHeader, make_rrep}
use madaodv_ns.Protocol.{
  World, Node, Message, sends, rrep_message, is_my_own_address, find_socket,
  find_socket_with_interface_address, emit,
}
use madaodv_ns.Protocol.Reply.{send_through, reply_seq_no, send_reply}
use madaodv_ns.Protocol.RecvRequest.{answer}
use madaodv_ns.Protocol.LeadsBack.{LeadsBack, LeadsBack-destination, lookup_route-LeadsBack}

module _ (w : World) where
  open w use {ns, now}

  -- The reply.
  abbrev pub reply_header : RreqHeader → Node → RrepHeader
  reply_header h n =
      let c = n.config in
      make_rrep 0 0 h.dst (reply_seq_no h n.seq_no) h.origin (w.to_ms c.my_route_timeout)

  abbrev pub reply_to : RreqHeader → Node → Message
  reply_to h n = rrep_message (reply_header h n)

  send_reply-sends :
      (h : RreqHeader) (e : Entry) (n : Node) (src iface socket : ℕ)
      → get_next_hop e ≡ src
      → e.iface ≡ iface
      → get_destination e ≡ h.origin
      → find_socket iface n.socket_addresses ≡ some socket
      → send_reply w h e n
        ≡ some (record n {
          seq_no = reply_seq_no h n.seq_no;
          trace = n.trace ++ sends socket src (e.hops % 256) (reply_to h n) ∷ [];
        })
  unfolding send_reply send_through emit find_socket_with_interface_address
  send_reply-sends h e n src iface socket hop at dst open_ = ground arith

  pub answer-sends :
      (ttl : ℕ) (h : RreqHeader) (src iface socket : ℕ) (rt : Entry) (n : Node)
      → is_my_own_address w h.dst n ≡ true
      → find_socket iface n.socket_addresses ≡ some socket
      → LeadsBack now h.origin src iface n.table
      → (k : ℕ) × (answer w ttl h src rt n
          ≡ some (record n {
            table = purge now n.table;
            seq_no = reply_seq_no h n.seq_no;
            trace = n.trace ++ sends socket src k (reply_to h n) ∷ [];
          }))
  unfolding answer
  answer-sends ttl h src iface socket rt n own open_ b =
      let e = b.entry in
      let l = b.leads in
      (
        e.hops % 256,
        rw own (
            rw (lookup_route-LeadsBack w h.origin src iface rt n b) (
              send_reply-sends h e (record n { table = purge now n.table }) src iface socket
                l.next_hop l.through (LeadsBack-destination b) open_)),
      )
