-- ===== src/Protocol/Reply.antt =====
-- Replies: `SendReply`, `SendReplyByIntermediateNode`, `SendReplyAck` and `RecvReplyAck`. The timer
-- that `SendReplyByIntermediateNode` sets up belongs to a local copy and is never scheduled.
use madaodv_ns.Base.{ℕ, ◌+◌, ◌%◌, Bool, true, not, Option, none, some, ◌==◌, if◌then◌else◌, ◌&&◌}
use madaodv_ns.Entry.{
  Entry, valid, get_destination, get_next_hop, get_life_time, insert_precursor, set_flag,
}
use madaodv_ns.Headers.{
  RreqHeader, RrepHeader, get_unknown_seqno, make_rrep, make_rrep_ack, set_ack_required,
}
use madaodv_ns.Protocol.{
  World, Node, Message, rrep_message, ack_message, sends, emit, lookup_route, update_route, blank,
  find_socket_with_interface_address, ◌>>=◌,
}

-- `FindSocketWithInterfaceAddress`, the assertion that it finds one, and `SendTo`.
unfoldable pub send_through : ℕ → ℕ → ℕ → Message → Node → Option Node
send_through iface destination ttl message n = elim (find_socket_with_interface_address iface n) [
  | none ↦ none
  | some socket ↦ some (emit (sends socket destination ttl message) n)
]

-- The destination's own sequence number before it replies.
unfoldable pub reply_seq_no : RreqHeader → ℕ → ℕ
reply_seq_no h seq_no =
    let next = (seq_no + 1) % 4294967296 in
    if not (get_unknown_seqno h) && (h.dst_seq_no == next) then next else seq_no

module _ (w : World) where
  open w use {ns, now}

  unfoldable pub send_reply : RreqHeader → Entry → Node → Option Node
  send_reply h to_origin n =
      let c = n.config in
      let n' = record n { seq_no = reply_seq_no h n.seq_no } in
      send_through to_origin.iface (get_next_hop to_origin) (to_origin.hops % 256)
        (rrep_message
          (make_rrep 0 0 h.dst n'.seq_no (get_destination to_origin) (w.to_ms c.my_route_timeout)))
        n'

  -- The reply about `about` to the node at the other end of `to`.
  unfoldable pub reply_about : Entry → Entry → RrepHeader
  reply_about about to =
      make_rrep 0 (about.hops % 256) (get_destination about) about.seq_no (get_destination to)
        (w.to_ms (get_life_time now about))

  -- A neighbor is asked to acknowledge, after a lookup of the next hop.
  unfoldable pub ask_ack : Entry → Entry → RrepHeader → Node → Node × RrepHeader
  ask_ack to_dst to_origin h n =
      if to_dst.hops == 1
      then ((lookup_route w (get_next_hop to_origin) (blank w) n).0, set_ack_required true h)
      else (n, h)

  -- The gratuitous reply to the destination.
  unfoldable pub answer_gratuitously : Bool → Entry → Entry → Node → Option Node
  answer_gratuitously grat_rep to_dst to_origin n =
      if grat_rep
      then send_through to_dst.iface (get_next_hop to_dst) (to_dst.hops % 256)
          (rrep_message (reply_about to_origin to_dst)) n
      else some n

  unfoldable pub send_reply_by_intermediate_node : Entry → Entry → Bool → Node → Option Node
  send_reply_by_intermediate_node to_dst to_origin grat_rep n = do
    let asked = ask_ack to_dst to_origin (reply_about to_dst to_origin) n
    let to_dst' = (insert_precursor (get_next_hop to_origin) to_dst).0
    let to_origin' = (insert_precursor (get_next_hop to_dst') to_origin).0
    let n1 = update_route to_origin' (update_route to_dst' asked.0)
    n2 ←
        send_through to_origin'.iface (get_next_hop to_origin') (to_origin'.hops % 256)
          (rrep_message asked.1) n1
    answer_gratuitously grat_rep to_dst' to_origin' n2

  unfoldable pub send_reply_ack : ℕ → Node → Option Node
  send_reply_ack neighbor n =
      let (n', ok, to_neighbor) = lookup_route w neighbor (blank w) n in
      send_through to_neighbor.iface neighbor 1 (ack_message make_rrep_ack) n'

  unfoldable pub recv_reply_ack : ℕ → Node → Node
  recv_reply_ack neighbor n =
      let (n', ok, rt) = lookup_route w neighbor (blank w) n in
      if ok then update_route (set_flag valid rt) n' else n'
