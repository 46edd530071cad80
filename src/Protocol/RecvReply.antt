-- ===== src/Protocol/RecvReply.antt =====
-- `RecvReply`: a route reply makes or updates the route to its destination, and is acknowledged,
-- consumed by the node that asked, or sent on to it.
use madaodv_ns.Base.{
  ℕ, ◌+◌, ◌-◌, ◌%◌, Bool, true, false, not, Option, none, some, ◌==◌, if◌then◌else◌, ◌&&◌, ◌||◌,
  ltb,
}
use madaodv_ns.Int.{pos, max_ℤ, ltb_ℤ}
use madaodv_ns.Map.{erase}
use madaodv_ns.Entry.{
  Entry, valid, in_search, flag_eq, make_entry, get_next_hop, get_life_time, set_life_time,
  insert_precursor,
}
use madaodv_ns.Headers.{RrepHeader, get_ack_required, set_ack_required}
use madaodv_ns.Protocol.{
  World, Node, rrep_message, lookup_route, lookup_valid_route, add_route, update_route, blank,
  device_of, iface_of, is_my_own_address, ◌>>=◌,
}
use madaodv_ns.Protocol.Routes.{seq_diff}
use madaodv_ns.Protocol.Queue.{send_packet_from_queue}
use madaodv_ns.Protocol.Hello.{process_hello}
use madaodv_ns.Protocol.Reply.{send_reply_ack, send_through}

-- The circumstances (i) to (iv) in which a reply with this sequence number and hop count replaces
-- the entry. The comparison, made only if the entry's number is valid, may overflow.
unfoldable pub replaces : ℕ → ℕ → Entry → Option Bool
replaces seq_no hop to_dst =
    if not to_dst.valid_seq_no then some true else elim (seq_diff seq_no to_dst.seq_no) [
      | none ↦ none
      | some d ↦ some (
          ltb_ℤ (pos 0) d
          || ((seq_no == to_dst.seq_no)
              && (not (flag_eq to_dst.flag valid) || ltb hop to_dst.hops)))
    ]

-- The precursor that an entry is given, when it is written back.
unfoldable pub note_precursor : ℕ → Entry → Node → Node
note_precursor p rt n = update_route (insert_precursor p rt).0 n

module _ (w : World) where
  open w use {ns, now}

  -- `newEntry`.
  unfoldable pub reply_entry : RrepHeader → ℕ → ℕ → Entry
  reply_entry h receiver sender =
      make_entry ns now (device_of w receiver) h.dst true h.dst_seq_no (iface_of w receiver)
        h.hop_count sender (w.of_ms h.life_time)

  -- The forward route; and `toDst`, the entry as it was before, or the default one.
  unfoldable pub forward_route : RrepHeader → Entry → Node → Option (Node × Entry)
  forward_route h new_entry n =
      let (n', ok, to_dst) = lookup_route w h.dst (blank w) n in
      if ok
      then elim (replaces h.dst_seq_no h.hop_count to_dst) [
        | none ↦ none
        | some r ↦ some (if r then update_route new_entry n' else n', to_dst)
      ]
      else some (add_route w new_entry n', to_dst)

  -- The acknowledgement that the sender required.
  unfoldable pub acknowledge : RrepHeader → ℕ → Node → Option Node
  acknowledge h sender n = if get_ack_required h then send_reply_ack w sender n else some n

  unfoldable pub cancel_request : ℕ → Node → Node
  cancel_request dst n = record n { address_req_timer = erase dst n.address_req_timer }

  -- The reply has come to the node that asked for it.
  unfoldable pub consume_reply : RrepHeader → Entry → Entry → Node → Option Node
  consume_reply h new_entry to_dst n =
      let searched = flag_eq to_dst.flag in_search in
      let n' = if searched then cancel_request h.dst (update_route new_entry n) else n in
      let (n'', ok, rt) = lookup_route w h.dst to_dst n' in
      send_packet_from_queue w h.dst rt.route n''

  -- The precursors, if there is a valid route to the destination. The entries that a lookup does
  -- not find are default ones, which `Update` ignores or not as the table has it.
  unfoldable pub link_precursors : RrepHeader → Entry → Entry → Node → Node × Entry
  link_precursors h to_dst to_origin n =
      let (n1, ok, rt) = lookup_valid_route w h.dst to_dst n in
      if ok
      then (let n2 = note_precursor (get_next_hop to_origin) rt n1 in
          let (n3, found_dst, next_to_dst) = lookup_route w (get_next_hop rt) (blank w) n2 in
          let n4 = note_precursor (get_next_hop to_origin) next_to_dst n3 in
          let to_origin' = (insert_precursor (get_next_hop rt) to_origin).0 in
          let n5 = update_route to_origin' n4 in
          let (n6, found_origin, next_to_origin) =
            lookup_route w (get_next_hop to_origin') (blank w) n5 in
          (note_precursor (get_next_hop rt) next_to_origin n6, to_origin'))
      else (n1, to_origin)

  -- The reply goes on towards the node that asked for it.
  unfoldable pub relay_reply : ℕ → RrepHeader → Entry → Node → Option Node
  relay_reply ttl h to_dst n =
      let c = n.config in
      let (n1, ok, rt) = lookup_route w h.origin (blank w) n in
      if not ok || flag_eq rt.flag in_search
      then some n1
      else (let rt' = set_life_time now (max_ℤ c.active_route_timeout (get_life_time now rt)) rt in
          let (n2, to_origin) = link_precursors h to_dst rt' (update_route rt' n1) in
          if ltb ttl 2
          then some n2
          else send_through to_origin.iface (get_next_hop to_origin) (ttl - 1) (rrep_message h) n2)

  -- A reply that is no HELLO, with its hop count already incremented.
  unfoldable pub handle_reply : ℕ → RrepHeader → ℕ → ℕ → Node → Option Node
  handle_reply ttl h receiver sender n = do
    let new_entry = reply_entry h receiver sender
    routed ← forward_route h new_entry n
    acked ← acknowledge h sender routed.0
    let h' = set_ack_required false h
    if is_my_own_address w h.origin acked
        then consume_reply h new_entry routed.1 acked
        else relay_reply ttl h' routed.1 acked

  -- `ttl` is that of the packet's `SocketIpTtlTag`.
  unfoldable pub recv_reply : ℕ → RrepHeader → ℕ → ℕ → Node → Option Node
  recv_reply ttl h receiver sender n =
      let h' = record h { hop_count = (h.hop_count + 1) % 256 } in
      if h.dst == h.origin
      then process_hello w h' receiver n
      else handle_reply ttl h' receiver sender n
