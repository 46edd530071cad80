-- ===== src/Protocol/RecvRequest.antt =====
-- `RecvRequest`: the reverse route, the route to the neighbor, and the answer to a route request.
use madaodv_ns.Base.{
  ℕ, ◌+◌, ◌-◌, ◌*◌, ◌%◌, Bool, true, false, not, Option, none, some, [], ◌∷◌, ◌==◌, if◌then◌else◌,
  ◌&&◌, ltb,
}
use madaodv_ns.Int.{ℤ, pos, ◌-ℤ◌, ◌*ℤ◌, max_ℤ, ltb_ℤ}
use madaodv_ns.Map.{Map}
use madaodv_ns.Entry.{
  Entry, valid, flag_eq, make_entry, get_next_hop, get_life_time, set_flag, set_hop, set_interface,
  set_life_time, set_next_hop, set_output_device, set_seq_no, set_valid_seq_no,
}
use madaodv_ns.IdCache.{is_duplicate}
use madaodv_ns.Headers.{
  RreqHeader, get_unknown_seqno, set_unknown_seqno, get_destination_only, get_gratuitous_rrep,
}
use madaodv_ns.Protocol.{
  World, Config, Node, rreq_message, lookup_route, add_route, update_route, send_later,
  broadcast_address, blank, device_of, iface_of, is_my_own_address, ◌>>=◌,
}
use madaodv_ns.Protocol.Routes.{seq_diff}
use madaodv_ns.Protocol.Rerr.{update_neighbor}
use madaodv_ns.Protocol.Reply.{send_reply, send_reply_by_intermediate_node}

-- The sequence number that the entry for the originator takes: the newer of the two, or that of
-- the request if the entry's is not valid. The comparison may overflow.
unfoldable pub newer_seq_no : Entry → ℕ → Option ℕ
newer_seq_no rt seq_no =
    if rt.valid_seq_no
    then elim (seq_diff seq_no rt.seq_no) [
      | none ↦ none
      | some d ↦ some (if ltb_ℤ (pos 0) d then seq_no else rt.seq_no)
    ]
    else some seq_no

-- The entry for the destination is fresh enough to answer: the request knows no sequence number,
-- or none above the entry's. The comparison, made only if it knows one, may overflow.
unfoldable pub is_fresh : RreqHeader → Entry → Option Bool
is_fresh h to_dst =
    if get_unknown_seqno h
    then some to_dst.valid_seq_no
    else elim (seq_diff to_dst.seq_no h.dst_seq_no) [
      | none ↦ none
      | some d ↦ some (not (ltb_ℤ d (pos 0)) && to_dst.valid_seq_no)
    ]

module _ (w : World) where
  open w use {ns, now}

  -- 2 * NetTraversalTime - 2 * hop * NodeTraversalTime.
  unfoldable pub minimal_lifetime : ℕ → Node → ℤ
  minimal_lifetime hop n =
      let c = n.config in (2 *ℤ c.net_traversal_time) -ℤ ((2 * hop) *ℤ c.node_traversal_time)

  -- The updated entry for the originator.
  unfoldable pub reverse_entry : RreqHeader → ℕ → ℕ → ℕ → ℤ → Entry → Entry
  reverse_entry h receiver src seq_no lifetime to_origin =
      set_life_time now (max_ℤ lifetime (get_life_time now to_origin)) (
        set_hop h.hop_count (
          set_interface (iface_of w receiver) (
            set_output_device (device_of w receiver)
              (set_next_hop src (set_valid_seq_no true (set_seq_no seq_no to_origin))))))

  -- The entry for the originator, made or updated; and `toOrigin`, its updated copy or the default
  -- one.
  unfoldable pub reverse_route : RreqHeader → ℕ → ℕ → Node → Option (Node × Entry)
  reverse_route h receiver src n =
      let (n', ok, to_origin) = lookup_route w h.origin (blank w) n in
      if ok
      then elim (newer_seq_no to_origin h.origin_seq_no) [
        | none ↦ none
        | some s ↦
            let to_origin' =
              reverse_entry h receiver src s (minimal_lifetime h.hop_count n) to_origin in
            some (update_route to_origin' n', to_origin')
      ]
      else some (
        add_route w
            (make_entry ns now (device_of w receiver) h.origin true h.origin_seq_no
              (iface_of w receiver) h.hop_count src (minimal_lifetime h.hop_count n))
            n',
        to_origin,
      )

  -- The updated entry for the neighbor.
  unfoldable pub neighbor_entry : RreqHeader → ℕ → ℕ → Config → Entry → Entry
  neighbor_entry h receiver src c to_neighbor = set_next_hop src (
      set_hop 1 (
        set_interface (iface_of w receiver) (
          set_output_device (device_of w receiver) (
            set_flag valid (
              set_seq_no h.origin_seq_no
                (set_valid_seq_no false (set_life_time now c.active_route_timeout to_neighbor)))))))

  -- The entry for the neighbor that sent the request.
  unfoldable pub neighbor_route : RreqHeader → ℕ → ℕ → Node → Node
  neighbor_route h receiver src n =
      let c = n.config in
      let (n', ok, to_neighbor) = lookup_route w src (blank w) n in
      if ok
      then update_route (neighbor_entry h receiver src c to_neighbor) n'
      else add_route w
          (make_entry ns now (device_of w receiver) src false h.origin_seq_no (iface_of w receiver)
            1 src c.active_route_timeout)
          n'

  -- The loop that sends the request on.
  unfoldable pub forward_rreq : ℕ → RreqHeader → Map ℕ → Node → Node
  forward_rreq ttl h [] n = n
  forward_rreq ttl h ((socket, iface) ∷ sockets) n = forward_rreq ttl h sockets (
      send_later w socket (broadcast_address w iface) ttl (rreq_message h)
        (record n { last_bcast_time = now }))

  unfoldable pub relay : ℕ → RreqHeader → Node → Option Node
  relay ttl h n = some (if ltb ttl 2 then n else forward_rreq (ttl - 1) h n.socket_addresses n)

  -- An intermediate node that has an entry for the destination.
  unfoldable pub answer_or_relay : ℕ → RreqHeader → ℕ → Entry → Entry → Node → Option Node
  answer_or_relay ttl h src to_origin to_dst n =
      if get_next_hop to_dst == src then some n else elim (is_fresh h to_dst) [
        | none ↦ none
        | some false ↦ relay ttl h n
        | some true ↦
            if not (get_destination_only h) && flag_eq to_dst.flag valid
            then (let (n', ok, to_origin') = lookup_route w h.origin to_origin n in
                send_reply_by_intermediate_node w to_dst to_origin' (get_gratuitous_rrep h) n')
            else relay ttl (set_unknown_seqno false (record h { dst_seq_no = to_dst.seq_no })) n
      ]

  -- Who answers: the destination, a node with a fresh route, or nobody yet.
  unfoldable pub answer : ℕ → RreqHeader → ℕ → Entry → Node → Option Node
  answer ttl h src to_origin n =
      if is_my_own_address w h.dst n
      then (let (n', ok, to_origin') = lookup_route w h.origin to_origin n in
          send_reply w h to_origin' n')
      else (let (n', ok, to_dst) = lookup_route w h.dst (blank w) n in
          if ok then answer_or_relay ttl h src to_origin to_dst n' else relay ttl h n')

  -- A request that is new, with its hop count already incremented.
  unfoldable pub handle_request : ℕ → RreqHeader → ℕ → ℕ → Node → Option Node
  handle_request ttl h receiver src n = do
    let c = n.config
    reversed ← reverse_route h receiver src n
    n2 ←
        update_neighbor w src (c.allowed_hello_loss *ℤ c.hello_interval)
          (neighbor_route h receiver src reversed.0)
    answer ttl h src reversed.1 n2

  -- `ttl` is that of the packet's `SocketIpTtlTag`.
  unfoldable pub recv_request : ℕ → RreqHeader → ℕ → ℕ → Node → Option Node
  recv_request ttl h receiver src n =
      let (n', ok, to_prev) = lookup_route w src (blank w) n in
      if ok && to_prev.black_list_state
      then some n'
      else (let (cache, seen) = is_duplicate now h.origin h.request_id n'.rreq_id_cache in
          let n'' = record n' { rreq_id_cache = cache } in
          if seen
          then some n''
          else handle_request ttl (record h { hop_count = (h.hop_count + 1) % 256 }) receiver src
              n'')
