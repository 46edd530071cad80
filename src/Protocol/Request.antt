-- ===== src/Protocol/Request.antt =====
-- `SendRequest`: a route request is originated, under the rate limit, in an expanding ring.
use Prim.Native.Nat.{min}
use madaodv_ns.Base.{
  ℕ, ◌+◌, ◌%◌, true, false, Option, none, some, [], ◌∷◌, ◌==◌, if◌then◌else◌, ltb,
}
use madaodv_ns.Int.{ℤ, pos, ◌+ℤ◌, ◌-ℤ◌}
use madaodv_ns.Map.{Map}
use madaodv_ns.Ns3.{Ns3}
use madaodv_ns.Entry.{
  Entry, in_search, flag_eq, make_entry, increment_rreq_cnt, set_flag, set_hop, set_life_time,
}
use madaodv_ns.IdCache.{is_duplicate}
use madaodv_ns.Headers.{RreqHeader, set_unknown_seqno, set_gratuitous_rrep, set_destination_only}
use madaodv_ns.Protocol.{
  World, Config, Node, rreq_message, schedules_request, emit, lookup_route, add_route, update_route,
  send_later, broadcast_address, blank,
}
use madaodv_ns.Protocol.RreqRetry.{schedule_rreq_retry}

-- `RreqHeader rreqHeader;`.
unfoldable pub blank_rreq : Ns3 → RreqHeader
blank_rreq ns = record {
  flags = 0;
  reserved = 0;
  hop_count = 0;
  request_id = 0;
  dst = ns.no_address;
  dst_seq_no = 0;
  origin = ns.no_address;
  origin_seq_no = 0;
}

-- The TTL of the next request for an entry: both are `uint16_t`.
unfoldable pub next_ttl : Config → Entry → ℕ
next_ttl c rt =
    let wider = (rt.hops + c.ttl_increment) % 65536 in
    let diameter = c.net_diameter % 65536 in
    if flag_eq rt.flag in_search
    then (if ltb c.ttl_threshold wider then diameter else wider)
    else min wider diameter

-- Asking for a destination whose sequence number is known, or is not.
unfoldable pub ask_seqno : Entry → RreqHeader → RreqHeader
ask_seqno rt h =
    if rt.valid_seq_no then record h { dst_seq_no = rt.seq_no } else set_unknown_seqno true h

unfoldable pub count_if_full : Config → ℕ → Entry → Entry
count_if_full c ttl rt = if ttl == c.net_diameter then increment_rreq_cnt rt else rt

-- The delay that is left on a timer.
unfoldable pub delay_left : ℤ → Option ℤ → ℤ
delay_left now none = pos 0
delay_left now (some due) = due -ℤ now

module _ (w : World) where
  open w use {ns, now}

  -- The entry that is found, as it is written back.
  unfoldable pub searched_entry : Config → Entry → Entry
  searched_entry c rt =
      let ttl = next_ttl c rt in
      set_life_time now c.path_discovery_time
        (set_flag in_search (set_hop ttl (count_if_full c ttl rt)))

  -- The entry for `dst` is put in search; the node, the TTL and the header.
  unfoldable pub search_route : ℕ → RreqHeader → Node → Node × ℕ × RreqHeader
  search_route dst h n =
      let c = n.config in
      let (n', ok, rt) = lookup_route w dst (blank w) n in
      let ttl = next_ttl c rt in
      if ok then (update_route (searched_entry c rt) n', ttl, ask_seqno rt h) else (
        add_route w
            (set_flag in_search (
              count_if_full c c.ttl_start (
                make_entry ns now 0 dst false 0 ns.no_iface c.ttl_start ns.no_address
                  c.path_discovery_time)))
            n',
        c.ttl_start,
        set_unknown_seqno true h,
      )

  -- The loop over the sockets.
  unfoldable pub broadcast_rreq : ℕ → RreqHeader → Map ℕ → Node → Node
  broadcast_rreq ttl h [] n = n
  broadcast_rreq ttl h ((socket, iface) ∷ sockets) n =
      let h' = record h { origin = ns.local iface } in
      let n' = record n {
        rreq_id_cache = (is_duplicate now (ns.local iface) n.request_id n.rreq_id_cache).0;
        last_bcast_time = now;
      } in
      broadcast_rreq ttl h sockets
        (send_later w socket (broadcast_address w iface) (ttl % 256) (rreq_message h') n')

  -- The part behind the rate limit.
  unfoldable pub originate_request : ℕ → Node → Option Node
  originate_request dst n =
      let c = n.config in
      let blank_header = blank_rreq ns in
      let (n1, ttl, h1) = search_route dst (record blank_header { dst = dst }) n in
      let h2 = if c.gratuitous_reply then set_gratuitous_rrep true h1 else h1 in
      let h3 = if c.destination_only then set_destination_only true h2 else h2 in
      let n2 = record n1 {
        seq_no = (n1.seq_no + 1) % 4294967296;
        request_id = (n1.request_id + 1) % 4294967296;
      } in
      let h4 = record h3 { origin_seq_no = n2.seq_no; request_id = n2.request_id } in
      schedule_rreq_retry w dst (broadcast_rreq ttl h4 n2.socket_addresses n2)

  unfoldable pub send_request : ℕ → Node → Option Node
  send_request dst n =
      let c = n.config in
      if n.rreq_count == c.rreq_rate_limit
      then some
          (emit (schedules_request (delay_left now n.rreq_rate_limit_timer +ℤ pos 100000) dst) n)
      else originate_request dst (record n { rreq_count = (n.rreq_count + 1) % 65536 })
