-- ===== src/Protocol/RouteInput.antt =====
-- Where a packet comes in: `RouteInput`. `none` fails an assertion; the result says whether the
-- protocol took the packet.
use madaodv_ns.Base.{
  ℕ, Bool, true, false, not, Option, none, some, ◌==◌, if◌then◌else◌, ◌&&◌, ◌||◌, any, is_some, ltb,
}
use madaodv_ns.Int.{ℤ, pos, ltb_ℤ}
use madaodv_ns.Map.{Map}
use madaodv_ns.Ipv4.{Packet, Ipv4Header}
use madaodv_ns.Entry.{get_next_hop}
use madaodv_ns.IdCache.{is_duplicate_packet}
use madaodv_ns.Protocol.{
  World, Node, delivers, forwards, rejects, emit, lookup_route, lookup_valid_route, blank,
  is_my_own_address, ◌>>=◌,
}
use madaodv_ns.Protocol.Routes.{update_route_life_time}
use madaodv_ns.Protocol.Queue.{eq_ℤ}
use madaodv_ns.Protocol.Rerr.{update_neighbor}
use madaodv_ns.Protocol.Handlers.{forwarding, deferred_route_output}
use madaodv_ns.Protocol.RouteOutput.{has_no_sockets}

-- `MADAODV_PORT`.
abbrev pub madaodv_port : ℕ
madaodv_port = 654

-- The packet goes to the local deliver callback, or to the error callback if that is null.
unfoldable pub deliver : Packet → Ipv4Header → ℤ → Option ℕ → ℕ → Node → Node
deliver p header iif none ecb n = emit (rejects ecb p header) n
deliver p header iif (some lcb) ecb n = emit (delivers lcb p header iif) n

module _ (w : World) where
  open w use {ns, now}

  -- The loop that looks for a socket on the interface for whose subnet the packet is.
  unfoldable pub takes_broadcast : ℤ → ℕ → Map ℕ → Bool
  takes_broadcast iif dst sockets =
      any
        (λ s.
          eq_ℤ (ns.interface_for_address (ns.local s.1)) iif
          && ((dst == ns.broadcast s.1) || ns.is_broadcast dst))
        sockets

  -- A message of the protocol, which comes through the sockets as well.
  unfoldable pub is_control : Packet → Ipv4Header → Bool
  is_control p header = (header.protocol == ns.udp_protocol) && (p.udp_port == madaodv_port)

  unfoldable pub forward_broadcast : Packet → Ipv4Header → ℕ → Node → Node
  forward_broadcast p header ucb n =
      if ltb 1 header.ttl
      then (let (n', ok, rt) = lookup_route w header.destination (blank w) n in
          if ok then emit (forwards ucb rt.route p header) n' else n')
      else n

  unfoldable pub input_broadcast : Packet → Ipv4Header → ℤ → ℕ → Option ℕ → ℕ → Node → Node
  input_broadcast p header iif ucb lcb ecb n =
      let (dpd, seen) = is_duplicate_packet now header.source p.uid n.dpd in
      let n1 = record n { dpd = dpd } in
      if seen
      then n1
      else (let c = n.config in
          let n2 = (update_route_life_time w header.source c.active_route_timeout n1).0 in
          let n3 = deliver p header iif lcb ecb n2 in
          if not c.enable_broadcast || is_control p header
          then n3
          else forward_broadcast p header ucb n3)

  -- The neighbor through which the source is reached is alive.
  unfoldable pub refresh_source : ℕ → Node → Option Node
  refresh_source origin n =
      let c = n.config in
      let n1 = (update_route_life_time w origin c.active_route_timeout n).0 in
      let (n2, ok, to_origin) = lookup_valid_route w origin (blank w) n1 in
      if ok
      then update_neighbor w (get_next_hop to_origin) c.active_route_timeout
          (update_route_life_time w (get_next_hop to_origin) c.active_route_timeout n2).0
      else some n2

  unfoldable pub input_local : Packet → Ipv4Header → ℤ → Option ℕ → ℕ → Node → Option (Node × Bool)
  input_local p header iif lcb ecb n = do
    n' ← refresh_source header.source n
    some (deliver p header iif lcb ecb n', true)

  -- Behind the test for packets that were looped back.
  unfoldable pub input_packet :
      Packet → Ipv4Header → ℤ → ℕ → Option ℕ → ℕ → Node → Option (Node × Bool)
  input_packet p header iif ucb lcb ecb n =
      if is_my_own_address w header.source n
      then some (n, true)
      else if ns.is_multicast header.destination
      then some (n, false)
      else if takes_broadcast iif header.destination n.socket_addresses
      then some (input_broadcast p header iif ucb lcb ecb n, true)
      else if ns.is_destination_address header.destination iif
      then input_local p header iif lcb ecb n
      else if not (ns.is_forwarding iif)
      then some (emit (rejects ecb p header) n, true)
      else forwarding w p header ucb n

  unfoldable pub input_deferred : Packet → Ipv4Header → ℕ → ℕ → Node → Option (Node × Bool)
  input_deferred p header ucb ecb n = do
    n' ← deferred_route_output w p header ucb ecb n
    some (n', true)

  unfoldable pub route_input :
      Packet → Ipv4Header → ℕ → ℕ → Option ℕ → ℕ → Node → Option (Node × Bool)
  route_input p header idev ucb lcb ecb n =
      let iif = ns.interface_for_device idev in
      if has_no_sockets n
      then some (n, false)
      else if not n.has_ipv4 || ltb_ℤ iif (pos 0)
      then none
      else if (idev == n.lo) && is_some p.deferred_tag
      then input_deferred p header ucb ecb n
      else input_packet p header iif ucb lcb ecb n
