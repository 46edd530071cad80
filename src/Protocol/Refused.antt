-- ===== src/Protocol/Refused.antt =====
-- The packets that `RouteInput` does not take.
use madaodv_ns.Base.{
  ◌≢◌, ℕ, ◌≡◌, true, false, Option, some, [], ◌⊎◌, inl, inr, arith, Option-cases, Bool-cases, ◌&&◌,
}
use madaodv_ns.Int.{ℤ, pos, ◌≤ℤ◌}
use madaodv_ns.Ipv4.{Packet, Ipv4Header}
use madaodv_ns.Entry.{Entry, Route, valid, flag_eq}
use madaodv_ns.RoutingTable.{RoutingTable, purge, found}
use madaodv_ns.RoutingTable
use madaodv_ns.RoutingTable.Lookup.{purge_twice}
use madaodv_ns.Protocol.{World, Node, lookup_route, lookup_valid_route, blank}
use madaodv_ns.Protocol.Handlers.{refresh_path, forward_on, forwarding, deferred_route_output}
use madaodv_ns.Protocol.RouteOutput.{has_no_sockets}
use madaodv_ns.Protocol.RouteInput.{
  refresh_source, input_local, input_deferred, input_packet, route_input,
}

module _ (w : World) where
  open w use {ns, now}

  forward_on-taken :
      (p : Packet) (h : Ipv4Header) (ucb : ℕ) (route : Route) (n m : Node)
      → forward_on w p h ucb route n ≢ some (m, false)
  unfolding forward_on
  forward_on-taken p h ucb route n m e =
      elim (Option-cases (refresh_path w h.destination h.source route n)) [
        | inl f ↦ ground (arith, f)
        | inr (n', f) ↦ ground (arith, f)
      ]

  input_local-taken :
      (p : Packet) (h : Ipv4Header) (i : ℤ) (lcb : Option ℕ) (ecb : ℕ) (n m : Node)
      → input_local w p h i lcb ecb n ≢ some (m, false)
  unfolding input_local
  input_local-taken p h i lcb ecb n m e = elim (Option-cases (refresh_source w h.source n)) [
    | inl f ↦ ground (arith, f)
    | inr (n', f) ↦ ground (arith, f)
  ]

  input_deferred-taken :
      (p : Packet) (h : Ipv4Header) (ucb ecb : ℕ) (n m : Node)
      → input_deferred w p h ucb ecb n ≢ some (m, false)
  unfolding input_deferred
  input_deferred-taken p h ucb ecb n m e =
      elim (Option-cases (deferred_route_output w p h ucb ecb n)) [
        | inl f ↦ ground (arith, f)
        | inr (n', f) ↦ ground (arith, f)
      ]

  -- Behind a purge, a lookup and a lookup of a valid route see the same table.
  lookup_valid_route-purged :
      (id : ℕ) (rt : Entry) (t : RoutingTable)
      → pos 0 ≤ℤ t.bad_link_lifetime
      → let found' = RoutingTable.lookup_route now id rt (purge now t) in
        (RoutingTable.lookup_valid_route now id rt t).1 ≡ (found'.1 && flag_eq found'.2.flag valid)
  unfolding found RoutingTable.lookup_route RoutingTable.lookup_valid_route
  lookup_valid_route-purged id rt t b = rw (purge_twice now t b) (ground arith)

  forwarding-refused :
      (p : Packet) (h : Ipv4Header) (ucb : ℕ) (n m : Node)
      → pos 0 ≤ℤ n.table.bad_link_lifetime
      → forwarding w p h ucb n ≡ some (m, false)
      → (lookup_valid_route w h.destination (blank w) n).1 ≡ false
  unfolding forwarding lookup_route lookup_valid_route
  forwarding-refused p h ucb n m b e =
      let dst = h.destination in
      let (t, ok, rt) = RoutingTable.lookup_route now dst (blank w) (purge now n.table) in
      let same = lookup_valid_route-purged dst (blank w) n.table b in
      elim (Bool-cases ok) [
        | inr f ↦ ground (arith, f, same)
        | inl f ↦ elim (Bool-cases (flag_eq rt.flag valid)) [
          | inr g ↦ ground (arith, f, g, same)
          | inl g ↦
              absurd (
                forward_on-taken p h ucb rt.route (record n { table = t }) m (ground (arith, f, g)))
        ]
      ]

  input_packet-refused :
      (p : Packet) (h : Ipv4Header) (i : ℤ) (ucb : ℕ) (lcb : Option ℕ) (ecb : ℕ) (n m : Node)
      → pos 0 ≤ℤ n.table.bad_link_lifetime
      → input_packet w p h i ucb lcb ecb n ≡ some (m, false)
      → (ns.is_multicast h.destination ≡ true)
        ⊎ ((lookup_valid_route w h.destination (blank w) n).1 ≡ false)
  unfolding input_packet
  input_packet-refused p h i ucb lcb ecb n m b e =
      ground (arith, input_local-taken p h i lcb ecb n m, forwarding-refused p h ucb n m b)

-- `RouteInput` does not take a packet only if the protocol has no interface, or the packet is for a
-- multicast address, or there is no valid route to its destination; for a table that keeps
-- invalid entries for some time, or none.
pub route_input-refused :
    (w : World) (p : Packet) (h : Ipv4Header) (idev ucb : ℕ) (lcb : Option ℕ) (ecb : ℕ) (n m : Node)
    → pos 0 ≤ℤ n.table.bad_link_lifetime
    → route_input w p h idev ucb lcb ecb n ≡ some (m, false)
    → (n.socket_addresses ≡ [])
      ⊎ (w.ns.is_multicast h.destination ≡ true)
      ⊎ ((lookup_valid_route w h.destination (blank w) n).1 ≡ false)
unfolding route_input has_no_sockets
route_input-refused w p h idev ucb lcb ecb n m b e = ground (
  arith,
  input_deferred-taken w p h ucb ecb n m,
  input_packet-refused w p h (w.ns.interface_for_device idev) ucb lcb ecb n m b,
)
