-- ===== src/Protocol/Routed.antt =====
-- What becomes of the packets that leave and come in: `RouteOutput`, then `RouteInput` of what was
-- looped back, and `RouteInput` of broadcasts.
use madaodv_ns.Base.{
  ◌≢◌, ap, sym, ◌∙◌, ℕ, ◌≡◌, refl, true, none, some, [], ◌∷◌, ◌⊎◌, inl, inr, arith, Option-cases,
  Bool-cases, any,
}
use madaodv_ns.Map.{Map, find}
use madaodv_ns.Ipv4.{Packet, Ipv4Header}
use madaodv_ns.Entry.{Entry, Route, valid}
use madaodv_ns.RoutingTable.{purge}
use madaodv_ns.RoutingTable.Lookup.{lookup_valid_route-found}
use madaodv_ns.RoutingTable
use madaodv_ns.Protocol.{World, Node, lookup_valid_route, blank, owns, is_my_own_address}
use madaodv_ns.Protocol.RouteOutput.{
  Output, no_error, no_route_to_host, has_no_sockets, tag_interface, source_on, loopback_source,
  loopback_route, output_through, output_interface, output_loopback, output_packet, route_output,
}

module _ (w : World) where
  open w use {ns, now}

  source_on-owned :
      (oif a : ℕ) (sockets : Map ℕ) → source_on w oif sockets ≡ some a → owns w a sockets ≡ true
  unfolding source_on owns any
  source_on-owned oif a [] h = cc
  source_on-owned oif a ((socket, iface) ∷ sockets) h =
      ground (arith, source_on-owned oif a sockets)

  loopback_source-owned :
      (oif a : ℕ) (sockets : Map ℕ)
      → loopback_source w oif sockets ≡ some a
      → (owns w a sockets ≡ true) ⊎ (a ≡ ns.no_address)
  unfolding loopback_source owns any
  loopback_source-owned oif a [] h = ground (arith, source_on-owned oif a [])
  loopback_source-owned oif a (s ∷ sockets) h = ground (arith, source_on-owned oif a (s ∷ sockets))

  -- The route to the loopback.
  pub record LoopsBack (header : Ipv4Header) (n : Node) (r : Route) : Type 0 where
    pub device : r.output_device ≡ n.lo
    pub gateway : r.gateway ≡ ns.loopback
    pub destination : r.destination ≡ header.destination
    pub source : is_my_own_address w r.source n ≡ true

  loopback_route-LoopsBack :
      (header : Ipv4Header) (oif : ℕ) (n : Node) (r : Route)
      → loopback_route w header oif n ≡ some r
      → LoopsBack header n r
  unfolding loopback_route is_my_own_address
  loopback_route-LoopsBack header oif n r h =
      elim (Option-cases (loopback_source w oif n.socket_addresses)) [
        | inl e ↦ ground arith
        | inr (a, e) ↦ ground (arith, e, loopback_source-owned oif a n.socket_addresses e)
      ]

  -- A route of the table: a valid entry for the destination, through the device that was asked for
  -- if one was.
  pub record IsDirect (dst oif : ℕ) (n : Node) (r : Route) : Type 0 where
    pub entry : Entry
    pub held : find dst (purge now n.table).entries ≡ some entry
    pub flag : entry.flag ≡ valid
    pub route : r ≡ entry.route
    pub device : (oif ≡ 0) ⊎ (r.output_device ≡ oif)

  output_through-device :
      (p : Packet) (dst oif : ℕ) (n : Node) (r r' : Route)
      → (output_through w p dst oif r n).route ≡ some r'
      → (r' ≡ r)
        × ((oif ≡ 0) ⊎ (r.output_device ≡ oif))
        × ((output_through w p dst oif r n).packet ≡ some p)
        × ((output_through w p dst oif r n).sockerr ≡ some no_error)
  unfolding output_through
  output_through-device p dst oif n r r' h = ground arith

  output_through-IsDirect :
      (p : Packet) (dst oif : ℕ) (n m : Node) (e : Entry) (r : Route)
      → find dst (purge now n.table).entries ≡ some e
      → e.flag ≡ valid
      → (output_through w p dst oif e.route m).route ≡ some r
      → IsDirect dst oif n r
  output_through-IsDirect p dst oif n m e r at f h =
      let (same, device, kept, fine) = output_through-device p dst oif m e.route r h in
      record { entry = e; held = at; flag = f; route = same; device = ground (arith, device, same) }

  output_loopback-LoopsBack :
      (p : Packet) (header : Ipv4Header) (oif : ℕ) (n : Node) (o : Output) (r : Route)
      → output_loopback w p header oif n ≡ some o
      → o.route ≡ some r
      → LoopsBack header n r
        × (o.packet ≡ some (tag_interface (output_interface w oif) p))
        × (o.sockerr ≡ some no_error)
  unfolding output_loopback
  output_loopback-LoopsBack p header oif n o r h e =
      elim (Option-cases (loopback_route w header oif n)) [
        | inl f ↦ ground (arith, f)
        | inr (r', f) ↦ (
          loopback_route-LoopsBack header oif n r (ground (arith, f)),
          ground (arith, f),
          ground (arith, f),
        )
      ]

  -- Through which of the two ways a packet leaves.
  abbrev pub Leaves : Packet → Ipv4Header → ℕ → Node → Output → Route → Type 0
  Leaves p header oif n o r =
      (IsDirect header.destination oif n r × (o.packet ≡ some p))
      ⊎ (LoopsBack header n r × (o.packet ≡ some (tag_interface (output_interface w oif) p)))

  output_packet-Leaves :
      (p : Packet) (header : Ipv4Header) (oif : ℕ) (n : Node) (o : Output) (r : Route)
      → output_packet w p header oif n ≡ some o
      → o.route ≡ some r
      → (o.sockerr ≡ some no_error) × Leaves p header oif n o r
  unfolding output_packet lookup_valid_route is_my_own_address
  output_packet-Leaves p header oif n o r h e =
      let dst = header.destination in
      let (t, ok, rt) = RoutingTable.lookup_valid_route now dst (blank w) n.table in
      elim (Bool-cases ok) [
        | inl f ↦
            let (at, flag) = (lookup_valid_route-found now dst (blank w) rt n.table).0 (f, refl) in
            let n' = record n { table = t } in
            let same : output_through w p dst oif rt.route n' ≡ o = ground (arith, f) in
            let there = ap (λ x. x.route) same ∙ e in
            let (it, device, kept, fine) = output_through-device p dst oif n' rt.route r there in
            (
              sym (ap (λ x. x.sockerr) same) ∙ fine,
              inl (
                output_through-IsDirect p dst oif n n' rt r at flag there,
                sym (ap (λ x. x.packet) same) ∙ kept,
              ),
            )
        | inr f ↦
            let (loops, packet, fine) =
              output_loopback-LoopsBack p header oif (record n { table = t }) o r
                (ground (arith, f)) e in
            (
              fine,
              inr (
                record {
                  device = loops.device;
                  gateway = loops.gateway;
                  destination = loops.destination;
                  source = loops.source;
                },
                packet,
              ),
            )
      ]

-- A packet for which `RouteOutput` gives a route has no error, and leaves in one of two ways. Either
-- the table holds a valid entry for its destination that has not expired, of which this is the
-- route, through the output device if one was asked for; and the packet is as it was. Or the route
-- loops it back, with an address of the node as its source; and the packet has a tag, which is that
-- of the interface that was asked for unless it had one.
pub route_output_lem :
    (w : World) (p : Packet) (header : Ipv4Header) (oif : ℕ) (n : Node) (o : Output) (r : Route)
    → route_output w (some p) header oif n ≡ some o
    → o.route ≡ some r
    → (o.sockerr ≡ some no_error) × Leaves w p header oif n o r
unfolding route_output
route_output_lem w p header oif n o r h e = elim (Bool-cases (has_no_sockets n)) [
  | inl none_left ↦ ground (arith, none_left)
  | inr f ↦ output_packet-Leaves w p header oif n o r (ground (arith, f)) e
]

-- The table holds a valid route, but not through the device that was asked for.
pub record LeavesElsewhere (w : World) (dst oif : ℕ) (n : Node) : Type 0 where
  pub entry : Entry
  pub held : find dst (purge w.now n.table).entries ≡ some entry
  pub flag : entry.flag ≡ valid
  pub asked : oif ≢ 0
  pub elsewhere : entry.route.output_device ≢ oif

output_through-refused :
    (w : World) (p : Packet) (dst oif : ℕ) (n : Node) (r : Route)
    → (output_through w p dst oif r n).route ≡ none
    → (oif ≢ 0)
      × (r.output_device ≢ oif)
      × ((output_through w p dst oif r n).packet ≡ some p)
      × ((output_through w p dst oif r n).sockerr ≡ some no_route_to_host)
unfolding output_through
output_through-refused w p dst oif n r h = ground arith

output_loopback-route :
    (w : World) (p : Packet) (header : Ipv4Header) (oif : ℕ) (n : Node) (o : Output)
    → output_loopback w p header oif n ≡ some o
    → o.route ≢ none
unfolding output_loopback
output_loopback-route w p header oif n o h e = elim (Option-cases (loopback_route w header oif n)) [
  | inl f ↦ ground (arith, f)
  | inr (r, f) ↦ ground (arith, f)
]

output_packet-refused :
    (w : World) (p : Packet) (header : Ipv4Header) (oif : ℕ) (n : Node) (o : Output)
    → output_packet w p header oif n ≡ some o
    → o.route ≡ none
    → (o.sockerr ≡ some no_route_to_host)
      × (o.packet ≡ some p)
      × LeavesElsewhere w header.destination oif n
unfolding output_packet lookup_valid_route
output_packet-refused w p header oif n o h e =
    let dst = header.destination in
    let (t, ok, rt) = RoutingTable.lookup_valid_route w.now dst (blank w) n.table in
    elim (Bool-cases ok) [
      | inl f ↦
          let (at, flag) = (lookup_valid_route-found w.now dst (blank w) rt n.table).0 (f, refl) in
          let n' = record n { table = t } in
          let same : output_through w p dst oif rt.route n' ≡ o = ground (arith, f) in
          let there = ap (λ x. x.route) same ∙ e in
          let (asked, elsewhere, kept, fine) =
            output_through-refused w p dst oif n' rt.route there in
          (
            sym (ap (λ x. x.sockerr) same) ∙ fine,
            sym (ap (λ x. x.packet) same) ∙ kept,
            record { entry = rt; held = at; flag = flag; asked = asked; elsewhere = elsewhere },
          )
      | inr f ↦
          absurd
            (output_loopback-route w p header oif (record n { table = t }) o (ground (arith, f)) e)
    ]

-- A packet for which `RouteOutput` gives no route has the error that there is none, and is as it
-- was; and either the protocol has no interface, or the valid route to its destination leaves
-- through another device than the one that was asked for.
pub route_output-refused :
    (w : World) (p : Packet) (header : Ipv4Header) (oif : ℕ) (n : Node) (o : Output)
    → route_output w (some p) header oif n ≡ some o
    → o.route ≡ none
    → (o.sockerr ≡ some no_route_to_host)
      × (o.packet ≡ some p)
      × ((n.socket_addresses ≡ []) ⊎ LeavesElsewhere w header.destination oif n)
unfolding route_output has_no_sockets
route_output-refused w p header oif n o h e = elim (Bool-cases (has_no_sockets n)) [
  | inl none_left ↦ ground (arith, none_left)
  | inr f ↦
      let (fine, kept, elsewhere) =
        output_packet-refused w p header oif n o (ground (arith, f)) e in
      (fine, kept, inr elsewhere)
]
