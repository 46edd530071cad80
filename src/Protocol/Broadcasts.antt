-- ===== src/Protocol/Broadcasts.antt =====
-- `RouteInput` of broadcasts, and the packets that it does not take.
use madaodv_ns.Base.{
  ◌%◌, ℕ, ◌≡◌, refl, Bool, true, false, Option, none, some, inl, inr, arith, Bool-cases,
}
use madaodv_ns.Int.{ℤ, ◌≤ℤ◌, ◌+ℤ◌}
use madaodv_ns.Ipv4.{Packet, Ipv4Header}
use madaodv_ns.IdCache.{IdCache, is_duplicate, is_duplicate_packet}
use madaodv_ns.IdCache.Memory.{remembers, is_duplicate_lem, remembers-is_duplicate}
use madaodv_ns.Protocol.{World, Node, lookup_route, update_route, is_my_own_address, emit}
use madaodv_ns.Protocol.Routes.{update_route_life_time}
use madaodv_ns.Protocol.RouteOutput.{has_no_sockets}
use madaodv_ns.Protocol.RouteInput.{
  deliver, takes_broadcast, forward_broadcast, input_broadcast, input_packet, route_input,
}

-- The node as it was, but for the cache of packets.
abbrev pub IsDropped : Node → Node → Type 0
IsDropped n m = (c : IdCache) × (m ≡ record n { dpd = c })

input_broadcast-seen :
    (w : World) (p : Packet) (h : Ipv4Header) (i : ℤ) (ucb : ℕ) (lcb : Option ℕ) (ecb : ℕ)
    (n : Node)
    → remembers w.now h.source (p.uid % 4294967296) n.dpd ≡ true
    → IsDropped n (input_broadcast w p h i ucb lcb ecb n)
unfolding input_broadcast is_duplicate_packet
input_broadcast-seen w p h i ucb lcb ecb n m = (
  (is_duplicate w.now h.source (p.uid % 4294967296) n.dpd).0,
  rw (is_duplicate_lem w.now h.source (p.uid % 4294967296) n.dpd, m) refl,
)

module _ (w : World) where
  update_route_life_time-dpd :
      (a : ℕ) (t : ℤ) (n : Node) → (update_route_life_time w a t n).0.dpd ≡ n.dpd
  unfolding update_route_life_time lookup_route update_route
  update_route_life_time-dpd a t n = ground arith

  deliver-dpd :
      (p : Packet) (h : Ipv4Header) (i : ℤ) (lcb : Option ℕ) (ecb : ℕ) (n : Node)
      → (deliver p h i lcb ecb n).dpd ≡ n.dpd
  unfolding deliver emit
  deliver-dpd p h i none ecb n = refl
  deliver-dpd p h i (some lcb) ecb n = refl

  forward_broadcast-dpd :
      (p : Packet) (h : Ipv4Header) (ucb : ℕ) (n : Node)
      → (forward_broadcast w p h ucb n).dpd ≡ n.dpd
  unfolding forward_broadcast lookup_route emit
  forward_broadcast-dpd p h ucb n = ground arith

  input_broadcast-dpd :
      (p : Packet) (h : Ipv4Header) (i : ℤ) (ucb : ℕ) (lcb : Option ℕ) (ecb : ℕ) (n : Node)
      → (input_broadcast w p h i ucb lcb ecb n).dpd
        ≡ (is_duplicate w.now h.source (p.uid % 4294967296) n.dpd).0
  unfolding input_broadcast is_duplicate_packet
  input_broadcast-dpd p h i ucb lcb ecb n =
      let c = n.config in
      let n1 = record n { dpd = (is_duplicate w.now h.source (p.uid % 4294967296) n.dpd).0 } in
      let n2 = (update_route_life_time w h.source c.active_route_timeout n1).0 in
      let n3 = deliver p h i lcb ecb n2 in
      ground (
        arith,
        update_route_life_time-dpd h.source c.active_route_timeout n1,
        deliver-dpd p h i lcb ecb n2,
        forward_broadcast-dpd p h ucb n3,
      )

  input_packet-IsDropped :
      (p : Packet) (h : Ipv4Header) (i : ℤ) (ucb : ℕ) (lcb : Option ℕ) (ecb : ℕ) (n m : Node)
      (taken : Bool)
      → remembers w.now h.source (p.uid % 4294967296) n.dpd ≡ true
      → takes_broadcast w i h.destination n.socket_addresses ≡ true
      → input_packet w p h i ucb lcb ecb n ≡ some (m, taken)
      → IsDropped n m
  unfolding input_packet
  input_packet-IsDropped p h i ucb lcb ecb n m taken r t e =
      let (c, seen) = input_broadcast-seen w p h i ucb lcb ecb n r in
      elim (Bool-cases (is_my_own_address w h.source n)) [
        | inl own ↦ (n.dpd, ground (arith, own))
        | inr other ↦ elim (Bool-cases (let ns = w.ns in ns.is_multicast h.destination)) [
          | inl group ↦ (n.dpd, ground (arith, other, group))
          | inr single ↦ (c, ground (arith, other, single, t, seen))
        ]
      ]

-- A broadcast packet that a node has just taken, and that was new, is dropped when it comes in
-- again from whichever neighbor, until the lifetime of the cache is over: it is not delivered, not
-- sent on, and changes no route.
pub input_broadcast-IsDropped :
    (w w' : World) (p q : Packet) (h g : Ipv4Header) (i : ℤ) (idev ucb ecb : ℕ) (lcb : Option ℕ)
    (n m : Node) (taken : Bool)
    → remembers w.now h.source (p.uid % 4294967296) n.dpd ≡ false
    → w.now ≤ℤ w'.now
    → w'.now ≤ℤ n.dpd.lifetime +ℤ w.now
    → g.source ≡ h.source
    → q.uid ≡ p.uid
    → q.deferred_tag ≡ none
    → takes_broadcast w'
        (w'.ns.interface_for_device idev)
        g.destination
        (input_broadcast w p h i ucb lcb ecb n).socket_addresses
      ≡ true
    → route_input w' q g idev ucb lcb ecb (input_broadcast w p h i ucb lcb ecb n) ≡ some (m, taken)
    → IsDropped (input_broadcast w p h i ucb lcb ecb n) m
unfolding route_input
input_broadcast-IsDropped w w' p q h g i idev ucb ecb lcb n m taken new l u s d untagged t e =
    let first = input_broadcast w p h i ucb lcb ecb n in
    let r : remembers w'.now h.source (p.uid % 4294967296) first.dpd ≡ true =
      rw (input_broadcast-dpd w p h i ucb lcb ecb n) (
        ground (
          arith,
          new,
          u,
          remembers-is_duplicate w.now w'.now h.source (p.uid % 4294967296) h.source
              (p.uid % 4294967296) n.dpd l,
        )) in
    elim (Bool-cases (has_no_sockets first)) [
      | inl closed ↦ (first.dpd, ground (arith, closed))
      | inr open_ ↦
          input_packet-IsDropped w' q g _ ucb lcb ecb first m taken (rw (s, d) r) t
            (ground (arith, open_, untagged))
    ]
