-- ===== src/Protocol/Kept/DataPath.antt =====
-- `RouteInput` and `RouteOutput`.
use madaodv_ns.Base.{ℕ, Bool, true, false, Option, none, some}
use madaodv_ns.Int.{ℤ}
use madaodv_ns.Ipv4.{Packet, Ipv4Header}
use madaodv_ns.Entry.{Route}
use madaodv_ns.IdCache.{is_duplicate_packet}
use madaodv_ns.Protocol.{World, Node, Action, blank, is_my_own_address, emit, lookup_route}
use madaodv_ns.Protocol.RouteInput.{
  deliver, forward_broadcast, input_broadcast, refresh_source, input_local, input_packet,
  input_deferred, route_input,
}
use madaodv_ns.Protocol.RouteOutput.{
  Output, loopback_route, output_through, output_loopback, output_packet, route_output,
}
use madaodv_ns.Protocol.After.{After, fails, gives, bind-After, any-After, if-both}
use madaodv_ns.Protocol.Kept.{
  Law, Kept, lookup_route-Kept, lookup_valid_route-Kept, update_route_life_time-Kept,
}
use madaodv_ns.Protocol.Kept.Errors.{update_neighbor-Kept}
use madaodv_ns.Protocol.Kept.Entries.{forwarding-Kept, deferred_route_output-Kept}

module _ (w : World) (l : Law) where
  open w use {ns, now}

  abbrev pub TakenKept : Node × Bool → Type 0
  TakenKept (n, taken) = Kept l n

  deliver-Kept :
      (x : Packet) (h : Ipv4Header) (i : ℤ) (lcb : Option ℕ) (ecb : ℕ) (n : Node)
      → Kept l n
      → Kept l (deliver x h i lcb ecb n)
  unfolding deliver emit
  deliver-Kept x h i none ecb n p = record { holds = p.holds }
  deliver-Kept x h i (some lcb) ecb n p = record { holds = p.holds }

  forward_broadcast-Kept :
      (x : Packet) (h : Ipv4Header) (ucb : ℕ) (n : Node)
      → Kept l n
      → Kept l (forward_broadcast w x h ucb n)
  unfolding forward_broadcast emit
  forward_broadcast-Kept x h ucb n p =
      let p' = lookup_route-Kept w l h.destination (blank w) n p in
      if-both (Kept l) _
        (if-both (Kept l) (lookup_route w h.destination (blank w) n).1 (record { holds = p'.holds })
          p')
        p

  input_broadcast-Kept :
      (x : Packet) (h : Ipv4Header) (i : ℤ) (ucb : ℕ) (lcb : Option ℕ) (ecb : ℕ) (n : Node)
      → Kept l n
      → Kept l (input_broadcast w x h i ucb lcb ecb n)
  unfolding input_broadcast
  input_broadcast-Kept x h i ucb lcb ecb n p =
      let (dpd, seen) = is_duplicate_packet now h.source x.uid n.dpd in
      let p1 : Kept l (record n { dpd = dpd }) = record { holds = p.holds } in
      let p3 = deliver-Kept x h i lcb ecb _ (update_route_life_time-Kept w l h.source _ _ p1) in
      if-both (Kept l) seen p1 (if-both (Kept l) _ p3 (forward_broadcast-Kept x h ucb _ p3))

  refresh_source-Kept : (a : ℕ) (n : Node) → Kept l n → After (Kept l) (refresh_source w a n)
  unfolding refresh_source
  refresh_source-Kept a n p =
      let p1 = update_route_life_time-Kept w l a _ n p in
      let p2 = lookup_valid_route-Kept w l a (blank w) _ p1 in
      if-both (After (Kept l)) _
        (update_neighbor-Kept w l _ _ _ (update_route_life_time-Kept w l _ _ _ p2)) (gives p2)

  input_local-Kept :
      (x : Packet) (h : Ipv4Header) (i : ℤ) (lcb : Option ℕ) (ecb : ℕ) (n : Node)
      → Kept l n
      → After TakenKept (input_local w x h i lcb ecb n)
  unfolding input_local
  input_local-Kept x h i lcb ecb n p =
      bind-After (Kept l) TakenKept _ _ (refresh_source-Kept h.source n p)
        (λ n' q. gives (deliver-Kept x h i lcb ecb n' q))

  reject-Kept : (a : Action) (n : Node) → Kept l n → Kept l (emit a n)
  unfolding emit
  reject-Kept a n p = record { holds = p.holds }

  input_packet-Kept :
      (x : Packet) (h : Ipv4Header) (i : ℤ) (ucb : ℕ) (lcb : Option ℕ) (ecb : ℕ) (n : Node)
      → Kept l n
      → After TakenKept (input_packet w x h i ucb lcb ecb n)
  unfolding input_packet
  input_packet-Kept x h i ucb lcb ecb n p =
      if-both (After TakenKept) (is_my_own_address w h.source n) (gives {a = (n, true)} p) (
        if-both (After TakenKept) (ns.is_multicast h.destination) (gives {a = (n, false)} p) (
          if-both (After TakenKept) _ (gives (input_broadcast-Kept x h i ucb lcb ecb n p)) (
            if-both (After TakenKept) _ (input_local-Kept x h i lcb ecb n p) (
              if-both (After TakenKept) _ (gives (reject-Kept _ n p))
                (forwarding-Kept w l x h ucb n p)))))

  input_deferred-Kept :
      (x : Packet) (h : Ipv4Header) (ucb ecb : ℕ) (n : Node)
      → Kept l n
      → After TakenKept (input_deferred w x h ucb ecb n)
  unfolding input_deferred
  input_deferred-Kept x h ucb ecb n p =
      bind-After (Kept l) TakenKept _ _ (deferred_route_output-Kept w l x h ucb ecb n p)
        (λ n' q. gives q)

  pub route_input-Kept :
      (x : Packet) (h : Ipv4Header) (idev ucb : ℕ) (lcb : Option ℕ) (ecb : ℕ) (n : Node)
      → Kept l n
      → After TakenKept (route_input w x h idev ucb lcb ecb n)
  unfolding route_input
  route_input-Kept x h idev ucb lcb ecb n p = if-both (After TakenKept) _ (gives p) (
      if-both (After TakenKept) _ fails (
        if-both (After TakenKept) _ (input_deferred-Kept x h ucb ecb n p)
          (input_packet-Kept x h _ ucb lcb ecb n p)))

  abbrev pub OutputKept : Output → Type 0
  OutputKept o = Kept l o.node

  output_through-Kept :
      (x : Packet) (dst oif : ℕ) (route : Route) (n : Node)
      → Kept l n
      → OutputKept (output_through w x dst oif route n)
  unfolding output_through
  output_through-Kept x dst oif route n p = if-both OutputKept _ p (
      update_route_life_time-Kept w l route.gateway _ _ (update_route_life_time-Kept w l dst _ n p))

  output_loopback-Kept :
      (x : Packet) (h : Ipv4Header) (oif : ℕ) (n : Node)
      → Kept l n
      → After OutputKept (output_loopback w x h oif n)
  unfolding output_loopback
  output_loopback-Kept x h oif n p =
      bind-After (λ r. Unit) OutputKept (loopback_route w h oif n) _ (any-After _) (λ r q. gives p)

  output_packet-Kept :
      (x : Packet) (h : Ipv4Header) (oif : ℕ) (n : Node)
      → Kept l n
      → After OutputKept (output_packet w x h oif n)
  unfolding output_packet
  output_packet-Kept x h oif n p =
      let p' = lookup_valid_route-Kept w l h.destination (blank w) n p in
      if-both (After OutputKept) _ (gives (output_through-Kept x _ oif _ _ p'))
        (output_loopback-Kept x h oif _ p')

  pub route_output-Kept :
      (x : Option Packet) (h : Ipv4Header) (oif : ℕ) (n : Node)
      → Kept l n
      → After OutputKept (route_output w x h oif n)
  unfolding route_output
  route_output-Kept none h oif n p =
      bind-After (λ r. Unit) OutputKept (loopback_route w h oif n) _ (any-After _) (λ r q. gives p)
  route_output-Kept (some x) h oif n p =
      if-both (After OutputKept) _ (gives p) (output_packet-Kept x h oif n p)
