-- ===== src/Protocol/Kept/Requests.antt =====
-- `RecvRequest`.
use madaodv_ns.IdCache.{is_duplicate}
use madaodv_ns.Base.{◌&&◌, ℕ, [], ◌∷◌}
use madaodv_ns.Map.{Map}
use madaodv_ns.Entry.{Entry}
use madaodv_ns.Headers.{RreqHeader}
use madaodv_ns.Protocol.{lookup_route, World, Node, blank, emit, send_later}
use madaodv_ns.Protocol.RecvRequest.{
  reverse_route, neighbor_route, forward_rreq, relay, answer_or_relay, answer, handle_request,
  recv_request,
}
use madaodv_ns.Protocol.After.{
  After, fails, gives, bind-After, if-both, elim-both, option_cases-both,
}
use madaodv_ns.Protocol.Kept.{Law, Kept, lookup_route-Kept, update_route-Kept, add_route-Kept}
use madaodv_ns.Protocol.Kept.Messages.{send_reply-Kept, send_reply_by_intermediate_node-Kept}
use madaodv_ns.Protocol.Kept.Errors.{update_neighbor-Kept}

module _ (w : World) (l : Law) where
  abbrev EntryKept : Node × Entry → Type 0
  EntryKept (n, rt) = Kept l n

  reverse_route-Kept :
      (h : RreqHeader) (r src : ℕ) (n : Node)
      → Kept l n
      → After EntryKept (reverse_route w h r src n)
  unfolding reverse_route
  reverse_route-Kept h r src n p =
      let p' = lookup_route-Kept w l h.origin (blank w) n p in
      if-both (After EntryKept) _
        (elim-both (After EntryKept) _ fails (λ s. gives (update_route-Kept w l _ _ p')))
        (gives (add_route-Kept w l _ _ p'))

  neighbor_route-Kept :
      (h : RreqHeader) (r src : ℕ) (n : Node) → Kept l n → Kept l (neighbor_route w h r src n)
  unfolding neighbor_route
  neighbor_route-Kept h r src n p =
      let p' = lookup_route-Kept w l src (blank w) n p in
      if-both (Kept l) _ (update_route-Kept w l _ _ p') (add_route-Kept w l _ _ p')

  forward_rreq-Kept :
      (ttl : ℕ) (h : RreqHeader) (s : Map ℕ) (n : Node)
      → Kept l n
      → Kept l (forward_rreq w ttl h s n)
  unfolding forward_rreq send_later emit
  forward_rreq-Kept ttl h [] n p = p
  forward_rreq-Kept ttl h ((socket, i) ∷ s) n p =
      forward_rreq-Kept ttl h s _ (record { holds = p.holds })

  relay-Kept : (ttl : ℕ) (h : RreqHeader) (n : Node) → Kept l n → After (Kept l) (relay w ttl h n)
  unfolding relay
  relay-Kept ttl h n p = gives (if-both (Kept l) _ p (forward_rreq-Kept _ h _ n p))

  answer_or_relay-Kept :
      (ttl : ℕ) (h : RreqHeader) (src : ℕ) (rt rt' : Entry) (n : Node)
      → Kept l n
      → After (Kept l) (answer_or_relay w ttl h src rt rt' n)
  unfolding answer_or_relay
  answer_or_relay-Kept ttl h src rt rt' n p = if-both (After (Kept l)) _ (gives p) (
      option_cases-both (After (Kept l)) _ fails (relay-Kept ttl h n p) (
        if-both (After (Kept l)) _
          (send_reply_by_intermediate_node-Kept w l _ _ _ _ (lookup_route-Kept w l h.origin _ n p))
          (relay-Kept ttl _ n p)))

  answer-Kept :
      (ttl : ℕ) (h : RreqHeader) (src : ℕ) (rt : Entry) (n : Node)
      → Kept l n
      → After (Kept l) (answer w ttl h src rt n)
  unfolding answer
  answer-Kept ttl h src rt n p =
      let p' = lookup_route-Kept w l h.dst (blank w) n p in
      if-both (After (Kept l)) _ (send_reply-Kept w l h _ _ (lookup_route-Kept w l h.origin rt n p))
        (if-both (After (Kept l)) _ (answer_or_relay-Kept ttl h src rt _ _ p')
          (relay-Kept ttl h _ p'))

  handle_request-Kept :
      (ttl : ℕ) (h : RreqHeader) (r src : ℕ) (n : Node)
      → Kept l n
      → After (Kept l) (handle_request w ttl h r src n)
  unfolding handle_request
  handle_request-Kept ttl h r src n p =
      bind-After EntryKept (Kept l) _ _ (reverse_route-Kept h r src n p) (λ reversed q.
        bind-After (Kept l) (Kept l) _ _
          (update_neighbor-Kept w l src _ _ (neighbor_route-Kept h r src reversed.0 q))
          (answer-Kept ttl h src reversed.1))

  pub recv_request-Kept :
      (ttl : ℕ) (h : RreqHeader) (r src : ℕ) (n : Node)
      → Kept l n
      → After (Kept l) (recv_request w ttl h r src n)
  unfolding recv_request
  recv_request-Kept ttl h r src n p =
      let (n', ok, to_prev) = lookup_route w src (blank w) n in
      let p' = lookup_route-Kept w l src (blank w) n p in
      let (cache, seen) = is_duplicate w.now h.origin h.request_id n'.rreq_id_cache in
      if-both (After (Kept l)) (ok && to_prev.black_list_state) (gives p') (
        if-both (After (Kept l)) seen (gives (record { holds = p'.holds }))
          (handle_request-Kept ttl _ r src _ (record { holds = p'.holds })))
