-- ===== src/Protocol/Kept/Replies.antt =====
-- `RecvReply`.
use madaodv_ns.Base.{ℕ}
use madaodv_ns.Entry.{Entry, in_search, flag_eq}
use madaodv_ns.Headers.{RrepHeader}
use madaodv_ns.Protocol.{World, Node, blank}
use madaodv_ns.Protocol.RecvReply.{
  note_precursor, forward_route, acknowledge, cancel_request, consume_reply, link_precursors,
  relay_reply, handle_reply, recv_reply,
}
use madaodv_ns.Protocol.After.{After, fails, gives, bind-After, if-both, elim-both}
use madaodv_ns.Protocol.Kept.{
  Law, Kept, lookup_route-Kept, lookup_valid_route-Kept, update_route-Kept, add_route-Kept,
}
use madaodv_ns.Protocol.Kept.Discovery.{send_packet_from_queue-Kept}
use madaodv_ns.Protocol.Kept.Messages.{process_hello-Kept, send_through-Kept, send_reply_ack-Kept}

module _ (w : World) (l : Law) where
  abbrev EntryKept : Node × Entry → Type 0
  EntryKept (n, rt) = Kept l n

  note_precursor-Kept : (a : ℕ) (rt : Entry) (n : Node) → Kept l n → Kept l (note_precursor a rt n)
  unfolding note_precursor
  note_precursor-Kept a rt n p = update_route-Kept w l _ n p

  forward_route-Kept :
      (h : RrepHeader) (rt : Entry) (n : Node) → Kept l n → After EntryKept (forward_route w h rt n)
  unfolding forward_route
  forward_route-Kept h rt n p =
      let p' = lookup_route-Kept w l h.dst (blank w) n p in
      if-both (After EntryKept) _
        (elim-both (After EntryKept) _ fails
          (λ r. gives (if-both (Kept l) r (update_route-Kept w l rt _ p') p')))
        (gives (add_route-Kept w l rt _ p'))

  acknowledge-Kept :
      (h : RrepHeader) (a : ℕ) (n : Node) → Kept l n → After (Kept l) (acknowledge w h a n)
  unfolding acknowledge
  acknowledge-Kept h a n p = if-both (After (Kept l)) _ (send_reply_ack-Kept w l a n p) (gives p)

  cancel_request-Kept : (a : ℕ) (n : Node) → Kept l n → Kept l (cancel_request w a n)
  unfolding cancel_request
  cancel_request-Kept a n p = record { holds = p.holds }

  consume_reply-Kept :
      (h : RrepHeader) (rt rt' : Entry) (n : Node)
      → Kept l n
      → After (Kept l) (consume_reply w h rt rt' n)
  unfolding consume_reply
  consume_reply-Kept h rt rt' n p = send_packet_from_queue-Kept w l h.dst _ _ (
      lookup_route-Kept w l h.dst rt' _ (
        if-both (Kept l) (flag_eq rt'.flag in_search)
          (cancel_request-Kept h.dst _ (update_route-Kept w l rt n p)) p))

  link_precursors-Kept :
      (h : RrepHeader) (rt rt' : Entry) (n : Node)
      → Kept l n
      → EntryKept (link_precursors w h rt rt' n)
  unfolding link_precursors
  link_precursors-Kept h rt rt' n p =
      let p1 = lookup_valid_route-Kept w l h.dst rt n p in
      let p3 = lookup_route-Kept w l _ (blank w) _ (note_precursor-Kept _ _ _ p1) in
      let p5 = update_route-Kept w l _ _ (note_precursor-Kept _ _ _ p3) in
      let p6 = lookup_route-Kept w l _ (blank w) _ p5 in
      if-both EntryKept _ (note_precursor-Kept _ _ _ p6) p1

  relay_reply-Kept :
      (ttl : ℕ) (h : RrepHeader) (rt : Entry) (n : Node)
      → Kept l n
      → After (Kept l) (relay_reply w ttl h rt n)
  unfolding relay_reply
  relay_reply-Kept ttl h rt n p =
      let p1 = lookup_route-Kept w l h.origin (blank w) n p in
      let p2 = link_precursors-Kept h rt _ _ (update_route-Kept w l _ _ p1) in
      if-both (After (Kept l)) _ (gives p1)
        (if-both (After (Kept l)) _ (gives p2) (send_through-Kept w l _ _ _ _ _ p2))

  handle_reply-Kept :
      (ttl : ℕ) (h : RrepHeader) (r src : ℕ) (n : Node)
      → Kept l n
      → After (Kept l) (handle_reply w ttl h r src n)
  unfolding handle_reply
  handle_reply-Kept ttl h r src n p =
      bind-After EntryKept (Kept l) _ _ (forward_route-Kept h _ n p) (λ routed q.
        bind-After (Kept l) (Kept l) _ _ (acknowledge-Kept h src routed.0 q) (λ acked q'.
          if-both (After (Kept l)) _ (consume_reply-Kept h _ routed.1 acked q')
            (relay_reply-Kept ttl _ routed.1 acked q')))

  pub recv_reply-Kept :
      (ttl : ℕ) (h : RrepHeader) (r src : ℕ) (n : Node)
      → Kept l n
      → After (Kept l) (recv_reply w ttl h r src n)
  unfolding recv_reply
  recv_reply-Kept ttl h r src n p =
      if-both (After (Kept l)) _ (process_hello-Kept w l _ r n p)
        (handle_reply-Kept ttl _ r src n p)
