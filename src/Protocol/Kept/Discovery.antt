-- ===== src/Protocol/Kept/Discovery.antt =====
-- `SendRequest`, `ScheduleRreqRetry` and `SendPacketFromQueue`.
use madaodv_ns.Base.{ℕ, zero, suc, Option, none, some, List, [], ◌∷◌}
use madaodv_ns.Map.{Map}
use madaodv_ns.Entry.{Route}
use madaodv_ns.Headers.{RreqHeader}
use madaodv_ns.RequestQueue.{RequestQueue, QueueEntry}
use madaodv_ns.Protocol.{World, Node, blank, emit, send_later}
use madaodv_ns.Protocol.RreqRetry.{schedule_rreq_retry}
use madaodv_ns.Protocol.Request.{search_route, broadcast_rreq, originate_request, send_request}
use madaodv_ns.Protocol.Queue.{fail_all, drain_round, drain, send_packet_from_queue}
use madaodv_ns.Protocol.After.{After, fails, gives, if-both, elim-both, cases-both}
use madaodv_ns.Protocol.Kept.{Law, Kept, lookup_route-Kept, update_route-Kept, add_route-Kept}

module _ (w : World) (l : Law) where
  open w use {ns, now}

  search_route-Kept :
      (dst : ℕ) (h : RreqHeader) (n : Node) → Kept l n → Kept l (search_route w dst h n).0
  unfolding search_route
  search_route-Kept dst h n p =
      let p' = lookup_route-Kept w l dst (blank w) n p in
      if-both {A = Node × ℕ × RreqHeader} (λ r. Kept l r.0) _ (update_route-Kept w l _ _ p')
        (add_route-Kept w l _ _ p')

  broadcast_rreq-Kept :
      (ttl : ℕ) (h : RreqHeader) (m : Map ℕ) (n : Node)
      → Kept l n
      → Kept l (broadcast_rreq w ttl h m n)
  unfolding broadcast_rreq send_later emit
  broadcast_rreq-Kept ttl h [] n p = p
  broadcast_rreq-Kept ttl h ((s, i) ∷ m) n p =
      broadcast_rreq-Kept ttl h m _ (record { holds = p.holds })

  schedule_rreq_retry-Kept :
      (dst : ℕ) (n : Node) → Kept l n → After (Kept l) (schedule_rreq_retry w dst n)
  unfolding schedule_rreq_retry
  schedule_rreq_retry-Kept dst n p =
      let p' = lookup_route-Kept w l dst (blank w) n p in
      elim-both (After (Kept l)) _ fails (λ t. gives (record { holds = p'.holds }))

  originate_request-Kept :
      (dst : ℕ) (n : Node) → Kept l n → After (Kept l) (originate_request w dst n)
  unfolding originate_request
  originate_request-Kept dst n p =
      let p1 = search_route-Kept dst _ n p in
      schedule_rreq_retry-Kept dst _ (broadcast_rreq-Kept _ _ _ _ (record { holds = p1.holds }))

  pub send_request-Kept : (dst : ℕ) (n : Node) → Kept l n → After (Kept l) (send_request w dst n)
  unfolding send_request emit
  send_request-Kept dst n p =
      if-both (After (Kept l)) _ (gives (record { holds = p.holds }))
        (originate_request-Kept dst _ (record { holds = p.holds }))

  drain_round-Kept :
      (k : Node → Option Node) (route : Route) (n : Node)
      (d : RequestQueue × List QueueEntry × Option QueueEntry)
      → ((m : Node) → Kept l m → After (Kept l) (k m))
      → l.Holds n.table d.0
      → After (Kept l) (drain_round w k route n d)
  unfolding drain_round fail_all emit
  drain_round-Kept k route n (q, dropped, none) then p = gives (record { holds = p })
  drain_round-Kept k route n (q, dropped, some e) then p =
      cases-both (After (Kept l)) _ (gives (record { holds = p })) (then _ (record { holds = p }))

  drain-Kept :
      (fuel dst : ℕ) (route : Route) (n : Node)
      → Kept l n
      → After (Kept l) (drain w fuel dst route n)
  unfolding drain
  drain-Kept zero dst route n p = fails
  drain-Kept (suc fuel) dst route n p =
      drain_round-Kept (drain w fuel dst route) route n _ (drain-Kept fuel dst route)
        (l.dequeues now dst n.table n.queue p.holds)

  pub send_packet_from_queue-Kept :
      (dst : ℕ) (route : Route) (n : Node)
      → Kept l n
      → After (Kept l) (send_packet_from_queue w dst route n)
  unfolding send_packet_from_queue
  send_packet_from_queue-Kept dst route n p = drain-Kept _ dst route n p
