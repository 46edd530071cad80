-- ===== src/Protocol/Deferred.antt =====
-- A packet that is put off waits in the queue.
use madaodv_ns.Base.{
  ℕ, ◌≡◌, Bool, true, false, not, some, List, [], ◌∷◌, ◌||◌, ◌==◌, any, any-append, reject, arith,
  Option-cases, Bool-cases, inl, inr,
}
use madaodv_ns.Int.{ℤ}
use madaodv_ns.Ipv4.{Packet, Ipv4Header}
use madaodv_ns.Entry.{in_search, flag_eq}
use madaodv_ns.RequestQueue.{
  QueueEntry, RequestQueue, make_queue_entry, same_packet, set_expire_time, is_expired, place,
  purge, enqueue,
}
use madaodv_ns.Protocol.{World, Node, lookup_route, blank, emit}
use madaodv_ns.Protocol.Request.{send_request}
use madaodv_ns.Protocol.Queue.{fail_all}
use madaodv_ns.Protocol.Asked.{send_request-Broadcast}
use madaodv_ns.Protocol.Handlers.{await_route, deferred_route_output}

same_packet-set_expire_time :
    (now t : ℤ) (e : QueueEntry) → same_packet e (set_expire_time now t e) ≡ true
unfolding same_packet set_expire_time
same_packet-set_expire_time now t e = ground arith

place-waits :
    (len : ℕ) (e x : QueueEntry) (es es' oldest : List QueueEntry)
    → same_packet e x ≡ true
    → place len x es ≡ some (es', oldest)
    → any (same_packet e) es' ≡ true
unfolding place any
place-waits len e x [] es' oldest s h = ground (arith, s)
place-waits len e x (y ∷ es) es' oldest s h =
    ground (arith, s, any-append (same_packet e) es (x ∷ []))

enqueue-waits :
    (now : ℤ) (e : QueueEntry) (q q' : RequestQueue) (dropped : List QueueEntry) (done : Bool)
    → enqueue now e q ≡ some (q', dropped, done)
    → any (same_packet e) q'.queue ≡ true
unfolding enqueue purge
enqueue-waits now e q q' dropped done h =
    let live = reject (is_expired now) q.queue in
    let x = set_expire_time now q.queue_timeout e in
    elim (Bool-cases (any (same_packet e) live)) [
      | inl old ↦ ground (arith, old)
      | inr new ↦ elim (Option-cases (place q.max_len x live)) [
        | inl full ↦ ground (arith, new, full)
        | inr ((es, oldest), at) ↦
            let waits =
              place-waits q.max_len e x live es oldest
                (same_packet-set_expire_time now q.queue_timeout e) at in
            ground (arith, new, at, waits)
      ]
    ]

module _ (w : World) where
  open w use {now}

  send_request-queue : (dst : ℕ) (n n' : Node) → send_request w dst n ≡ some n' → n'.queue ≡ n.queue
  unfolding send_request emit
  send_request-queue dst n n' e =
      elim (Bool-cases (let c = n.config in n.rreq_count == c.rreq_rate_limit)) [
        | inl limit ↦ ground (arith, limit)
        | inr free ↦ (let b = send_request-Broadcast w dst n n' free e in b.queue)
      ]

  await_route-queue : (dst : ℕ) (n n' : Node) → await_route w dst n ≡ some n' → n'.queue ≡ n.queue
  unfolding await_route lookup_route
  await_route-queue dst n n' e =
      let (m, ok, rt) = lookup_route w dst (blank w) n in
      elim (Bool-cases (not ok || not (flag_eq rt.flag in_search))) [
        | inl asks ↦ send_request-queue dst m n' (rw asks at e)
        | inr on ↦ ground (arith, on)
      ]

  pub deferred_route_output-waits :
      (p : Packet) (header : Ipv4Header) (ucb ecb : ℕ) (n n' : Node)
      → deferred_route_output w p header ucb ecb n ≡ some n'
      → (let q = n'.queue in any (same_packet (make_queue_entry now p header ucb ecb)) q.queue)
        ≡ true
  unfolding deferred_route_output fail_all
  deferred_route_output-waits p header ucb ecb n n' e =
      let x = make_queue_entry now p header ucb ecb in
      elim (Option-cases (enqueue now x n.queue)) [
        | inl fault ↦ ground (arith, fault)
        | inr ((q, dropped, true), at) ↦
            let same = await_route-queue header.destination _ n' (rw at at e) in
            rw same (enqueue-waits now x n.queue q dropped true at)
        | inr ((q, dropped, false), at) ↦
            let waits = enqueue-waits now x n.queue q dropped false at in ground (arith, at, waits)
      ]
