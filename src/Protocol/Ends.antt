-- ===== src/Protocol/Ends.antt =====
-- The loop of `SendPacketFromQueue` ends, whatever tags the packets have.
use madaodv_ns.Base.{
  ℕ, zero, suc, ◌<◌, ◌≡◌, refl, Option, none, some, List, [], ◌∷◌, reject, length, arith,
  Option-cases, Bool-cases, inl, inr, length-reject,
}
use madaodv_ns.Entry.{Route}
use madaodv_ns.RequestQueue.{
  QueueEntry, RequestQueue, is_expired, has_dst, purge, take_dst, dequeue,
}
use madaodv_ns.Protocol.{World, Node, emit}
use madaodv_ns.Protocol.Queue.{
  wrong_interface, fail_all, drain, drain_round, send_packet_from_queue,
}

take_dst-shorter :
    (dst : ℕ) (es : List QueueEntry) (e : QueueEntry) (rest : List QueueEntry)
    → take_dst dst es ≡ some (e, rest)
    → length es ≡ suc (length rest)
unfolding take_dst
take_dst-shorter dst [] e rest h = cc
take_dst-shorter dst (x ∷ es) e rest h = elim (Bool-cases (has_dst dst x)) [
  | inl hit ↦ ground arith
  | inr miss ↦ elim (Option-cases (take_dst dst es)) [
    | inl gone ↦ ground arith
    | inr ((f, rest'), at) ↦ ground (arith, take_dst-shorter dst es f rest' at)
  ]
]

module _ (w : World) where
  open w use {ns, now}

  -- The queue of a round is shorter, if it gives a packet.
  abbrev IsShorter : RequestQueue → RequestQueue × List QueueEntry × Option QueueEntry → Type 0
  IsShorter q (q', dropped, none) = Unit
  IsShorter q (q', dropped, some e) = length q'.queue < length q.queue

  dequeue-IsShorter : (dst : ℕ) (q : RequestQueue) → IsShorter q (dequeue now dst q)
  unfolding dequeue purge
  dequeue-IsShorter dst q =
      let live = reject (is_expired now) q.queue in
      elim (Option-cases (take_dst dst live)) [
        | inl e ↦ rw (e, dequeue) tt
        | inr ((f, rest), e) ↦
            rw (e, dequeue)
              (omega
                (arith, take_dst-shorter dst live f rest e, length-reject (is_expired now) q.queue))
      ]

  -- Both give the same result.
  abbrev Agree : Option Node → Option Node → Type 0
  Agree x y = (m : Node) × (x ≡ some m) × (y ≡ some m)

  drain_round-Agree :
      (k k' : Node → Option Node) (route : Route) (n : Node) (q : RequestQueue)
      (d : RequestQueue × List QueueEntry × Option QueueEntry)
      → IsShorter q d
      → ((m : Node) → let q' = m.queue in length q'.queue < length q.queue → Agree (k m) (k' m))
      → Agree (drain_round w k route n d) (drain_round w k' route n d)
  unfolding drain_round fail_all emit
  drain_round-Agree k k' route n q (q', dropped, none) s both = (_, refl, refl)
  drain_round-Agree k k' route n q (q', dropped, some e) s both =
      elim (Bool-cases (wrong_interface ns route e.packet)) [
        | inl wrong ↦ rw (wrong, drain_round) (_, refl, refl)
        | inr right ↦ rw (right, drain_round) (both _ s)
      ]

  drain-Agree :
      (fuel more dst : ℕ) (route : Route) (n : Node)
      → let q = n.queue in
        length q.queue < fuel
        → length q.queue < more
        → Agree (drain w fuel dst route n) (drain w more dst route n)
  unfolding drain
  drain-Agree zero more dst route n h l = absurd (omega arith)
  drain-Agree (suc fuel) zero dst route n h l = absurd (omega arith)
  drain-Agree (suc fuel) (suc more) dst route n h l =
      let q = n.queue in
      drain_round-Agree (drain w fuel dst route) (drain w more dst route) route n q
        (dequeue now dst q) (dequeue-IsShorter dst q)
        (λ m s. drain-Agree fuel more dst route m (omega arith) (omega arith))

-- `SendPacketFromQueue` ends: with more fuel than there are packets in the queue its loop gives a
-- node, which is the same for every such fuel.
pub drain-ends :
    (w : World) (fuel dst : ℕ) (route : Route) (n : Node)
    → let q = n.queue in
      length q.queue < fuel
      → (m : Node) × (send_packet_from_queue w dst route n ≡ some m)
        × (drain w fuel dst route n ≡ some m)
unfolding send_packet_from_queue
drain-ends w fuel dst route n h =
    let q = n.queue in drain-Agree w (suc (length q.queue)) fuel dst route n (omega arith) h
