-- ===== src/RequestQueue/Order.antt =====
-- `Dequeue` is first in, first out for each destination, and `DropPacketWithDst` empties it.
use mathlib.Core.List.{Perm, append_assoc}
use mathlib.Core.List.Perm
use madaodv_ns.Base.{
  select-reject-perm, ℕ, ◌≡◌, refl, true, false, Option, none, some, List, [], ◌∷◌, ◌++◌, any,
  reject, select, arith, any-reject, Option-cases, inl, inr, Bool-cases,
}
use madaodv_ns.Int.{ℤ}
use madaodv_ns.RequestQueue.{
  QueueEntry, RequestQueue, is_expired, has_dst, purge, drop_packet_with_dst, take_dst, dequeue,
  find,
}

-- `e` is the first of the list for `dst`, and `rest` is the list without it.
abbrev pub FirstFor : ℕ → List QueueEntry → QueueEntry → List QueueEntry → Type 0
FirstFor dst es e rest =
    (before : List QueueEntry) × (after : List QueueEntry) × (es ≡ before ++ e ∷ after)
    × (rest ≡ before ++ after)
    × (any (has_dst dst) before ≡ false)
    × (has_dst dst e ≡ true)

pub take_dst-none :
    (dst : ℕ) (es : List QueueEntry) → take_dst dst es ≡ none → any (has_dst dst) es ≡ false
unfolding take_dst any
take_dst-none dst [] h = refl
take_dst-none dst (e ∷ es) h = ground (arith, take_dst-none dst es)

take_dst-FirstFor :
    (dst : ℕ) (es : List QueueEntry) (e : QueueEntry) (rest : List QueueEntry)
    → take_dst dst es ≡ some (e, rest)
    → FirstFor dst es e rest
unfolding take_dst any
take_dst-FirstFor dst [] e rest h = cc
take_dst-FirstFor dst (x ∷ es) e rest h = elim (Bool-cases (has_dst dst x)) [
  | inl hit ↦ ([], es, ground arith, ground arith, refl, ground arith)
  | inr miss ↦ elim (Option-cases (take_dst dst es)) [
    | inl gone ↦ ground arith
    | inr ((f, rest'), at) ↦
        let (before, after, split, left, none_before, hit) = take_dst-FirstFor dst es f rest' at in
        (x ∷ before, after, ground arith, ground arith, ground arith, ground arith)
  ]
]

-- What `Dequeue` promises: the expired packets are dropped; a packet comes back exactly if one for
-- the destination is left, it is the first of those, and the others keep their order.
abbrev Dequeued : ℤ → ℕ → RequestQueue → RequestQueue × List QueueEntry × Option QueueEntry → Type 0
Dequeued now dst q (q', dropped, none) =
    (dropped ≡ select (is_expired now) q.queue)
    × (q'.queue ≡ reject (is_expired now) q.queue)
    × (any (has_dst dst) q'.queue ≡ false)
Dequeued now dst q (q', dropped, some e) =
    (dropped ≡ select (is_expired now) q.queue)
    × FirstFor dst (reject (is_expired now) q.queue) e q'.queue

-- Dequeue drops exactly the expired packets. If a packet for the destination is left it gives the
-- first of those, and the others keep their order; if not it gives none and the rest stays.
dequeue_lem : (now : ℤ) (dst : ℕ) (q : RequestQueue) → Dequeued now dst q (dequeue now dst q)
unfolding dequeue purge
dequeue_lem now dst q = elim (Option-cases (take_dst dst (reject (is_expired now) q.queue))) [
  | inl e ↦ rw (e, dequeue) (refl, refl, take_dst-none dst (reject (is_expired now) q.queue) e)
  | inr ((f, rest), e) ↦
      rw (e, dequeue) (refl, take_dst-FirstFor dst (reject (is_expired now) q.queue) f rest e)
]

-- After DropPacketWithDst no packet for the destination is queued, and what is still
-- queued is the rest of the live packets in its order, and with what is dropped makes up the old
-- queue.
pub drop_packet_with_dst_lem :
    (now : ℤ) (dst : ℕ) (q : RequestQueue)
    → let (q', dropped) = drop_packet_with_dst now dst q in
      (find dst q' ≡ false)
      × (q'.queue ≡ reject (has_dst dst) (reject (is_expired now) q.queue))
      × Perm q.queue (dropped ++ q'.queue)
unfolding drop_packet_with_dst purge find
drop_packet_with_dst_lem now dst q =
    let kept = reject (is_expired now) q.queue in
    (
      any-reject (has_dst dst) kept,
      refl,
      rw append_assoc (
          Perm.trans (select-reject-perm (is_expired now) q.queue) (
            Perm.append_left (select (is_expired now) q.queue)
              (select-reject-perm (has_dst dst) kept))),
    )
