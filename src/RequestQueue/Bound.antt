-- ===== src/RequestQueue/Bound.antt =====
-- `Enqueue` keeps the queue within its length, and loses no packet without its error callback.
use mathlib.Core.List.{Perm, append-nil}
use madaodv_ns.Base.{
  select-reject-perm, perm_placed, ℕ, ◌≤◌, ◌<◌, ◌≡◌, refl, Bool, true, false, Option, none, some,
  List, [], ◌∷◌, ◌++◌, if◌then◌else◌, any, reject, select, arith, length, length-append,
  length-reject, inl, inr, Bool-cases,
}
use madaodv_ns.Int.{ℤ}
use madaodv_ns.RequestQueue.{
  QueueEntry, RequestQueue, is_expired, same_packet, set_expire_time, purge, place, enqueue,
}

-- What holds of a result of `Enqueue`; of a fault nothing does.
abbrev pub Returns :
    (RequestQueue → List QueueEntry → Bool → Type 0)
    → Option (RequestQueue × List QueueEntry × Bool)
    → Type 0
Returns P none = ⊥
Returns P (some (q, dropped, done)) = P q dropped done

abbrev Placed :
    ℕ → QueueEntry → List QueueEntry → Option (List QueueEntry × List QueueEntry) → Type 0
Placed max_len entry es none = ⊥
Placed max_len entry es (some (es', oldest)) =
    (length es' ≤ max_len) × (oldest ++ es' ≡ es ++ entry ∷ [])

place-Placed :
    (max_len : ℕ) (entry : QueueEntry) (es : List QueueEntry)
    → 0 < max_len
    → length es ≤ max_len
    → Placed max_len entry es (place max_len entry es)
unfolding place
place-Placed max_len entry [] p h = ground arith
place-Placed max_len entry (e ∷ es) p h = ground (arith, length-append es (entry ∷ []))

abbrev pub IsBounded : RequestQueue → Type 0
IsBounded q = length q.queue ≤ q.max_len

-- What `Enqueue` promises: the bound, the limit unchanged, a packet refused exactly if it is
-- queued already, and every packet either queued or dropped.
abbrev pub Enqueued : ℤ → QueueEntry → RequestQueue → RequestQueue → List QueueEntry → Bool → Type 0
Enqueued now entry q q' dropped done =
    IsBounded q'
    × (q'.max_len ≡ q.max_len)
    × (done ≡ (if any (same_packet entry) (reject (is_expired now) q.queue) then false else true))
    × Perm (q.queue ++ (if done then set_expire_time now q.queue_timeout entry ∷ [] else []))
        (dropped ++ q'.queue)

enqueue_cases :
    (now : ℤ) (entry : QueueEntry) (q : RequestQueue)
    (r : Option (List QueueEntry × List QueueEntry))
    → any (same_packet entry) (reject (is_expired now) q.queue) ≡ false
    → place q.max_len (set_expire_time now q.queue_timeout entry) (reject (is_expired now) q.queue)
      ≡ r
    → Placed q.max_len
        (set_expire_time now q.queue_timeout entry)
        (reject (is_expired now) q.queue)
        r
    → Returns (Enqueued now entry q) (enqueue now entry q)
unfolding enqueue purge
enqueue_cases now entry q none new e h = elim h [ ]
enqueue_cases now entry q (some (es, oldest)) new e h =
    rw (new, e, enqueue)
      (
        h.0,
        refl,
        rw new,
        perm_placed q.queue (select (is_expired now) q.queue) (reject (is_expired now) q.queue)
            oldest es (set_expire_time now q.queue_timeout entry ∷ [])
            (select-reject-perm (is_expired now) q.queue) h.1,
      )

-- Into a queue within its limit, which is positive, Enqueue never faults, and what it leaves is
-- within the same limit: a packet is refused exactly if it is queued already, and every packet of
-- the old queue and the new one, if it is accepted, is either queued or dropped.
pub enqueue_lem :
    (now : ℤ) (entry : QueueEntry) (q : RequestQueue)
    → 0 < q.max_len
    → IsBounded q
    → Returns (Enqueued now entry q) (enqueue now entry q)
unfolding enqueue purge
enqueue_lem now entry q p b =
    elim (Bool-cases (any (same_packet entry) (reject (is_expired now) q.queue))) [
      | inl old ↦ rw old (
        omega (arith, length-reject (is_expired now) q.queue),
        refl,
        rw old,
        rw append-nil (select-reject-perm (is_expired now) q.queue),
      )
      | inr new ↦ enqueue_cases now entry q _ new refl (
          place-Placed q.max_len (set_expire_time now q.queue_timeout entry)
            (reject (is_expired now) q.queue) p
            (omega (arith, length-reject (is_expired now) q.queue)))
    ]
