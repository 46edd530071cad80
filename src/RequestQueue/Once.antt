-- ===== src/RequestQueue/Once.antt =====
-- No packet waits twice in the queue for the same destination.
use madaodv_ns.Base.{
  ℕ, ◌≡◌, refl, Bool, false, some, List, [], ◌∷◌, ◌++◌, any, reject, arith, any-append,
  Option-cases, Bool-cases, inl, inr,
}
use madaodv_ns.Int.{ℤ}
use madaodv_ns.RequestQueue.{
  QueueEntry, RequestQueue, is_expired, has_dst, same_packet, set_expire_time, purge, place,
  enqueue, take_dst, dequeue, drop_packet_with_dst,
}

-- No two of the entries have the same packet and destination.
abbrev pub IsOnce : List QueueEntry → Type 0
IsOnce [] = Unit
IsOnce (e ∷ es) = (any (same_packet e) es ≡ false) × IsOnce es

any-reject :
    (p q : QueueEntry → Bool) (es : List QueueEntry)
    → any p es ≡ false
    → any p (reject q es) ≡ false
unfolding any reject
any-reject p q [] h = refl
any-reject p q (e ∷ es) h = ground (arith, any-reject p q es)

reject-IsOnce : (q : QueueEntry → Bool) (es : List QueueEntry) → IsOnce es → IsOnce (reject q es)
unfolding reject
reject-IsOnce q [] h = tt
reject-IsOnce q (e ∷ es) h =
    ground (arith, reject-IsOnce q es h.1, any-reject (same_packet e) q es h.0)

same_packet-sym : (x y : QueueEntry) → same_packet x y ≡ false → same_packet y x ≡ false
unfolding same_packet
same_packet-sym x y h = ground arith

append-IsOnce :
    (entry : QueueEntry) (es : List QueueEntry)
    → any (same_packet entry) es ≡ false
    → IsOnce es
    → IsOnce (es ++ entry ∷ [])
unfolding any
append-IsOnce entry [] h d = (refl, tt)
append-IsOnce entry (e ∷ es) h d = ground (
  arith,
  append-IsOnce entry es,
  any-append (same_packet e) es (entry ∷ []),
  same_packet-sym entry e,
)

place-IsOnce :
    (max_len : ℕ) (entry : QueueEntry) (es es' oldest : List QueueEntry)
    → any (same_packet entry) es ≡ false
    → IsOnce es
    → place max_len entry es ≡ some (es', oldest)
    → IsOnce es'
unfolding place any
place-IsOnce max_len entry [] es' oldest h d e = ground (arith, append-IsOnce entry [] h d)
place-IsOnce max_len entry (x ∷ es) es' oldest h d e =
    ground (arith, append-IsOnce entry (x ∷ es) h d, append-IsOnce entry es)

-- `Enqueue` refuses what waits already.
pub enqueue-IsOnce :
    (now : ℤ) (entry : QueueEntry) (q q' : RequestQueue) (dropped : List QueueEntry) (done : Bool)
    → IsOnce q.queue
    → enqueue now entry q ≡ some (q', dropped, done)
    → IsOnce q'.queue
unfolding enqueue purge same_packet
enqueue-IsOnce now entry q q' dropped done d e =
    let es = reject (is_expired now) q.queue in
    let live = reject-IsOnce (is_expired now) q.queue d in
    let entry' = set_expire_time now q.queue_timeout entry in
    elim (Bool-cases (any (same_packet entry) es)) [
      | inl old ↦ ground (arith, old, live, e)
      | inr new ↦ elim (Option-cases (place q.max_len entry' es)) [
        | inl f ↦ ground (arith, new, f, e)
        | inr ((es', oldest), f) ↦
            let placed = place-IsOnce q.max_len entry' es es' oldest new live f in
            ground (arith, new, f, e, placed)
      ]
    ]

any-take_dst :
    (p : QueueEntry → Bool) (dst : ℕ) (es rest : List QueueEntry) (f : QueueEntry)
    → any p es ≡ false
    → take_dst dst es ≡ some (f, rest)
    → any p rest ≡ false
unfolding take_dst any
any-take_dst p dst [] rest f h e = cc
any-take_dst p dst (x ∷ es) rest f h e = elim (Option-cases (take_dst dst es)) [
  | inl g ↦ ground (arith, g, e, h)
  | inr ((f', rest'), g) ↦ ground (arith, g, e, h, any-take_dst p dst es rest' f')
]

take_dst-IsOnce :
    (dst : ℕ) (es rest : List QueueEntry) (f : QueueEntry)
    → IsOnce es
    → take_dst dst es ≡ some (f, rest)
    → IsOnce rest
unfolding take_dst
take_dst-IsOnce dst [] rest f d e = cc
take_dst-IsOnce dst (x ∷ es) rest f d e = elim (Option-cases (take_dst dst es)) [
  | inl g ↦ ground (arith, g, e, d)
  | inr ((f', rest'), g) ↦
      let once = take_dst-IsOnce dst es rest' f' d.1 g in
      let less = any-take_dst (same_packet x) dst es rest' f' d.0 g in
      ground (arith, g, e, d, once, less)
]

pub dequeue-IsOnce :
    (now : ℤ) (dst : ℕ) (q : RequestQueue) → IsOnce q.queue → IsOnce (dequeue now dst q).0.queue
unfolding dequeue purge
dequeue-IsOnce now dst q d =
    let es = reject (is_expired now) q.queue in
    let live = reject-IsOnce (is_expired now) q.queue d in
    elim (Option-cases (take_dst dst es)) [
      | inl e ↦ rw (dequeue, e) live
      | inr ((f, rest), e) ↦ rw (dequeue, e) (take_dst-IsOnce dst es rest f live e)
    ]

pub drop_packet_with_dst-IsOnce :
    (now : ℤ) (dst : ℕ) (q : RequestQueue)
    → IsOnce q.queue
    → IsOnce (drop_packet_with_dst now dst q).0.queue
unfolding drop_packet_with_dst purge
drop_packet_with_dst-IsOnce now dst q d =
    reject-IsOnce (has_dst dst) _ (reject-IsOnce (is_expired now) q.queue d)
