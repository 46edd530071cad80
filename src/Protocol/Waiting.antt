-- ===== src/Protocol/Waiting.antt =====
-- What holds of the queue of packets that wait for a route in every state of a node.
use madaodv_ns.Base.{
  ℕ, ◌≤◌, ◌<◌, ◌≡◌, refl, Bool, Option, none, some, List, [], ◌∷◌, length, reject, arith,
  length-reject, Option-cases, inl, inr,
}
use madaodv_ns.Int.{ℤ}
use madaodv_ns.RequestQueue.{
  QueueEntry, RequestQueue, dequeue, purge, take_dst, drop_packet_with_dst, is_expired, has_dst,
  set_max_queue_len, set_queue_timeout,
}
use madaodv_ns.RequestQueue.Bound.{IsBounded, Returns, Enqueued, enqueue_lem}
use madaodv_ns.RequestQueue.Once.{
  IsOnce, enqueue-IsOnce, dequeue-IsOnce, drop_packet_with_dst-IsOnce,
}
use madaodv_ns.Protocol.{Node}
use madaodv_ns.Protocol.Setup.{make_node, make_request_queue, initial_config}
use madaodv_ns.Protocol.System.{Reach}
use madaodv_ns.Protocol.After.{After, fails, gives}
use madaodv_ns.Protocol.Kept.{Law}
use madaodv_ns.Protocol.Kept.Events.{Sized, Sized-any, Reach-Kept}

result-After {ℓ} :
    {A : Type ℓ} (Q : A → Type 0) (x : Option A) → ((a : A) → x ≡ some a → Q a) → After Q x
result-After Q none k = fails
result-After Q (some a) k = gives (k a refl)

once : Law
unfolding set_max_queue_len set_queue_timeout
once = record {
  Holds = λ t q. IsOnce q.queue;
  Stands = λ len q. Unit;
  kept = λ c t q p. p;
  enqueues = λ now e t q p.
      result-After (λ r. IsOnce r.0.queue) _
        (λ (q', dropped, done) h. enqueue-IsOnce now e q q' dropped done p h);
  dequeues = λ now dst t q p. dequeue-IsOnce now dst q p;
  drops = λ now dst t q p. drop_packet_with_dst-IsOnce now dst q p;
  resizes = λ len t q a p. p;
  retimes = λ d t q p. p;
}

-- In every state that a node comes to from its constructor, whatever happens to it and whenever,
-- no two entries of its queue have the same packet and the same destination.
pub Reach-IsOnce :
    (seconds milli_seconds : ℕ → ℤ) (n : Node)
    → Reach seconds milli_seconds n
    → (let q = n.queue in IsOnce q.queue)
unfolding make_node make_request_queue once
Reach-IsOnce seconds milli_seconds n r =
    (Reach-Kept once r (Sized-any r) (record { holds = tt })).holds

-- The limit is positive, and the queue within it.
abbrev pub Fits : RequestQueue → Type 0
Fits q = (0 < q.max_len) × IsBounded q

-- A limit that is positive and no less than what waits.
abbrev pub Room : ℕ → RequestQueue → Type 0
Room len q = (0 < len) × (length q.queue ≤ len)

returned-Fits :
    (now : ℤ) (e : QueueEntry) (q : RequestQueue)
    (r : Option (RequestQueue × List QueueEntry × Bool))
    → 0 < q.max_len
    → Returns (Enqueued now e q) r
    → After (λ x. Fits x.0) r
returned-Fits now e q none p h = fails
returned-Fits now e q (some (q', dropped, done)) p (b, m, d, all) = gives (rw m p, b)

length-take_dst :
    (dst : ℕ) (es rest : List QueueEntry) (f : QueueEntry)
    → take_dst dst es ≡ some (f, rest)
    → length rest ≤ length es
unfolding take_dst
length-take_dst dst [] rest f e = cc
length-take_dst dst (x ∷ es) rest f e = elim (Option-cases (take_dst dst es)) [
  | inl g ↦ ground (arith, g, e)
  | inr ((f', rest'), g) ↦ ground (arith, g, e, length-take_dst dst es rest' f' g)
]

dequeue-Fits : (now : ℤ) (dst : ℕ) (q : RequestQueue) → Fits q → Fits (dequeue now dst q).0
unfolding dequeue purge
dequeue-Fits now dst q (p, b) =
    let es = reject (is_expired now) q.queue in
    let live = length-reject (is_expired now) q.queue in
    elim (Option-cases (take_dst dst es)) [
      | inl e ↦ rw (dequeue, e) (p, omega (arith, b, live))
      | inr ((f, rest), e) ↦
          rw (dequeue, e) (p, omega (arith, b, live, length-take_dst dst es rest f e))
    ]

drop_packet_with_dst-Fits :
    (now : ℤ) (dst : ℕ) (q : RequestQueue) → Fits q → Fits (drop_packet_with_dst now dst q).0
unfolding drop_packet_with_dst purge
drop_packet_with_dst-Fits now dst q (p, b) =
    let es = reject (is_expired now) q.queue in
    let live = length-reject (is_expired now) q.queue in
    (p, omega (arith, b, live, length-reject (has_dst dst) es))

fitting : Law
unfolding set_max_queue_len set_queue_timeout
fitting = record {
  Holds = λ t q. Fits q;
  Stands = Room;
  kept = λ c t q p. p;
  enqueues = λ now e t q p. returned-Fits now e q _ p.0 (enqueue_lem now e q p.0 p.1);
  dequeues = λ now dst t q p. dequeue-Fits now dst q p;
  drops = λ now dst t q p. drop_packet_with_dst-Fits now dst q p;
  resizes = λ len t q a p. a;
  retimes = λ d t q p. p;
}

-- In every state that a node comes to from its constructor, the limit of the queue is positive and
-- no more packets wait than it allows, whatever happens to the node and whenever, but that
-- SetMaxQueueLen is never called with a limit of 0 or one below the number of packets that wait.
pub Reach-Fits :
    (seconds milli_seconds : ℕ → ℤ) (n : Node) (r : Reach seconds milli_seconds n)
    → Sized Room r
    → Fits n.queue
unfolding make_node make_request_queue initial_config fitting
Reach-Fits seconds milli_seconds n r a =
    (Reach-Kept fitting r a (record { holds = (omega arith, omega arith) })).holds
