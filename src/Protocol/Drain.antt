-- ===== src/Protocol/Drain.antt =====
-- `SendPacketFromQueue` sends exactly the packets that waited for the route, in their order.
use mathlib.Core.List.{append_assoc, append-nil}
use madaodv_ns.Base.{
  ℕ, zero, suc, ◌<◌, ◌≡◌, refl, ◌∙◌, ap, sym, Bool, true, false, Option, none, some, List, [], ◌∷◌,
  ◌++◌, map, ◌&&◌, any, reject, select, length, arith, Option-cases, Bool-cases, inl, inr,
  reject_none, select_none, reject-reject, any-reject, length-reject,
}
use madaodv_ns.Entry.{Route}
use madaodv_ns.RequestQueue.{
  QueueEntry, RequestQueue, is_expired, has_dst, purge, take_dst, dequeue,
}
use madaodv_ns.RequestQueue.Order.{take_dst-none}
use madaodv_ns.Ns3.{Ns3}
use madaodv_ns.Protocol.{World, Node, fails, emit}
use madaodv_ns.Protocol.Queue.{
  wrong_interface, forwarded, fail_all, drain, drain_round, send_packet_from_queue,
}

-- The packets for `dst` whose tag fixes another interface than the route's.
abbrev pub stuck : Ns3 → ℕ → Route → QueueEntry → Bool
stuck ns dst route e = has_dst dst e && wrong_interface ns route e.packet

-- What the first packet for `dst` leaves.
take_dst-some :
    (p s : QueueEntry → Bool) (dst : ℕ) (es : List QueueEntry) (e : QueueEntry)
    (rest : List QueueEntry)
    → take_dst dst es ≡ some (e, rest)
    → any p es ≡ false
    → any s es ≡ false
    → (select (has_dst dst) es ≡ e ∷ select (has_dst dst) rest)
      × (reject (has_dst dst) es ≡ reject (has_dst dst) rest)
      × (length es ≡ suc (length rest))
      × (any p rest ≡ false)
      × (any s rest ≡ false)
      × (has_dst dst e ≡ true)
      × (s e ≡ false)
unfolding take_dst any select reject
take_dst-some p s dst [] e rest h a b = cc
take_dst-some p s dst (x ∷ es) e rest h a b = elim (Bool-cases (has_dst dst x)) [
  | inl hit ↦ ground arith
  | inr miss ↦ elim (Option-cases (take_dst dst es)) [
    | inl gone ↦ ground arith
    | inr ((f, rest'), at) ↦ ground (arith, take_dst-some p s dst es f rest' at)
  ]
]

module _ (w : World) where
  open w use {ns, now}

  -- The node after the packets `out` were sent from the queue, which left `es`.
  sent : Route → List QueueEntry → List QueueEntry → Node → Node
  sent route es out n =
      let q = n.queue in
      record n { queue = record q { queue = es }; trace = n.trace ++ map (forwarded route) out }

  dequeue-none :
      (dst : ℕ) (q : RequestQueue)
      → any (is_expired now) q.queue ≡ false
      → take_dst dst q.queue ≡ none
      → dequeue now dst q ≡ (q, [], none)
  unfolding dequeue purge
  dequeue-none dst q h e =
      ground (arith, reject_none (is_expired now) q.queue h, select_none (is_expired now) q.queue h)

  dequeue-some :
      (dst : ℕ) (q : RequestQueue) (e : QueueEntry) (rest : List QueueEntry)
      → any (is_expired now) q.queue ≡ false
      → take_dst dst q.queue ≡ some (e, rest)
      → dequeue now dst q ≡ (record q { queue = rest }, [], some e)
  unfolding dequeue purge
  dequeue-some dst q e rest h at =
      ground (arith, reject_none (is_expired now) q.queue h, select_none (is_expired now) q.queue h)

  sent_more :
      (route : Route) (es out rest : List QueueEntry) (e : QueueEntry) (n : Node)
      → let q = n.queue in
        sent route es out (
          emit (forwarded route e) (fail_all w [] (record n { queue = record q { queue = rest } })))
        ≡ sent route es (e ∷ out) n
  unfolding sent emit fail_all
  sent_more route es out rest e n = simp (
    append-nil n.trace,
    append_assoc n.trace (forwarded route e ∷ []) (map (forwarded route) out),
  )

  -- A round for a packet that may leave through the route's interface.
  drain_round-some :
      (next : Node → Option Node) (route : Route) (n : Node) (q : RequestQueue) (e : QueueEntry)
      → wrong_interface ns route e.packet ≡ false
      → drain_round w next route n (q, [], some e)
        ≡ next (emit (forwarded route e) (fail_all w [] (record n { queue = q })))
  unfolding drain_round
  drain_round-some next route n q e right = rw (right, drain_round) refl

  drain_live :
      (fuel dst : ℕ) (route : Route) (n : Node)
      → let q = n.queue in
        any (is_expired now) q.queue ≡ false
        → any (stuck ns dst route) q.queue ≡ false
        → length q.queue < fuel
        → drain w fuel dst route n
          ≡ some (sent route (reject (has_dst dst) q.queue) (select (has_dst dst) q.queue) n)
  unfolding drain emit fail_all
  drain_live zero dst route n a b l = ground arith
  drain_live (suc fuel) dst route n a b l =
      let q = n.queue in
      elim (Option-cases (take_dst dst q.queue)) [
        | inl gone ↦
            let none_left = take_dst-none dst q.queue gone in
            ap (drain_round w (drain w fuel dst route) route n) (dequeue-none dst q a gone)
            ∙ unfold drain_round fail_all sent in
              rw
                (
                  reject_none (has_dst dst) q.queue none_left,
                  select_none (has_dst dst) q.queue none_left,
                )
                refl
        | inr ((e, rest), at) ↦
            let (sel, rej, len, fresh, free, for_dst, right) =
              take_dst-some (is_expired now) (stuck ns dst route) dst q.queue e rest at a b in
            ap (drain_round w (drain w fuel dst route) route n) (dequeue-some dst q e rest a at)
            ∙ drain_round-some (drain w fuel dst route) route n (record q { queue = rest }) e
                (ground arith)
            ∙ drain_live fuel dst route _ fresh free (omega arith)
            ∙ rw (sel, rej)
                (ap some (
                  sent_more route (reject (has_dst dst) rest) (select (has_dst dst) rest) rest e n))
      ]

  purged : Node → Node
  purged n =
      let q = n.queue in
      fail_all w (select (is_expired now) q.queue)
        (record n { queue = record q { queue = reject (is_expired now) q.queue } })

  drain_round-dropped :
      (next : Node → Option Node) (route : Route) (n : Node) (q r : RequestQueue)
      (dropped : List QueueEntry) (o : Option QueueEntry)
      → drain_round w next route n (q, dropped, o)
        ≡ drain_round w next route (fail_all w dropped (record n { queue = r })) (q, [], o)
  unfolding drain_round fail_all
  drain_round-dropped next route n q r dropped none =
      rw (append-nil (n.trace ++ map fails dropped)) refl
  drain_round-dropped next route n q r dropped (some e) =
      elim (Bool-cases (wrong_interface ns route e.packet)) [
        | inl wrong ↦ rw (wrong, drain_round, append-nil (n.trace ++ map fails dropped)) refl
        | inr right ↦ rw (right, drain_round, append-nil (n.trace ++ map fails dropped)) refl
      ]

  -- What `Dequeue` gives of the queue without its expired packets, and what of the queue itself.
  dequeue_live :
      (dst : ℕ) (q : RequestQueue)
      → let d = dequeue now dst (record q { queue = reject (is_expired now) q.queue }) in
        (dequeue now dst q ≡ (d.0, select (is_expired now) q.queue, d.2)) × (d.1 ≡ [])
  unfolding dequeue purge
  dequeue_live dst q =
      let p = is_expired now in
      ground
        (arith, reject-reject p q.queue, select_none p (reject p q.queue) (any-reject p q.queue))

  drain-purged :
      (fuel dst : ℕ) (route : Route) (n : Node)
      → drain w (suc fuel) dst route n ≡ drain w (suc fuel) dst route (purged n)
  unfolding drain purged fail_all
  drain-purged fuel dst route n =
      let q = n.queue in
      let next = drain w fuel dst route in
      let live = record q { queue = reject (is_expired now) q.queue } in
      let d = dequeue now dst live in
      let facts = dequeue_live dst q in
      ap (drain_round w next route n) facts.0
      ∙ drain_round-dropped next route n d.0 live (select (is_expired now) q.queue) d.2
      ∙ ap (λ dropped. drain_round w next route (purged n) (d.0, dropped, d.2)) (sym facts.1)

-- Unless a packet for the destination has a tag that fixes another interface than the route's,
-- `SendPacketFromQueue` ends, with this result: the error callbacks of the expired packets were
-- called, and then every other packet for the destination was forwarded along the route, in the
-- order of the queue; the packets for other destinations are what is left.
pub send_packet_from_queue_lem :
    (w : World) (dst : ℕ) (route : Route) (n : Node)
    → let q = n.queue in
      let waiting = reject (is_expired w.now) q.queue in
      any (stuck w.ns dst route) waiting ≡ false
      → send_packet_from_queue w dst route n
        ≡ some (record n {
          queue = record q { queue = reject (has_dst dst) waiting };
          trace =
              (n.trace ++ map fails (select (is_expired w.now) q.queue))
              ++ map (forwarded route) (select (has_dst dst) waiting);
        })
unfolding send_packet_from_queue
send_packet_from_queue_lem w dst route n free =
    let q = n.queue in
    drain-purged w (length q.queue) dst route n
    ∙ unfold sent purged fail_all in
      drain_live w (suc (length q.queue)) dst route (purged w n)
        (any-reject (is_expired w.now) q.queue) free
        (let h = length-reject (is_expired w.now) q.queue in omega arith)
