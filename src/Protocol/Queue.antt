-- ===== src/Protocol/Queue.antt =====
-- `SendPacketFromQueue`: the packets that waited for a route are sent.
use madaodv_ns.Base.{
  ℕ, zero, suc, ◌+◌, ◌%◌, Bool, true, false, not, Option, none, some, List, ◌++◌, map, length, ◌&&◌,
}
use madaodv_ns.Int.{ℤ, negsuc, ltb_ℤ}
use madaodv_ns.Ns3.{Ns3}
use madaodv_ns.Ipv4.{Packet}
use madaodv_ns.Entry.{Route}
use madaodv_ns.RequestQueue.{QueueEntry, RequestQueue, dequeue}
use madaodv_ns.Protocol.{World, Node, Action, fails, forwards, emit}

unfoldable pub eq_ℤ : ℤ → ℤ → Bool
eq_ℤ a b = not (ltb_ℤ a b) && not (ltb_ℤ b a)

-- The packet has a tag that fixes another output interface than the route's.
unfoldable pub wrong_interface : Ns3 → Route → Packet → Bool
wrong_interface ns route p = elim p.deferred_tag [
  | none ↦ false
  | some oif ↦
      not (eq_ℤ oif (negsuc 0)) && not (eq_ℤ oif (ns.interface_for_device route.output_device))
]

-- What is handed to the forward callback: the tag is off, the source is the route's, and the TTL
-- makes up for the loopback.
unfoldable pub forwarded : Route → QueueEntry → Action
forwarded route e =
    let p = e.packet in
    let h = e.header in
    forwards e.ucb route (record p { deferred_tag = none })
      (record h { source = route.source; ttl = (h.ttl + 1) % 256 })

module _ (w : World) where
  open w use {ns, now}

  -- The error callbacks of packets that were dropped.
  unfoldable pub fail_all : List QueueEntry → Node → Node
  fail_all es n = record n { trace = n.trace ++ map fails es }

  -- The body of the `while` loop on the result of `Dequeue`, and what comes after the round.
  unfoldable pub drain_round :
      (Node → Option Node)
      → Route
      → Node
      → RequestQueue × List QueueEntry × Option QueueEntry
      → Option Node
  drain_round next route n (q, dropped, none) = some (fail_all dropped (record n { queue = q }))
  drain_round next route n (q, dropped, some e) =
      let n' = fail_all dropped (record n { queue = q }) in
      elim (wrong_interface ns route e.packet) [
        | true ↦ some n'
        | false ↦ next (emit (forwarded route e) n')
      ]

  -- The loop, with fuel for its rounds; `none` if that runs out.
  unfoldable pub drain : ℕ → ℕ → Route → Node → Option Node
  drain zero dst route n = none
  drain (suc fuel) dst route n =
      drain_round (drain fuel dst route) route n (dequeue now dst n.queue)

  unfoldable pub send_packet_from_queue : ℕ → Route → Node → Option Node
  send_packet_from_queue dst route n = let q = n.queue in drain (suc (length q.queue)) dst route n
