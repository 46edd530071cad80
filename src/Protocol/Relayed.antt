-- ===== src/Protocol/Relayed.antt =====
-- `RecvRequest` as a whole, at a node that knows nothing of the destination.
use madaodv_ns.Base.{
  ◌==◌, ℕ, ◌+◌, ◌-◌, ◌≡◌, refl, sym, ◌∙◌, false, none, some, List, [], ◌∷◌, ◌++◌, if◌then◌else◌,
  ltb, Bool-cases, inl, inr,
}
use mathlib.Core.List.{append_assoc, append-nil}
use madaodv_ns.Map.{Map, find}
use madaodv_ns.Entry.{Entry}
use madaodv_ns.RoutingTable.{purge}
use madaodv_ns.Headers.{RreqHeader}
use madaodv_ns.Protocol.{
  World, Node, Action, rreq_message, schedules_send, send_later, broadcast_address, emit, blank,
  iface_of, is_my_own_address,
}
use madaodv_ns.Protocol.RecvRequest.{forward_rreq, relay, answer, recv_request}
use madaodv_ns.Protocol.LeadsBack.{LeadsBack, purge-LeadsBack, lookup_route-missed}
use madaodv_ns.Protocol.Lacks.{Lacks, purge-Lacks}
use madaodv_ns.Protocol.Heard.{Hears, farther, hearing, recv_request-Heard}

-- The request `h` has come through `receiver` from the neighbor `src` to `n`, under the conditions
-- of `Hears`; the destination is another node, neither the originator nor the neighbor, and `n` has
-- no entry for it.
pub record Passes (w : World) (h : RreqHeader) (receiver src : ℕ) (n : Node) : Type 0 where
  pub hears : Hears w h receiver src n
  pub not_own : is_my_own_address w h.dst n ≡ false
  pub not_origin : (h.dst == h.origin) ≡ false
  pub not_neighbor : (h.dst == src) ≡ false
  pub unknown : find h.dst (purge w.now n.table).entries ≡ none

module _ (w : World) where
  open w use {ns, now}

  -- The request sent on from each socket; `k` draws of a delay have been made before.
  pub sent_on : ℕ → RreqHeader → ℕ → Map ℕ → List Action
  sent_on ttl h k [] = []
  sent_on ttl h k ((s, i) ∷ m) =
      schedules_send (w.jitter k) s (broadcast_address w i) ttl (rreq_message h)
      ∷ sent_on ttl h (k + 1) m

  -- What the answer leaves alone, and what the trace has become.
  record SendsOn (n n' : Node) (sent : List Action) : Type 0 where
    table : n'.table ≡ n.table
    trace : n'.trace ≡ n.trace ++ sent

  forward_rreq-SendsOn :
      (ttl : ℕ) (h : RreqHeader) (m : Map ℕ) (n : Node)
      → SendsOn n (forward_rreq w ttl h m n) (sent_on ttl h n.draws m)
  unfolding forward_rreq sent_on send_later emit
  forward_rreq-SendsOn ttl h [] n = record { table = refl; trace = sym (append-nil n.trace) }
  forward_rreq-SendsOn ttl h ((s, i) ∷ m) n =
      let b = forward_rreq-SendsOn ttl h m _ in
      record { table = b.table; trace = b.trace ∙ append_assoc n.trace _ _ }

  -- Nothing, if the TTL has run out.
  abbrev pub passed_on : ℕ → RreqHeader → Node → List Action
  passed_on ttl h n = if ltb ttl 2 then [] else sent_on (ttl - 1) h n.draws n.socket_addresses

  relay-SendsOn :
      (ttl : ℕ) (h : RreqHeader) (n : Node)
      → (n' : Node) × (relay w ttl h n ≡ some n') × SendsOn n n' (passed_on ttl h n)
  unfolding relay
  relay-SendsOn ttl h n = elim (Bool-cases (ltb ttl 2)) [
    | inl out ↦ (n, rw out refl, rw out (record { table = refl; trace = sym (append-nil n.trace) }))
    | inr left ↦ (
      forward_rreq w (ttl - 1) h n.socket_addresses n,
      rw left refl,
      rw left (forward_rreq-SendsOn (ttl - 1) h n.socket_addresses n),
    )
  ]

  answer-SendsOn :
      (ttl : ℕ) (h : RreqHeader) (src : ℕ) (rt : Entry) (n : Node)
      → is_my_own_address w h.dst n ≡ false
      → Lacks h.dst n.table
      → (n' : Node) × (answer w ttl h src rt n ≡ some n')
        × SendsOn (record n { table = purge now n.table }) n' (passed_on ttl h n)
  unfolding answer
  answer-SendsOn ttl h src rt n other l =
      let gone = purge-Lacks now h.dst n.table l in
      let n1 = record n { table = purge now n.table } in
      let (n', e, sent) = relay-SendsOn ttl h n1 in
      (n', rw other (rw (lookup_route-missed w h.dst (blank w) n gone.absent) e), sent)

-- What `RecvRequest` leaves: the route back, and at the end of the trace the request.
abbrev pub Relayed : World → ℕ → RreqHeader → ℕ → ℕ → Node → Node → Type 0
Relayed w ttl h receiver src n n' =
    LeadsBack w.now h.origin src (iface_of w receiver) n'.table
    × (n'.trace ≡ n.trace ++ passed_on w ttl (farther h) n)

-- `RecvRequest` with a request for a destination of which the node knows nothing, under the
-- conditions of `Passes`: it returns, and has scheduled the request from each of its sockets, with
-- the hop count one higher and the TTL one lower, and nothing else, or nothing if the TTL was below 2;
-- and the table has an entry for the originator that goes through the neighbor and the interface of
-- the request, and has not expired.
pub recv_request-Relayed :
    (w : World) (ttl : ℕ) (h : RreqHeader) (receiver src : ℕ) (n : Node)
    → Passes w h receiver src n
    → (n' : Node) × (recv_request w ttl h receiver src n ≡ some n')
      × Relayed w ttl h receiver src n n'
unfolding is_my_own_address
recv_request-Relayed w ttl h receiver src n a =
    let iface = iface_of w receiver in
    let (t, rt, e, b) = recv_request-Heard w h receiver src ttl n a.hears in
    let n1 = hearing w h receiver src n t in
    let l = b.keeps h.dst a.not_origin a.not_neighbor a.unknown in
    let (n', f, sent) = answer-SendsOn w ttl (farther h) src rt n1 a.not_own l in
    (n', e ∙ f, (rw (sent.table) (purge-LeadsBack w.now h.origin src iface t b.leads), sent.trace))
