-- ===== src/Protocol/Asked.antt =====
-- The requests that `SendRequest` sends: one from each socket, with the address of its interface.
use madaodv_ns.Base.{
  ◌⊎◌, ℕ, ◌+◌, ◌%◌, ◌≡◌, refl, sym, ◌∙◌, true, false, Option, some, List, [], ◌∷◌, ◌++◌, ◌==◌,
  if◌then◌else◌, arith, Bool-cases, inl, inr,
}
use mathlib.Core.List.{append_assoc, append-nil}
use madaodv_ns.Int.{ℤ}
use madaodv_ns.Map.{Map, find}
use madaodv_ns.RoutingTable.{RoutingTable}
use madaodv_ns.RoutingTable
use madaodv_ns.Headers.{RreqHeader, set_unknown_seqno, set_gratuitous_rrep, set_destination_only}
use madaodv_ns.Protocol.{
  World, Node, Action, rreq_message, schedules_send, send_later, broadcast_address, emit,
  lookup_route, blank, update_route,
}
use madaodv_ns.Protocol
use madaodv_ns.Protocol.After.{After, fails, gives, After-given, if-both, elim-both}
use madaodv_ns.Protocol.RreqRetry.{schedule_rreq_retry}
use madaodv_ns.Protocol.Request.{
  blank_rreq, ask_seqno, search_route, broadcast_rreq, originate_request, send_request,
}

module _ (w : World) where
  open w use {ns, now}

  -- The header before the origin is put in, from what `search_route` makes of it.
  abbrev pub finished : Node → RreqHeader → RreqHeader
  finished n h1 =
      let c = n.config in
      let h2 = if c.gratuitous_reply then set_gratuitous_rrep true h1 else h1 in
      let h3 = if c.destination_only then set_destination_only true h2 else h2 in
      record h3 {
        origin_seq_no = (n.seq_no + 1) % 4294967296;
        request_id = (n.request_id + 1) % 4294967296;
      }

  abbrev pub asked : ℕ → Node → RreqHeader
  asked dst n =
      let blank_header = blank_rreq ns in
      finished n (search_route w dst (record blank_header { dst = dst }) n).2

  abbrev pub asked_ttl : ℕ → Node → ℕ
  asked_ttl dst n =
      let blank_header = blank_rreq ns in
      (search_route w dst (record blank_header { dst = dst }) n).1

  -- The scheduled messages; `k` draws of a delay have been made before.
  pub requests : ℕ → RreqHeader → ℕ → Map ℕ → List Action
  requests ttl h k [] = []
  requests ttl h k ((s, i) ∷ m) =
      schedules_send (w.jitter k) s (broadcast_address w i) (ttl % 256)
        (rreq_message (record h { origin = ns.local i }))
      ∷ requests ttl h (k + 1) m

  -- What stays the same, and what the trace has become.
  pub record Broadcast (n n' : Node) (sent : List Action) : Type 0 where
    pub sockets : n'.socket_addresses ≡ n.socket_addresses
    pub queue : n'.queue ≡ n.queue
    pub trace : n'.trace ≡ n.trace ++ sent

  -- What a step that sends nothing leaves alone.
  record Silent (n n' : Node) : Type 0 where
    sockets : n'.socket_addresses ≡ n.socket_addresses
    queue : n'.queue ≡ n.queue
    trace : n'.trace ≡ n.trace
    draws : n'.draws ≡ n.draws
    seq_no : n'.seq_no ≡ n.seq_no
    request_id : n'.request_id ≡ n.request_id

  broadcast_rreq-Broadcast :
      (ttl : ℕ) (h : RreqHeader) (m : Map ℕ) (n : Node)
      → Broadcast n (broadcast_rreq w ttl h m n) (requests ttl h n.draws m)
  unfolding broadcast_rreq requests send_later emit
  broadcast_rreq-Broadcast ttl h [] n = record {
    sockets = refl;
    queue = refl;
    trace = sym (append-nil n.trace);
  }
  broadcast_rreq-Broadcast ttl h ((s, i) ∷ m) n =
      let b = broadcast_rreq-Broadcast ttl h m _ in
      record { sockets = b.sockets; queue = b.queue; trace = b.trace ∙ append_assoc n.trace _ _ }

  table-Silent :
      (n : Node) (t : RoutingTable) (timers : Map (Option ℤ))
      → Silent n (record n { table = t; address_req_timer = timers })
  table-Silent n t timers = record {
    sockets = refl;
    queue = refl;
    trace = refl;
    draws = refl;
    seq_no = refl;
    request_id = refl;
  }

  search_route-Silent : (dst : ℕ) (h : RreqHeader) (n : Node) → Silent n (search_route w dst h n).0
  unfolding search_route lookup_route update_route Protocol.add_route
  search_route-Silent dst h n =
      if-both {A = Node × ℕ × RreqHeader} (λ r. Silent n r.0) _
        (table-Silent n _ n.address_req_timer) (table-Silent n _ n.address_req_timer)

  schedule_rreq_retry-Silent : (dst : ℕ) (n : Node) → After (Silent n) (schedule_rreq_retry w dst n)
  unfolding schedule_rreq_retry lookup_route
  schedule_rreq_retry-Silent dst n =
      elim-both (After (Silent n)) _ fails (λ t. gives (table-Silent n _ _))

  originate_request-Broadcast :
      (dst : ℕ) (n n' : Node)
      → originate_request w dst n ≡ some n'
      → Broadcast n n' (requests (asked_ttl dst n) (asked dst n) n.draws n.socket_addresses)
  unfolding originate_request
  originate_request-Broadcast dst n n' e =
      let blank_header = blank_rreq ns in
      let c = n.config in
      let (n1, ttl, h1) = search_route w dst (record blank_header { dst = dst }) n in
      let s = search_route-Silent dst (record blank_header { dst = dst }) n in
      let h2 = if c.gratuitous_reply then set_gratuitous_rrep true h1 else h1 in
      let h3 = if c.destination_only then set_destination_only true h2 else h2 in
      let n2 = record n1 {
        seq_no = (n1.seq_no + 1) % 4294967296;
        request_id = (n1.request_id + 1) % 4294967296;
      } in
      let h4 = record h3 { origin_seq_no = n2.seq_no; request_id = n2.request_id } in
      let b = broadcast_rreq-Broadcast ttl h4 n2.socket_addresses n2 in
      let r = After-given (Silent _) _ n' (schedule_rreq_retry-Silent dst _) e in
      record {
        sockets = r.sockets ∙ b.sockets ∙ s.sockets;
        queue = r.queue ∙ b.queue ∙ s.queue;
        trace = r.trace ∙ b.trace ∙ (λ i.
            s.trace i
            ++ requests ttl
                (record h3 {
                  origin_seq_no = (s.seq_no i + 1) % 4294967296;
                  request_id = (s.request_id i + 1) % 4294967296;
                })
                (s.draws i) (s.sockets i));
      }

  -- The count of requests plays no part in the header.
  search_route-count :
      (dst k : ℕ) (h : RreqHeader) (n : Node)
      → let r = search_route w dst h (record n { rreq_count = k }) in
        let s = search_route w dst h n in (r.1 ≡ s.1) × (r.2 ≡ s.2)
  unfolding search_route lookup_route update_route Protocol.add_route
  search_route-count dst k h n =
      elim (Bool-cases (RoutingTable.lookup_route now dst (blank w) n.table).1) [
        | inl e ↦ rw e (refl, refl)
        | inr e ↦ rw e (refl, refl)
      ]

  -- Under the rate limit the requests are what is new in the trace; the sockets and the queue stay.
  pub send_request-Broadcast :
      (dst : ℕ) (n n' : Node)
      → (let c = n.config in n.rreq_count == c.rreq_rate_limit) ≡ false
      → send_request w dst n ≡ some n'
      → Broadcast n n' (requests (asked_ttl dst n) (asked dst n) n.draws n.socket_addresses)
  unfolding send_request
  send_request-Broadcast dst n n' free e =
      let counted = record n { rreq_count = (n.rreq_count + 1) % 65536 } in
      let b = originate_request-Broadcast dst counted n' (rw (free, send_request) at e) in
      let c = n.config in
      let blank_header = blank_rreq ns in
      let h = record blank_header { dst = dst } in
      let (ttl, header) = search_route-count dst ((n.rreq_count + 1) % 65536) h n in
      record {
        sockets = b.sockets;
        queue = b.queue;
        trace =
            b.trace
            ∙ (λ i. n.trace ++ requests (ttl i) (finished n (header i)) n.draws n.socket_addresses);
      }

  pub asked-dst : (dst : ℕ) (n : Node) → (let h = asked dst n in h.dst) ≡ dst
  unfolding search_route ask_seqno set_unknown_seqno set_gratuitous_rrep set_destination_only
  asked-dst dst n = ground arith

-- The action is in the trace.
abbrev pub Traces : Action → List Action → Type 0
Traces a [] = ⊥
Traces a (b ∷ tr) = (a ≡ b) ⊎ Traces a tr

pub append-Traces : (a : Action) (xs ys : List Action) → Traces a ys → Traces a (xs ++ ys)
append-Traces a [] ys t = t
append-Traces a (x ∷ xs) ys t = inr (append-Traces a xs ys t)

-- The request from an interface, as it is scheduled after the `k`-th delay.
abbrev pub outgoing : World → ℕ → ℕ → RreqHeader → ℕ → ℕ → Action
outgoing w k ttl h s i =
    let ns = w.ns in
    schedules_send (w.jitter k) s (broadcast_address w i) (ttl % 256)
      (rreq_message (record h { origin = ns.local i }))

pub requests-Traces :
    (w : World) (ttl k s i : ℕ) (h : RreqHeader) (m : Map ℕ)
    → find s m ≡ some i
    → (j : ℕ) × Traces (outgoing w j ttl h s i) (requests w ttl h k m)
unfolding requests find
requests-Traces w ttl k s i h [] e = cc
requests-Traces w ttl k s i h ((t, l) ∷ m) e = elim (Bool-cases (s == t)) [
  | inl same ↦ (k, inl (ground (arith, same, e)))
  | inr other ↦ let (j, r) = requests-Traces w ttl (k + 1) s i h m (rw other at e) in (j, inr r)
]
