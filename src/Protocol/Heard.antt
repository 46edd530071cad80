-- ===== src/Protocol/Heard.antt =====
-- `RecvRequest` up to the answer, with a request that is new.
use madaodv_ns.Base.{
  ◌==◌, ◌∙◌, ℕ, ◌+◌, ◌%◌, ◌<◌, ◌≡◌, refl, false, Option, none, some, [], arith, Option-cases, inl,
  inr,
}
use madaodv_ns.Int.{ℤ, pos, ◌≤ℤ◌, ◌*ℤ◌, ◌-ℤ◌}
use madaodv_ns.Map.{find}
use madaodv_ns.Map.Every.{Every, find-Every, filter_map-Every}
use madaodv_ns.Entry.{Entry, invalidate}
use madaodv_ns.RoutingTable.{RoutingTable, purge, purge_entries, purge_entry}
use madaodv_ns.RoutingTable.Invariant.{IsValid, purge-IsValid}
use madaodv_ns.Headers.{RreqHeader}
use madaodv_ns.IdCache.{is_duplicate}
use madaodv_ns.Neighbors
use madaodv_ns.Protocol.{World, Node, blank, iface_of}
use madaodv_ns.Protocol.Routes.{seq_diff, to_i32}
use madaodv_ns.Protocol.RecvRequest.{minimal_lifetime, handle_request, recv_request, answer}
use madaodv_ns.Protocol.LeadsBack.{LeadsBack, lookup_route-found, lookup_route-missed}
use madaodv_ns.Protocol.Lacks.{Lacks}
use madaodv_ns.Protocol.Ways.{
  Comparable, reverse_route-LeadsBack, neighbor_route-LeadsBack, update_neighbor-quiet,
}

-- A sequence number that is not negative as an `int32_t`.
abbrev pub IsSmall : ℕ → Entry → Type 0
IsSmall k e = e.seq_no < 2147483648

small-Comparable :
    (s : ℕ) (o : Option Entry)
    → s < 2147483648
    → ((e : Entry) → o ≡ some e → e.seq_no < 2147483648)
    → Comparable s o
unfolding seq_diff to_i32 ◌-ℤ◌
small-Comparable s none h k = tt
small-Comparable s (some e) h k = let l = k e refl in ground arith

purge_entry-IsSmall :
    (now bad : ℤ) (k : ℕ) (e e' : Entry)
    → IsSmall k e
    → purge_entry now bad k e ≡ some e'
    → IsSmall k e'
unfolding purge_entry invalidate
purge_entry-IsSmall now bad k e e' h p = ground arith

pub purge-IsSmall :
    (now : ℤ) (t : RoutingTable) → Every IsSmall t.entries → Every IsSmall (purge now t).entries
unfolding purge purge_entries
purge-IsSmall now t h =
    let bad = t.bad_link_lifetime in
    filter_map-Every IsSmall (purge_entry now bad) (purge_entry-IsSmall now bad) t.entries h

-- The neighbor is on no blacklist.
abbrev pub IsTrusted : Option Entry → Type 0
IsTrusted none = Unit
IsTrusted (some e) = e.black_list_state ≡ false

-- The request `h` has come to `n` through `receiver` from the neighbor `src`: `n` has not seen it
-- before, keeps hearing its other neighbors, and has no sequence number or attribute out of the
-- ordinary range.
pub record Hears (w : World) (h : RreqHeader) (receiver src : ℕ) (n : Node) : Type 0 where
  pub table_valid : IsValid n.table
  pub trusted : IsTrusted (find src (purge w.now n.table).entries)
  pub fresh : (is_duplicate w.now h.origin h.request_id n.rreq_id_cache).1 ≡ false
  pub small : h.origin_seq_no < 2147483648
  pub smalls : Every IsSmall n.table.entries
  pub quiet :
      (let c = n.config in
        (Neighbors.update w.arp w.now src (c.allowed_hello_loss *ℤ c.hello_interval) n.nb).1)
      ≡ []
  pub long : pos 0 ≤ℤ minimal_lifetime w ((h.hop_count + 1) % 256) n
  pub active : (let c = n.config in pos 0 ≤ℤ c.active_route_timeout)

abbrev pub farther : RreqHeader → RreqHeader
farther h = record h { hop_count = (h.hop_count + 1) % 256 }

module _ (w : World) (h : RreqHeader) (receiver src : ℕ) where
  open w use {now}

  -- The node before it answers, with this table.
  abbrev pub hearing : Node → RoutingTable → Node
  hearing n t =
      let c = n.config in
      record n {
        table = t;
        rreq_id_cache = (is_duplicate now h.origin h.request_id n.rreq_id_cache).0;
        nb = (Neighbors.update w.arp now src (c.allowed_hello_loss *ℤ c.hello_interval) n.nb).0;
      }

  -- What the steps before the answer leave: the route back, and no route to anything but the
  -- originator and the neighbor.
  pub record Heard (n : Node) (t : RoutingTable) : Type 0 where
    pub leads : LeadsBack now h.origin src (iface_of w receiver) t
    pub keeps :
        (dst : ℕ)
        → (dst == h.origin) ≡ false
        → (dst == src) ≡ false
        → find dst (purge now n.table).entries ≡ none
        → Lacks dst t

  recv_request-handles :
      (ttl : ℕ) (n : Node)
      → Hears w h receiver src n
      → recv_request w ttl h receiver src n
        ≡ handle_request w ttl (farther h) receiver src (record n {
          table = purge now n.table;
          rreq_id_cache = (is_duplicate now h.origin h.request_id n.rreq_id_cache).0;
        })
  unfolding recv_request
  recv_request-handles ttl n a =
      let trusted = a.trusted in
      elim (Option-cases (find src (purge now n.table).entries)) [
        | inl gone ↦ rw (lookup_route-missed w src (blank w) n gone) (rw (a.fresh) refl)
        | inr (prev, at) ↦
            let t : prev.black_list_state ≡ false = rw at at trusted in
            rw (lookup_route-found w src (blank w) prev n at) (rw t (rw (a.fresh) refl))
      ]

  -- `RecvRequest` comes to the answer.
  pub recv_request-Heard :
      (ttl : ℕ) (n : Node)
      → Hears w h receiver src n
      → (t : RoutingTable) × (rt : Entry) × (recv_request w ttl h receiver src n
          ≡ answer w ttl (farther h) src rt (hearing n t))
        × Heard n t
  unfolding handle_request minimal_lifetime
  recv_request-Heard ttl n a =
      let c = n.config in
      let iface = iface_of w receiver in
      let h1 = farther h in
      let live = purge now n.table in
      let v = purge-IsValid now n.table a.table_valid in
      let cache = (is_duplicate now h.origin h.request_id n.rreq_id_cache).0 in
      let n1 = record n { table = live; rreq_id_cache = cache } in
      let live1 = purge now live in
      let smalls = purge-IsSmall now live (purge-IsSmall now n.table a.smalls) in
      let comparable =
        small-Comparable h.origin_seq_no (find h.origin live1.entries) a.small
          (λ e at. find-Every IsSmall h.origin e live1.entries smalls at) in
      let (t, rt, e, b, others) =
        reverse_route-LeadsBack w h1 receiver src n1 v comparable a.long in
      let n2 = record n1 { table = t } in
      let (t', e', b', others') = neighbor_route-LeadsBack w h1 receiver src n2 a.active b in
      let n3 = record n2 { table = t' } in
      let q = update_neighbor-quiet w src (c.allowed_hello_loss *ℤ c.hello_interval) n3 a.quiet in
      (
        t',
        rt,
        recv_request-handles ttl n a ∙ rw e (rw e' (rw q refl)),
        record {
          leads = b';
          keeps = λ dst far far' gone.
              others' dst far' (others dst far (record { table_valid = v; absent = gone }));
        },
      )
