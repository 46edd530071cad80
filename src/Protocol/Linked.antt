-- ===== src/Protocol/Linked.antt =====
-- The precursors that a reply leaves behind do not change where the routes lead.
use madaodv_ns.Base.{
  ◌==◌, ℕ, ◌≡◌, refl, sym, ◌∙◌, ap, false, arith, Bool-cases, Option-cases, inl, inr,
}
use mathlib.Core.Path.{subst}
use madaodv_ns.Int.{ℤ}
use madaodv_ns.Map.{find}
use madaodv_ns.Map.Every.{find-Every}
use madaodv_ns.Entry.{
  valid, flag_eq, Entry, Route, get_destination, get_next_hop, default_entry, make_entry,
  insert_precursor, is_outdated,
}
use madaodv_ns.RoutingTable
use madaodv_ns.RoutingTable.{found, purge, update}
use madaodv_ns.RoutingTable.Invariant.{IsAt}
use madaodv_ns.Headers.{RrepHeader}
use madaodv_ns.Protocol.{World, Node, lookup_route, lookup_valid_route, update_route, blank}
use madaodv_ns.Protocol.RecvReply.{note_precursor, link_precursors}
use madaodv_ns.Protocol.LeadsBack.{
  Leads, LeadsBack, find-purge_alive, purge-LeadsBack, update-LeadsBack, lookup_route-found,
  lookup_route-missed,
}

insert_precursor-Leads :
    {now : ℤ} {src iface : ℕ} (p : ℕ) (e : Entry)
    → Leads now src iface e
    → Leads now src iface (insert_precursor p e).0
unfolding insert_precursor is_outdated
insert_precursor-Leads p e l = record {
  next_hop = (let h = l.next_hop in ground arith);
  through = (let h = l.through in ground arith);
  alive = (let h = l.alive in ground arith);
}

pub insert_precursor-keeps :
    (p : ℕ) (e : Entry)
    → let e' = (insert_precursor p e).0 in (e'.route ≡ e.route) × (e'.iface ≡ e.iface)
unfolding insert_precursor
insert_precursor-keeps p e = ground arith

-- The sockets and the trace stay, and the route to `dst` through `src`.
pub record Stays (w : World) (dst src iface : ℕ) (n n' : Node) : Type 0 where
  pub leads : LeadsBack w.now dst src iface n'.table
  pub sockets : n'.socket_addresses ≡ n.socket_addresses
  pub trace : n'.trace ≡ n.trace

pub and_Stays :
    {w : World} {dst src iface : ℕ} {a b c : Node}
    → Stays w dst src iface a b
    → Stays w dst src iface b c
    → Stays w dst src iface a c
and_Stays s t = record {
  leads = t.leads;
  sockets = t.sockets ∙ s.sockets;
  trace = t.trace ∙ s.trace;
}

module _ (w : World) (dst src iface : ℕ) where
  open w use {ns, now}

  -- If the entry is the one for `dst`, it leads there.
  abbrev pub Sound : Entry → Type 0
  Sound e = get_destination e ≡ dst → Leads now src iface e

  pub update_route-Stays :
      (rt : Entry) (n : Node)
      → Sound rt
      → LeadsBack now dst src iface n.table
      → Stays w dst src iface n (update_route rt n)
  unfolding update_route
  update_route-Stays rt n s b = record {
    leads = update-LeadsBack now dst src iface rt n.table s b;
    sockets = refl;
    trace = refl;
  }

  pub note_precursor-Stays :
      (p : ℕ) (rt : Entry) (n : Node)
      → Sound rt
      → LeadsBack now dst src iface n.table
      → Stays w dst src iface n (note_precursor p rt n)
  unfolding note_precursor
  note_precursor-Stays p rt n s b =
      let (route, _) = insert_precursor-keeps p rt in
      update_route-Stays (insert_precursor p rt).0 n
        (λ e. insert_precursor-Leads p rt (s (ap (λ (r : Route). r.destination) (sym route) ∙ e))) b

  -- What a lookup gives that may fall back on `rt`.
  pub lookup_route-Stays :
      (id : ℕ) (rt : Entry) (n : Node)
      → Sound rt
      → LeadsBack now dst src iface n.table
      → let r = lookup_route w id rt n in Stays w dst src iface n r.0 × Sound r.2
  lookup_route-Stays id rt n s b =
      let live = purge now n.table in
      let b' = purge-LeadsBack now dst src iface n.table b in
      let v = b'.table_valid in
      let stays : Stays w dst src iface n (record n { table = live }) = record {
        leads = b';
        sockets = refl;
        trace = refl;
      } in
      elim (Option-cases (find id live.entries)) [
        | inl gone ↦ rw (lookup_route-missed w id rt n gone) (stays, s)
        | inr (e, at) ↦ rw (lookup_route-found w id rt e n at) (
          stays,
          λ same.
              let at' = b'.at in
              let keyed = find-Every IsAt id e live.entries v.keyed at in
              let here : b'.entry ≡ e = ground (arith, keyed, same, at, at') in
              subst (Leads now src iface) here b'.leads,
        )
      ]

  blank-Sound : (dst == ns.no_address) ≡ false → Sound (blank w)
  unfolding default_entry make_entry
  blank-Sound h e = absurd (ground (arith, h, e))

  insert_precursor-Sound : (p : ℕ) (rt : Entry) → Sound rt → Sound (insert_precursor p rt).0
  insert_precursor-Sound p rt s e =
      let (route, _) = insert_precursor-keeps p rt in
      insert_precursor-Leads p rt (s (ap (λ (r : Route). r.destination) (sym route) ∙ e))

  lookup_valid_route-Stays :
      (rt : Entry) (n : Node) (b : LeadsBack now dst src iface n.table)
      → lookup_valid_route w dst rt n ≡ (
        record n { table = purge now n.table },
        (let e = b.entry in flag_eq e.flag valid),
        b.entry,
      )
  unfolding lookup_valid_route RoutingTable.lookup_valid_route RoutingTable.lookup_route found
  lookup_valid_route-Stays rt n b = rw (find-purge_alive now dst src iface n.table b) refl

  -- The steps that follow, where there is a valid route, `rt`.
  abbrev link_all : Entry → Entry → Node → Node × Entry
  link_all rt to_origin n1 =
      let p = get_next_hop to_origin in
      let n2 = note_precursor p rt n1 in
      let (n3, _, next_to_dst) = lookup_route w (get_next_hop rt) (blank w) n2 in
      let n4 = note_precursor p next_to_dst n3 in
      let to_origin' = (insert_precursor (get_next_hop rt) to_origin).0 in
      let n5 = update_route to_origin' n4 in
      let (n6, _, next_to_origin) = lookup_route w (get_next_hop to_origin') (blank w) n5 in
      (note_precursor (get_next_hop rt) next_to_origin n6, to_origin')

  link_all-Stays :
      (rt to_origin : Entry) (n1 : Node)
      → (dst == ns.no_address) ≡ false
      → Sound rt
      → Sound to_origin
      → LeadsBack now dst src iface n1.table
      → Stays w dst src iface n1 (link_all rt to_origin n1).0
  link_all-Stays rt to_origin n1 real s so b =
      let p = get_next_hop to_origin in
      let bl = blank-Sound real in
      let n2 = note_precursor p rt n1 in
      let s2 = note_precursor-Stays p rt n1 s b in
      let (n3, _, next_to_dst) = lookup_route w (get_next_hop rt) (blank w) n2 in
      let (s3, l3) = lookup_route-Stays (get_next_hop rt) (blank w) n2 bl s2.leads in
      let n4 = note_precursor p next_to_dst n3 in
      let s4 = note_precursor-Stays p next_to_dst n3 l3 s3.leads in
      let to_origin' = (insert_precursor (get_next_hop rt) to_origin).0 in
      let n5 = update_route to_origin' n4 in
      let s5 =
        update_route-Stays to_origin' n4 (insert_precursor-Sound (get_next_hop rt) to_origin so)
          s4.leads in
      let (n6, _, next_to_origin) = lookup_route w (get_next_hop to_origin') (blank w) n5 in
      let (s6, l6) = lookup_route-Stays (get_next_hop to_origin') (blank w) n5 bl s5.leads in
      and_Stays s2 (
        and_Stays s3 (
          and_Stays s4 (
            and_Stays s5 (
              and_Stays s6
                (note_precursor-Stays (get_next_hop rt) next_to_origin n6 l6 s6.leads)))))

  -- The links as a whole; the route to the originator and its interface are as they were.
  pub link_precursors-Stays :
      (h : RrepHeader) (to_dst to_origin : Entry) (n : Node)
      → h.dst ≡ dst
      → (dst == ns.no_address) ≡ false
      → Sound to_origin
      → LeadsBack now dst src iface n.table
      → (n' : Node) × (e : Entry) × (link_precursors w h to_dst to_origin n ≡ (n', e))
        × Stays w dst src iface n n'
        × (e.route ≡ to_origin.route)
        × (e.iface ≡ to_origin.iface)
  unfolding link_precursors
  link_precursors-Stays h to_dst to_origin n d real s b =
      let rt = b.entry in
      let n1 = record n { table = purge now n.table } in
      let b1 = purge-LeadsBack now dst src iface n.table b in
      let found_ = lookup_valid_route-Stays to_dst n b in
      let s1 : Stays w dst src iface n n1 = record { leads = b1; sockets = refl; trace = refl } in
      elim (Bool-cases (flag_eq rt.flag valid)) [
        | inl ok ↦
            let r = link_all rt to_origin n1 in
            let (route, through) = insert_precursor-keeps (get_next_hop rt) to_origin in
            (
              r.0,
              r.1,
              rw d (rw found_ (rw ok refl)),
              and_Stays s1 (link_all-Stays rt to_origin n1 real (λ same. b.leads) s b1),
              route,
              through,
            )
        | inr no_ ↦ (n1, to_origin, rw d (rw found_ (rw no_ refl)), s1, refl, refl)
      ]
