-- ===== src/Protocol/Passing.antt =====
-- The steps of `RecvReply` at a node between the two ends: the forward route, the precursors, and
-- the reply that is sent on.
use madaodv_ns.Base.{
  ◌==◌, ℕ, ◌-◌, ◌≡◌, refl, sym, ◌∙◌, ap, true, false, Option, none, some, List, [], ◌∷◌, ◌++◌,
  arith, if◌then◌else◌, ltb, Bool-cases, Option-cases, inl, inr,
}
use mathlib.Core.List.{append-nil}
use madaodv_ns.Int.{pos, ◌≤ℤ◌, max_ℤ}
use madaodv_ns.Map.{find}
use madaodv_ns.Map.Order.{find-insert, find-write}
use madaodv_ns.Map.Every.{find-Every}
use madaodv_ns.Entry.{
  Entry, Route, in_search, flag_eq, get_destination, get_next_hop, get_life_time, set_life_time,
  make_entry,
}
use madaodv_ns.RoutingTable.{RoutingTable, purge, update, add_route, reset_unless_in_search}
use madaodv_ns.RoutingTable.Invariant.{IsAt, purge-IsValid, update-IsValid, add_route-IsValid}
use madaodv_ns.RoutingTable.Stays.{find-purge-none, find-update, find-add_route}
use madaodv_ns.Headers.{RrepHeader}
use madaodv_ns.Protocol
use madaodv_ns.Protocol.{
  World, Node, Action, Message, rrep_message, sends, emit, blank, iface_of, is_my_own_address,
  find_socket, find_socket_with_interface_address, update_route,
}
use madaodv_ns.Protocol.Reply.{send_through}
use madaodv_ns.Protocol.RecvReply.{replaces, reply_entry, forward_route, relay_reply}
use madaodv_ns.Protocol.LeadsBack.{
  LeadsBack, Leads, find-purge_alive, purge-LeadsBack, lookup_route-LeadsBack, lookup_route-missed,
}
use madaodv_ns.Protocol.Ways.{alive_lem}
use madaodv_ns.Protocol.Freshness.{reply_entry-reset, reply_entry-fields}
use madaodv_ns.Protocol.Discovered.{forward_route-met}
use madaodv_ns.Protocol.Linked.{and_Stays, update_route-Stays, link_precursors-Stays}

-- The reply makes the route to its destination, or replaces the one that there is.
abbrev pub Replaced : RrepHeader → Option Entry → Type 0
Replaced h none = Unit
Replaced h (some e) = replaces h.dst_seq_no h.hop_count e ≡ some true

module _ (w : World) where
  open w use {ns, now}

  -- Both routes, after the forward route is written.
  pub record Both (h : RrepHeader) (sender iface : ℕ) (e : Entry) (t : RoutingTable) : Type 0 where
    pub forth : LeadsBack now h.dst sender iface t
    pub at : find h.origin t.entries ≡ some e

  pub forward_route-Both :
      (h : RrepHeader) (receiver sender back out : ℕ) (n : Node)
      (b : LeadsBack now h.origin back out n.table)
      → Replaced h (find h.dst (purge now n.table).entries)
      → (h.dst == h.origin) ≡ false
      → pos 0 ≤ℤ w.of_ms h.life_time
      → (t : RoutingTable) × (old : Entry) × (forward_route w h (reply_entry w h receiver sender) n
          ≡ some (record n { table = t }, old))
        × Both h sender (iface_of w receiver) b.entry t
  forward_route-Both h receiver sender back out n b newer other long =
      let live = purge now n.table in
      let new = reply_entry w h receiver sender in
      let (d, _, _) = reply_entry-fields w h receiver sender in
      let reset = reply_entry-reset w h receiver sender in
      let b' = purge-LeadsBack now h.origin back out n.table b in
      let v = b'.table_valid in
      let leads : Leads now sender (iface_of w receiver) new = record {
        next_hop = (unfold reply_entry make_entry in refl);
        through = (unfold reply_entry make_entry in refl);
        alive =
            alive_lem now (w.of_ms h.life_time) new (unfold reply_entry make_entry in refl) long;
      } in
      let at = find-purge_alive now h.origin back out n.table b in
      elim (Option-cases (find h.dst live.entries)) [
        | inl gone ↦ (
          (add_route now new live).0,
          blank w,
          unfold forward_route Protocol.add_route in
              rw (lookup_route-missed w h.dst (blank w) n gone) refl,
          record {
            forth = record {
              table_valid = add_route-IsValid now new live v;
              entry = new;
              at =
                  find-add_route now h.dst new live v d reset
                    (find-purge-none now h.dst live v gone);
              leads = leads;
            };
            at =
                unfold add_route in
                rw reset (
                  let at' = find-purge_alive now h.origin back out live b' in
                  let v' = purge-IsValid now live v in
                  ground (
                    arith,
                    at',
                    other,
                    d,
                    find-insert h.origin (get_destination new) new 0 (purge now live).entries
                        v'.sorted,
                  ));
          },
        )
        | inr (old, known) ↦ (
          (update new live).0,
          old,
          forward_route-met w h new old true n known (rw known at newer)
              ∙ unfold update_route in refl,
          record {
            forth = record {
              table_valid = update-IsValid new live v;
              entry = new;
              at = find-update h.dst new old live d reset known;
              leads = leads;
            };
            at =
                unfold update in
                ground (
                  arith,
                  at,
                  known,
                  other,
                  d,
                  find-write h.origin (get_destination new) (reset_unless_in_search new)
                      live.entries,
                );
          },
        )
      ]

  -- Where the reply is sent on to, unless its TTL has run out.
  abbrev pub passed_to : ℕ → ℕ → ℕ → RrepHeader → List Action
  passed_to ttl socket back h =
      if ltb ttl 2 then [] else sends socket back (ttl - 1) (rrep_message h) ∷ []

  send_through-open :
      (iface dst ttl socket : ℕ) (m : Message) (n : Node)
      → find_socket iface n.socket_addresses ≡ some socket
      → send_through iface dst ttl m n
        ≡ some (record n { trace = n.trace ++ sends socket dst ttl m ∷ [] })
  unfolding send_through emit find_socket_with_interface_address
  send_through-open iface dst ttl socket m n open_ = rw (send_through, open_) refl

  send_on :
      (ttl socket back out : ℕ) (h : RrepHeader) (e : Entry) (n : Node)
      → get_next_hop e ≡ back
      → e.iface ≡ out
      → find_socket out n.socket_addresses ≡ some socket
      → (if ltb ttl 2
          then some n
          else send_through e.iface (get_next_hop e) (ttl - 1) (rrep_message h) n)
        ≡ some (record n { trace = n.trace ++ passed_to ttl socket back h })
  send_on ttl socket back out h e n hop through open_ = elim (Bool-cases (ltb ttl 2)) [
    | inl small ↦ rw small (ap (λ tr. some (record n { trace = tr })) (sym (append-nil n.trace)))
    | inr large ↦
        rw (large, hop, through)
          (send_through-open out back (ttl - 1) socket (rrep_message h) n open_)
  ]

  pub relay_reply-Stays :
      (ttl : ℕ) (h : RrepHeader) (sender iface back out socket : ℕ) (e to_dst : Entry) (n : Node)
      → Both h sender iface e n.table
      → Leads now back out e
      → flag_eq e.flag in_search ≡ false
      → (h.dst == h.origin) ≡ false
      → (h.dst == ns.no_address) ≡ false
      → find_socket out n.socket_addresses ≡ some socket
      → (n' : Node) × (relay_reply w ttl h to_dst n ≡ some n')
        × LeadsBack now h.dst sender iface n'.table
        × (n'.trace ≡ n.trace ++ passed_to ttl socket back h)
  unfolding relay_reply
  relay_reply-Stays ttl h sender iface back out socket e to_dst n b l settled other real listens =
      let c = n.config in
      let forth = b.forth in
      let v = forth.table_valid in
      let t = n.table in
      let way : LeadsBack now h.origin back out n.table = record {
        table_valid = v;
        entry = e;
        at = b.at;
        leads = l;
      } in
      let n1 = record n { table = purge now n.table } in
      let rt = set_life_time now (max_ℤ c.active_route_timeout (get_life_time now e)) e in
      let keyed : get_destination e ≡ h.origin =
        find-Every IsAt h.origin e t.entries v.keyed b.at in
      let sound : get_destination rt ≡ h.dst → Leads now sender iface rt =
        λ same. absurd (ground (arith, same, keyed, other)) in
      let s1 =
        update_route-Stays w h.dst sender iface rt n1 sound
          (purge-LeadsBack now h.dst sender iface n.table forth) in
      let (n2, to_origin, f, s2, route, through) =
        link_precursors-Stays w h.dst sender iface h to_dst rt (update_route rt n1) refl real sound
          s1.leads in
      let s = and_Stays s1 s2 in
      (
        record n2 { trace = n2.trace ++ passed_to ttl socket back h },
        rw (lookup_route-LeadsBack w h.origin back out (blank w) n way) (
            rw settled (
              rw f (
                send_on ttl socket back out h to_origin n2
                  (ap (λ (r : Route). r.gateway) route ∙ l.next_hop) (through ∙ l.through)
                  (ap (find_socket out) s.sockets ∙ listens)))),
        s.leads,
        ap (λ tr. tr ++ passed_to ttl socket back h) s.trace,
      )
