-- ===== src/Protocol/Discovered.antt =====
-- A reply that comes back to the node that asked ends its search.
use madaodv_ns.Base.{
  ℕ, ◌+◌, ◌%◌, ◌<◌, ◌≡◌, refl, ap, ◌∙◌, Bool, true, false, none, some, List, ◌++◌, map, any, reject,
  select, ◌==◌, arith, Option-cases, Bool-cases, inl, inr, if◌then◌else◌,
}
use madaodv_ns.Int.{pos, ◌≤ℤ◌, ◌-ℤ◌}
use madaodv_ns.RoutingTable.Agrees.{Agrees, update-Agrees, purge-Agrees}
use madaodv_ns.Map.{find, erase}
use madaodv_ns.Entry.{
  Entry, in_search, flag_eq, get_destination, get_next_hop, make_entry, is_outdated,
}
use madaodv_ns.RoutingTable.{RoutingTable, purge, update, reset_unless_in_search}
use madaodv_ns.RoutingTable.Invariant.{IsValid, purge-IsValid, update-IsValid}
use madaodv_ns.RoutingTable.Stays.{find-purge-in_search, find-update}
use madaodv_ns.RequestQueue.{QueueEntry, is_expired, has_dst}
use madaodv_ns.Headers.{RrepHeader, get_ack_required}
use madaodv_ns.Protocol
use madaodv_ns.Protocol.{
  World, Node, fails, lookup_route, update_route, blank, iface_of, is_my_own_address, ◌>>=◌,
}
use madaodv_ns.Protocol.Routes.{seq_diff, to_i32}
use madaodv_ns.Protocol.Queue.{forwarded}
use madaodv_ns.Protocol.RecvReply.{
  replaces, reply_entry, forward_route, acknowledge, cancel_request, consume_reply, handle_reply,
  recv_reply,
}
use madaodv_ns.Protocol.Drain.{stuck, send_packet_from_queue_lem}
use madaodv_ns.Protocol.Freshness.{reply_entry-reset, reply_entry-fields}
use madaodv_ns.Protocol.LeadsBack.{
  LeadsBack, find-purge_alive, purge-LeadsBack, lookup_route-LeadsBack, lookup_route-found,
}
use madaodv_ns.Protocol.Ways.{alive_lem}

replaces-some :
    (s hops : ℕ) (e : Entry)
    → s < 2147483648
    → e.seq_no < 2147483648
    → (r : Bool) × (replaces s hops e ≡ some r)
unfolding replaces seq_diff to_i32 ◌-ℤ◌
replaces-some s hops e h k = elim (Option-cases (replaces s hops e)) [
  | inl f ↦ absurd (ground (arith, f))
  | inr f ↦ f
]

-- A well-formed table that has an entry for `dst`, and for the rest those of `before`.
record Has (dst : ℕ) (before t : RoutingTable) : Type 0 where
  table_valid : IsValid t
  entry : Entry
  at : find dst t.entries ≡ some entry
  agrees : Agrees dst before t
  bad : t.bad_link_lifetime ≡ before.bad_link_lifetime

module _ (w : World) where
  open w use {ns, now}

  pub forward_route-met :
      (h : RrepHeader) (new e : Entry) (r : Bool) (n : Node)
      → find h.dst (purge now n.table).entries ≡ some e
      → replaces h.dst_seq_no h.hop_count e ≡ some r
      → let m = record n { table = purge now n.table } in
        forward_route w h new n ≡ some (if r then update_route new m else m, e)
  unfolding forward_route
  forward_route-met h new e r n at f =
      ap
        (λ (r : Node × Bool × Entry).
          if r.1
          then elim (replaces h.dst_seq_no h.hop_count r.2) [
            | none ↦ none
            | some b ↦ some (if b then update_route new r.0 else r.0, r.2)
          ]
          else some (Protocol.add_route w new r.0, r.2))
        (lookup_route-found w h.dst (blank w) e n at)
      ∙ rw f refl

  -- The table after the route of a reply to a search is written, or is left for the search.
  forward_route-Has :
      (h : RrepHeader) (new e : Entry) (n : Node)
      → IsValid n.table
      → find h.dst (purge now n.table).entries ≡ some e
      → get_destination new ≡ h.dst
      → reset_unless_in_search new ≡ new
      → h.dst_seq_no < 2147483648
      → e.seq_no < 2147483648
      → (t : RoutingTable) × (forward_route w h new n ≡ some (record n { table = t }, e))
        × Has h.dst (purge now n.table) t
  forward_route-Has h new e n v at d reset small old_small =
      let live = purge now n.table in
      let v' = purge-IsValid now n.table v in
      let (r, f) = replaces-some h.dst_seq_no h.hop_count e small old_small in
      elim (Bool-cases r) [
        | inl yes_ ↦ (
          (update new live).0,
          forward_route-met h new e r n at f ∙ rw yes_ (unfold update_route in refl),
          record {
            table_valid = update-IsValid new live v';
            entry = new;
            at = find-update h.dst new e live d reset at;
            agrees = (update-Agrees h.dst new live d).0;
            bad = (update-Agrees h.dst new live d).1;
          },
        )
        | inr no_ ↦ (
          live,
          forward_route-met h new e r n at f ∙ rw no_ refl,
          record { table_valid = v'; entry = e; at = at; agrees = λ k other. refl; bad = refl },
        )
      ]

  -- The packets that wait for `dst`, expired ones left out, and what is done with them.
  abbrev waiting : Node → List QueueEntry
  waiting n = let q = n.queue in reject (is_expired now) q.queue

  abbrev pub released : ℕ → Entry → RoutingTable → Node → Node
  released dst new t n =
      let q = n.queue in
      record n {
        table = t;
        address_req_timer = erase dst n.address_req_timer;
        queue = record q { queue = reject (has_dst dst) (waiting n) };
        trace =
            (n.trace ++ map fails (select (is_expired now) q.queue))
            ++ map (forwarded new.route) (select (has_dst dst) (waiting n));
      }

  consume_reply-released :
      (h : RrepHeader) (new e : Entry) (before : RoutingTable) (n : Node)
      → IsValid before
      → Has h.dst before n.table
      → get_destination new ≡ h.dst
      → reset_unless_in_search new ≡ new
      → is_outdated now new ≡ false
      → e.flag ≡ in_search
      → any (stuck ns h.dst new.route) (waiting n) ≡ false
      → (t : RoutingTable) × (consume_reply w h new e n ≡ some (released h.dst new t n))
        × IsValid t
        × (find h.dst t.entries ≡ some new)
        × Agrees h.dst (purge now before) t
  unfolding consume_reply cancel_request update_route
  consume_reply-released h new e before n v has d reset alive searching free =
      let t = (update new n.table).0 in
      let b : LeadsBack now h.dst (get_next_hop new) new.iface t = record {
        table_valid = update-IsValid new n.table has.table_valid;
        entry = new;
        at = find-update h.dst new has.entry n.table d reset has.at;
        leads = record { next_hop = refl; through = refl; alive = alive };
      } in
      let p = purge-LeadsBack now h.dst (get_next_hop new) new.iface t b in
      let m = record n { table = t; address_req_timer = erase h.dst n.address_req_timer } in
      let s : flag_eq e.flag in_search ≡ true = unfold flag_eq in rw searching refl in
      (
        purge now t,
        rw s (
            rw (lookup_route-LeadsBack w h.dst (get_next_hop new) new.iface e m b) (
              send_packet_from_queue_lem w h.dst new.route (record m { table = purge now t })
                free)),
        p.table_valid,
        find-purge_alive now h.dst (get_next_hop new) new.iface t b,
        purge-Agrees now h.dst before t v b.table_valid
            (λ k other. (update-Agrees h.dst new n.table d).0 k other ∙ has.agrees k other)
            ((update-Agrees h.dst new n.table d).1 ∙ has.bad),
      )

-- The node `n` searches for the destination of the reply `h`, which it receives from the neighbor
-- `sender` through `receiver` and had asked for; no acknowledgement is required, no sequence number
-- or lifetime is out of the ordinary range, and no packet for the destination has a tag that fixes
-- another interface than that of the new route.
pub record Awaits (w : World) (h : RrepHeader) (receiver sender : ℕ) (n : Node) : Type 0 where
  pub table_valid : IsValid n.table
  pub entry : Entry
  pub at : find h.dst n.table.entries ≡ some entry
  pub searching : entry.flag ≡ in_search
  pub small : h.dst_seq_no < 2147483648
  pub old_small : entry.seq_no < 2147483648
  pub no_hello : (h.dst == h.origin) ≡ false
  pub no_ack : get_ack_required h ≡ false
  pub own : is_my_own_address w h.origin n ≡ true
  pub lasting : pos 0 ≤ℤ w.of_ms h.life_time
  pub free :
      (let q = n.queue in
        let new =
          reply_entry w (record h { hop_count = (h.hop_count + 1) % 256 }) receiver sender in
        any (stuck w.ns h.dst new.route) (reject (is_expired w.now) q.queue))
      ≡ false

-- `RecvReply` with a reply that ends a search, under the conditions of `Awaits`, returns:
-- afterwards the table is well-formed and has the entry that the reply stands for, in place of the
-- one in search, and for the other destinations what two purges leave of it; the timer of the
-- search is gone; the packets that have waited for the destination are forwarded along the new
-- route, in the order of the queue, after the error callbacks of the expired packets; the packets
-- for other destinations still wait; and of the rest of the node nothing has changed.
pub recv_reply-released :
    (w : World) (ttl : ℕ) (h : RrepHeader) (receiver sender : ℕ) (n : Node)
    → Awaits w h receiver sender n
    → let new = reply_entry w (record h { hop_count = (h.hop_count + 1) % 256 }) receiver sender in
      (t : RoutingTable) × (recv_reply w ttl h receiver sender n ≡ some (released w h.dst new t n))
      × IsValid t
      × (find h.dst t.entries ≡ some new)
      × Agrees h.dst (purge w.now (purge w.now n.table)) t
unfolding recv_reply handle_reply acknowledge is_my_own_address get_ack_required
recv_reply-released w ttl h receiver sender n a =
    let h1 = record h { hop_count = (h.hop_count + 1) % 256 } in
    let new = reply_entry w h1 receiver sender in
    let (d, _, _) = reply_entry-fields w h1 receiver sender in
    let reset = reply_entry-reset w h1 receiver sender in
    let at = find-purge-in_search w.now h.dst n.table a.entry a.table_valid a.at a.searching in
    let (t1, e1, has) =
      forward_route-Has w h1 new a.entry n a.table_valid at d reset a.small a.old_small in
    let n1 = record n { table = t1 } in
    let alive =
      alive_lem w.now (w.of_ms h.life_time) new (unfold reply_entry make_entry in refl) a.lasting in
    let (t, e2, v, f, others) =
      consume_reply-released w h1 new a.entry (purge w.now n.table) n1
        (purge-IsValid w.now n.table a.table_valid) has d reset alive a.searching a.free in
    (t, rw a.no_hello (rw e1 (rw a.no_ack (rw a.own e2))), v, f, others)
