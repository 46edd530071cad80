-- ===== src/Protocol/Settled.antt =====
-- A reply about a neighbor that has become known with it: the search has ended before the reply is
-- read, and the reply gives the route its sequence number.
use madaodv_ns.Base.{
  map, select, ◌++◌, ◌==◌, ℕ, ◌+◌, ◌%◌, ◌≡◌, refl, true, false, some, any, reject,
}
use madaodv_ns.Int.{pos, ◌≤ℤ◌}
use madaodv_ns.Map.{find}
use madaodv_ns.Entry.{Entry, in_search, flag_eq, get_next_hop, make_entry}
use madaodv_ns.RoutingTable.{purge, update}
use madaodv_ns.RoutingTable.Invariant.{IsValid, purge-IsValid, update-IsValid}
use madaodv_ns.RoutingTable.Stays.{find-update}
use madaodv_ns.RequestQueue.{is_expired, has_dst}
use madaodv_ns.Protocol.Queue.{forwarded}
use madaodv_ns.Headers.{RrepHeader, get_ack_required}
use madaodv_ns.Protocol.{fails, World, Node, update_route, is_my_own_address}
use madaodv_ns.Protocol.RecvReply.{
  replaces, reply_entry, acknowledge, consume_reply, handle_reply, recv_reply,
}
use madaodv_ns.Protocol.Drain.{stuck, send_packet_from_queue_lem}
use madaodv_ns.Protocol.Freshness.{reply_entry-reset, reply_entry-fields}
use madaodv_ns.Protocol.LeadsBack.{LeadsBack, find-purge_alive, purge-LeadsBack, lookup_route-found}
use madaodv_ns.Protocol.Ways.{alive_lem}
use madaodv_ns.Protocol.Discovered.{forward_route-met}

-- The node `n`, which had asked, has an entry for the destination of the reply `h` that is not in
-- search and whose sequence number is not valid; no acknowledgement is required, and no packet for
-- the destination has a tag that fixes another interface than that of the new route.
pub record IsKnown (w : World) (h : RrepHeader) (receiver sender : ℕ) (n : Node) : Type 0 where
  pub table_valid : IsValid n.table
  pub entry : Entry
  pub at : find h.dst (purge w.now n.table).entries ≡ some entry
  pub unknown : entry.valid_seq_no ≡ false
  pub settled : flag_eq entry.flag in_search ≡ false
  pub no_hello : (h.dst == h.origin) ≡ false
  pub no_ack : get_ack_required h ≡ false
  pub own : is_my_own_address w h.origin n ≡ true
  pub lasting : pos 0 ≤ℤ w.of_ms h.life_time
  pub free :
      (let q = n.queue in
        let new =
          reply_entry w (record h { hop_count = (h.hop_count + 1) % 256 }) receiver sender in
        any (stuck w.ns h.dst new.route) (reject (is_expired w.now) q.queue))
      ≡ false

replaces-unknown : (s hops : ℕ) (e : Entry) → e.valid_seq_no ≡ false → replaces s hops e ≡ some true
unfolding replaces
replaces-unknown s hops e u = rw u refl

module _ (w : World) where
  open w use {ns, now}

  consume_reply-settled :
      (h : RrepHeader) (new e : Entry) (n : Node)
      → LeadsBack now h.dst (get_next_hop new) new.iface n.table
      → find h.dst (purge now n.table).entries ≡ some new
      → flag_eq e.flag in_search ≡ false
      → any (stuck ns h.dst new.route) (let q = n.queue in reject (is_expired now) q.queue) ≡ false
      → (n' : Node) × (consume_reply w h new e n ≡ some n') × (n'.table ≡ purge now n.table)
  unfolding consume_reply
  consume_reply-settled h new e n b at settled free = (
    (let q = n.queue in
        let waiting = reject (is_expired now) q.queue in
        record n {
          table = purge now n.table;
          queue = record q { queue = reject (has_dst h.dst) waiting };
          trace =
              (n.trace ++ map fails (select (is_expired now) q.queue))
              ++ map (forwarded new.route) (select (has_dst h.dst) waiting);
        }),
    rw settled (
        rw (lookup_route-found w h.dst e new n at) (
          send_packet_from_queue_lem w h.dst new.route (record n { table = purge now n.table })
            free)),
    refl,
  )

-- `RecvReply` under the conditions of `IsKnown` returns, and the table has the valid route that the
-- reply stands for.
pub recv_reply-settled :
    (w : World) (ttl : ℕ) (h : RrepHeader) (receiver sender : ℕ) (n : Node)
    → IsKnown w h receiver sender n
    → (n' : Node) × (recv_reply w ttl h receiver sender n ≡ some n')
      × IsValid n'.table
      × (let t = n'.table in
          find h.dst t.entries
          ≡ some (reply_entry w (record h { hop_count = (h.hop_count + 1) % 256 }) receiver sender))
unfolding recv_reply handle_reply acknowledge is_my_own_address get_ack_required
recv_reply-settled w ttl h receiver sender n a =
    let h1 = record h { hop_count = (h.hop_count + 1) % 256 } in
    let new = reply_entry w h1 receiver sender in
    let live = purge w.now n.table in
    let (d, _, _) = reply_entry-fields w h1 receiver sender in
    let reset = reply_entry-reset w h1 receiver sender in
    let t = (update new live).0 in
    let b : LeadsBack w.now h.dst (get_next_hop new) new.iface t = record {
      table_valid = update-IsValid new live (purge-IsValid w.now n.table a.table_valid);
      entry = new;
      at = find-update h.dst new a.entry live d reset a.at;
      leads = record {
        next_hop = refl;
        through = refl;
        alive =
            alive_lem w.now (w.of_ms h.life_time) new (unfold reply_entry make_entry in refl)
              a.lasting;
      };
    } in
    let p = purge-LeadsBack w.now h.dst (get_next_hop new) new.iface t b in
    let at = find-purge_alive w.now h.dst (get_next_hop new) new.iface t b in
    let n1 = record n { table = t } in
    let e1 =
      forward_route-met w h1 new a.entry true n a.at
        (replaces-unknown h1.dst_seq_no h1.hop_count a.entry a.unknown) in
    let (n', e2, same) = consume_reply-settled w h1 new a.entry n1 b at a.settled a.free in
    (
      n',
      rw a.no_hello (rw e1 (unfold update_route in rw a.no_ack (rw a.own e2))),
      rw same p.table_valid,
      rw same at,
    )
