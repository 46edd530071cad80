-- ===== src/Protocol/Kept/Entries.antt =====
-- The handlers of timers, messages and packets.
use madaodv_ns.Base.{ℕ, Bool, Option}
use madaodv_ns.Int.{ℤ}
use madaodv_ns.Ipv4.{Packet, Ipv4Header}
use madaodv_ns.Entry.{Route}
use madaodv_ns.RequestQueue.{make_queue_entry}
use madaodv_ns.RoutingTable.Spec.{purges, marks, apply}
use madaodv_ns.Protocol.{
  World, Node, Message, rreq_message, rrep_message, rerr_message, ack_message, blank, emit,
}
use madaodv_ns.Protocol.Queue.{fail_all}
use madaodv_ns.Protocol.Handlers.{
  receiver_iface, give_up, route_request_timer_expire, ack_timer_expire, dispatch, recv_madaodv,
  refresh_path, forward_on, refuse, forwarding, await_route, deferred_route_output,
}
use madaodv_ns.Protocol.After.{After, gives, bind-After, any-After, if-both, elim-both}
use madaodv_ns.Protocol.Kept.{
  Law, Kept, lookup_route-Kept, lookup_valid_route-Kept, delete_route-Kept,
  update_route_life_time-Kept, update_route_to_neighbor-Kept,
}
use madaodv_ns.Protocol.Kept.Discovery.{send_request-Kept, send_packet_from_queue-Kept}
use madaodv_ns.Protocol.Kept.Errors.{
  update_neighbor-Kept, recv_error-Kept, send_rerr_when_no_route_to_forward-Kept,
}
use madaodv_ns.Protocol.Kept.Messages.{recv_reply_ack-Kept}
use madaodv_ns.Protocol.Kept.Requests.{recv_request-Kept}
use madaodv_ns.Protocol.Kept.Replies.{recv_reply-Kept}

module _ (w : World) (l : Law) where
  open w use {ns, now}

  abbrev TakenKept : Node × Bool → Type 0
  TakenKept (n, taken) = Kept l n

  give_up-Kept : (dst : ℕ) (n : Node) → Kept l n → Kept l (give_up w dst n)
  unfolding give_up fail_all
  give_up-Kept dst n p =
      let p' = delete_route-Kept w l dst _ (record { holds = p.holds }) in
      record { holds = l.drops now dst _ _ p'.holds }

  pub route_request_timer_expire-Kept :
      (dst : ℕ) (n : Node) → Kept l n → After (Kept l) (route_request_timer_expire w dst n)
  unfolding route_request_timer_expire
  route_request_timer_expire-Kept dst n p =
      let p' = lookup_valid_route-Kept w l dst (blank w) n p in
      if-both (After (Kept l)) _ (send_packet_from_queue-Kept w l dst _ _ p') (
        if-both (After (Kept l)) _ (gives (give_up-Kept dst _ p')) (
          if-both (After (Kept l)) _ (send_request-Kept w l dst _ p')
            (gives (give_up-Kept dst _ p'))))

  pub ack_timer_expire-Kept :
      (a : ℕ) (t : ℤ) (n : Node) → Kept l n → Kept l (ack_timer_expire w a t n)
  unfolding ack_timer_expire apply
  ack_timer_expire-Kept a t n p = record { holds = l.kept (marks a t) n.table n.queue p.holds }

  dispatch-Kept :
      (ttl : ℕ) (m : Message) (r src : ℕ) (n : Node)
      → Kept l n
      → After (Kept l) (dispatch w ttl m r src n)
  unfolding dispatch
  dispatch-Kept ttl (rreq_message h) r src n p = recv_request-Kept w l ttl h r src n p
  dispatch-Kept ttl (rrep_message h) r src n p = recv_reply-Kept w l ttl h r src n p
  dispatch-Kept ttl (rerr_message h) r src n p = recv_error-Kept w l h src n p
  dispatch-Kept ttl (ack_message h) r src n p = gives (recv_reply_ack-Kept w l src n p)

  pub recv_madaodv-Kept :
      (socket src ttl : ℕ) (m : Option Message) (n : Node)
      → Kept l n
      → After (Kept l) (recv_madaodv w socket src ttl m n)
  unfolding recv_madaodv
  recv_madaodv-Kept socket src ttl m n p =
      bind-After (λ i. Unit) (Kept l) (receiver_iface socket n) _ (any-After _)
        (λ i q.
          let p' = update_route_to_neighbor-Kept w l src (ns.local i) n p in
          elim-both (After (Kept l)) m (gives p') (λ x. dispatch-Kept ttl x _ src _ p'))

  refresh_path-Kept :
      (dst origin : ℕ) (route : Route) (n : Node)
      → Kept l n
      → After (Kept l) (refresh_path w dst origin route n)
  unfolding refresh_path
  refresh_path-Kept dst origin route n p =
      let p1 = update_route_life_time-Kept w l origin _ n p in
      let p2 = update_route_life_time-Kept w l dst _ _ p1 in
      let p3 = update_route_life_time-Kept w l route.gateway _ _ p2 in
      let p4 = lookup_route-Kept w l origin (blank w) _ p3 in
      let p5 = update_route_life_time-Kept w l _ _ _ p4 in
      bind-After (Kept l) (Kept l) _ _ (update_neighbor-Kept w l route.gateway _ _ p5)
        (update_neighbor-Kept w l _ _)

  forward_on-Kept :
      (x : Packet) (h : Ipv4Header) (ucb : ℕ) (route : Route) (n : Node)
      → Kept l n
      → After TakenKept (forward_on w x h ucb route n)
  unfolding forward_on emit
  forward_on-Kept x h ucb route n p =
      bind-After (Kept l) TakenKept _ _ (refresh_path-Kept _ _ route n p)
        (λ n' q. gives (record { holds = q.holds }))

  refuse-Kept :
      (dst seq_no origin : ℕ) (n : Node) → Kept l n → After TakenKept (refuse w dst seq_no origin n)
  unfolding refuse
  refuse-Kept dst seq_no origin n p =
      bind-After (Kept l) TakenKept _ _
        (send_rerr_when_no_route_to_forward-Kept w l dst seq_no origin n p) (λ n' q. gives q)

  pub forwarding-Kept :
      (x : Packet) (h : Ipv4Header) (ucb : ℕ) (n : Node)
      → Kept l n
      → After TakenKept (forwarding w x h ucb n)
  unfolding forwarding apply
  forwarding-Kept x h ucb n p =
      let p' =
        lookup_route-Kept w l h.destination (blank w) _
          (record { holds = l.kept (purges now) n.table n.queue p.holds }) in
      if-both (After TakenKept) _
        (if-both (After TakenKept) _ (forward_on-Kept x h ucb _ _ p')
          (if-both (After TakenKept) _ (refuse-Kept _ _ _ _ p') (refuse-Kept _ _ _ _ p')))
        (refuse-Kept _ _ _ _ p')

  await_route-Kept : (dst : ℕ) (n : Node) → Kept l n → After (Kept l) (await_route w dst n)
  unfolding await_route
  await_route-Kept dst n p =
      let p' = lookup_route-Kept w l dst (blank w) n p in
      if-both (After (Kept l)) _ (send_request-Kept w l dst _ p') (gives p')

  pub deferred_route_output-Kept :
      (x : Packet) (h : Ipv4Header) (ucb ecb : ℕ) (n : Node)
      → Kept l n
      → After (Kept l) (deferred_route_output w x h ucb ecb n)
  unfolding deferred_route_output fail_all
  deferred_route_output-Kept x h ucb ecb n p =
      bind-After (λ r. l.Holds n.table r.0) (Kept l) _ _
        (l.enqueues now (make_queue_entry now x h ucb ecb) n.table n.queue p.holds)
        (λ r q.
          if-both (After (Kept l)) _ (await_route-Kept h.destination _ (record { holds = q }))
            (gives (record { holds = q })))
