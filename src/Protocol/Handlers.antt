-- ===== src/Protocol/Handlers.antt =====
-- The handlers through which the simulator enters the protocol: `RouteRequestTimerExpire`,
-- `RreqRateLimitTimerExpire`, `RerrRateLimitTimerExpire`, `AckTimerExpire`, the dispatch of
-- `RecvMadaodv`, and on the data path `Forwarding` and `DeferredRouteOutput`.
use madaodv_ns.Base.{ℕ, Bool, true, false, not, Option, none, some, ◌==◌, if◌then◌else◌, ◌||◌}
use madaodv_ns.Int.{ℤ, ◌+ℤ◌}
use madaodv_ns.Map.{find, erase}
use madaodv_ns.Ipv4.{Packet, Ipv4Header}
use madaodv_ns.Entry.{Route, valid, in_search, flag_eq, get_next_hop}
use madaodv_ns.RoutingTable
use madaodv_ns.RequestQueue.{make_queue_entry, enqueue, drop_packet_with_dst}
use madaodv_ns.Protocol.{
  World, Node, Message, rreq_message, rrep_message, rerr_message, ack_message, forwards, emit,
  lookup_route, lookup_valid_route, delete_route, blank, ◌>>=◌,
}
use madaodv_ns.Protocol.Routes.{update_route_life_time, update_route_to_neighbor}
use madaodv_ns.Protocol.Request.{send_request}
use madaodv_ns.Protocol.Queue.{fail_all, send_packet_from_queue}
use madaodv_ns.Protocol.Rerr.{recv_error, send_rerr_when_no_route_to_forward, update_neighbor}
use madaodv_ns.Protocol.Reply.{recv_reply_ack}
use madaodv_ns.Protocol.RecvRequest.{recv_request}
use madaodv_ns.Protocol.RecvReply.{recv_reply}

-- The receiver of what came in through the socket; `none` fails the assertion.
unfoldable pub receiver_iface : ℕ → Node → Option ℕ
receiver_iface socket n = elim (find socket n.socket_addresses) [
  | some iface ↦ some iface
  | none ↦ find socket n.socket_subnet_broadcast_addresses
]

module _ (w : World) where
  open w use {ns, now}

  -- The end of the search for `dst`: its timer, its entry and its packets go.
  unfoldable pub give_up : ℕ → Node → Node
  give_up dst n =
      let n' =
        delete_route w dst (record n { address_req_timer = erase dst n.address_req_timer }) in
      let (q, dropped) = drop_packet_with_dst now dst n'.queue in
      fail_all w dropped (record n' { queue = q })

  unfoldable pub route_request_timer_expire : ℕ → Node → Option Node
  route_request_timer_expire dst n =
      let c = n.config in
      let (n', ok, to_dst) = lookup_valid_route w dst (blank w) n in
      if ok
      then send_packet_from_queue w dst to_dst.route n'
      else if to_dst.req_count == c.rreq_retries
      then some (give_up dst n')
      else if flag_eq to_dst.flag in_search
      then send_request w dst n'
      else some (give_up dst n')

  -- Both timers start again, due in a second.
  unfoldable pub rreq_rate_limit_timer_expire : Node → Node
  rreq_rate_limit_timer_expire n = record n {
    rreq_count = 0;
    rreq_rate_limit_timer = some (w.of_ms 1000 +ℤ now);
  }

  unfoldable pub rerr_rate_limit_timer_expire : Node → Node
  rerr_rate_limit_timer_expire n = record n {
    rerr_count = 0;
    rerr_rate_limit_timer = some (w.of_ms 1000 +ℤ now);
  }

  unfoldable pub ack_timer_expire : ℕ → ℤ → Node → Node
  ack_timer_expire neighbor blacklist_timeout n = record n {
    table = (RoutingTable.mark_link_as_unidirectional neighbor blacklist_timeout n.table).0;
  }

  unfoldable pub dispatch : ℕ → Message → ℕ → ℕ → Node → Option Node
  dispatch ttl (rreq_message h) receiver sender n = recv_request w ttl h receiver sender n
  dispatch ttl (rrep_message h) receiver sender n = recv_reply w ttl h receiver sender n
  dispatch ttl (rerr_message h) receiver sender n = recv_error w h sender n
  dispatch ttl (ack_message h) receiver sender n = some (recv_reply_ack w sender n)

  -- A packet that came in through `socket`: its TTL tag, and its message unless the type is
  -- unknown.
  unfoldable pub recv_madaodv : ℕ → ℕ → ℕ → Option Message → Node → Option Node
  recv_madaodv socket sender ttl message n = do
    iface ← receiver_iface socket n
    let receiver = ns.local iface
    let n' = update_route_to_neighbor w sender receiver n
    elim message [ none ↦ some n' | some m ↦ dispatch ttl m receiver sender n' ]

  -- The lifetimes and the neighbors that a forwarded packet refreshes.
  unfoldable pub refresh_path : ℕ → ℕ → Route → Node → Option Node
  refresh_path dst origin route n = do
    let c = n.config
    let n1 = (update_route_life_time w origin c.active_route_timeout n).0
    let n2 = (update_route_life_time w dst c.active_route_timeout n1).0
    let n3 = (update_route_life_time w route.gateway c.active_route_timeout n2).0
    let (n4, ok, to_origin) = lookup_route w origin (blank w) n3
    let n5 = (update_route_life_time w (get_next_hop to_origin) c.active_route_timeout n4).0
    n6 ← update_neighbor w route.gateway c.active_route_timeout n5
    update_neighbor w (get_next_hop to_origin) c.active_route_timeout n6

  unfoldable pub forward_on : Packet → Ipv4Header → ℕ → Route → Node → Option (Node × Bool)
  forward_on p header ucb route n = do
    n' ← refresh_path header.destination header.source route n
    some (emit (forwards ucb route p header) n', true)

  unfoldable pub refuse : ℕ → ℕ → ℕ → Node → Option (Node × Bool)
  refuse dst seq_no origin n = do
    n' ← send_rerr_when_no_route_to_forward w dst seq_no origin n
    some (n', false)

  unfoldable pub forwarding : Packet → Ipv4Header → ℕ → Node → Option (Node × Bool)
  forwarding p header ucb n =
      let m = record n { table = RoutingTable.purge now n.table } in
      let (n', ok, to_dst) = lookup_route w header.destination (blank w) m in
      if ok
      then (if flag_eq to_dst.flag valid
          then forward_on p header ucb to_dst.route n'
          else if to_dst.valid_seq_no
          then refuse header.destination to_dst.seq_no header.source n'
          else refuse header.destination 0 header.source n')
      else refuse header.destination 0 header.source n'

  -- A packet that was looped back waits for a route, which is asked for unless a search is on.
  unfoldable pub await_route : ℕ → Node → Option Node
  await_route dst n =
      let (n', ok, rt) = lookup_route w dst (blank w) n in
      if not ok || not (flag_eq rt.flag in_search) then send_request w dst n' else some n'

  unfoldable pub deferred_route_output : Packet → Ipv4Header → ℕ → ℕ → Node → Option Node
  deferred_route_output p header ucb ecb n = do
    (q, dropped, result) ← enqueue now (make_queue_entry now p header ucb ecb) n.queue
    let n' = fail_all w dropped (record n { queue = q })
    if result then await_route header.destination n' else some n'
