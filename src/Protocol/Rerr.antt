-- ===== src/Protocol/Rerr.antt =====
-- Route errors: `SendRerrMessage`, `SendRerrWhenBreaksLinkToNextHop`,
-- `SendRerrWhenNoRouteToForward` and `RecvError`, and the calls of the list of neighbors, whose link
-- failure callback is the second of these. `AddUnDestination` never returns false, so the branches
-- that send a message before the list is complete are dead and left out.
use madaodv_ns.Base.{
  ℕ, ◌+◌, ◌%◌, Option, none, some, List, [], ◌∷◌, ◌++◌, ◌==◌, if◌then◌else◌, is_some, any,
}
use madaodv_ns.Int.{ℤ}
use madaodv_ns.Map.{Map, insert}
use madaodv_ns.Entry.{Entry, get_next_hop, get_precursors}
use madaodv_ns.RoutingTable
use madaodv_ns.Neighbors
use madaodv_ns.Headers.{RerrHeader, make_rerr, add_un_destination, get_dest_count}
use madaodv_ns.Protocol.{
  World, Node, Message, rerr_message, sends, emit, lookup_route, lookup_valid_route, send_later,
  broadcast_address, blank, find_socket_with_interface_address, ◌>>=◌,
}

-- The loop of `RecvError` that takes the destinations out of the message, and keeps those that are
-- reached through the sender.
unfoldable pub keep_reached : Map ℕ → Map ℕ → Map ℕ → Map ℕ
keep_reached [] reached unreachable = unreachable
keep_reached ((a, s) ∷ m) reached unreachable =
    keep_reached m reached
      (if any (λ i. i.0 == a) reached then insert a s unreachable else unreachable)

module _ (w : World) where
  open w use {ns, now}

  -- The loop that collects the interfaces of the precursors that have a valid route.
  unfoldable pub collect_ifaces : List ℕ → List ℕ → Node → Node × List ℕ
  collect_ifaces [] ifaces n = (n, ifaces)
  collect_ifaces (p ∷ precursors) ifaces n =
      let (n', ok, rt) = lookup_valid_route w p (blank w) n in
      collect_ifaces precursors
        (if ok
          then (if any (λ i. i == rt.iface) ifaces then ifaces else ifaces ++ rt.iface ∷ [])
          else ifaces)
        n'

  -- The loop that broadcasts the message from each interface.
  unfoldable pub broadcast_rerr : Message → List ℕ → Node → Option Node
  broadcast_rerr message [] n = some n
  broadcast_rerr message (i ∷ ifaces) n = elim (find_socket_with_interface_address i n) [
    | none ↦ none
    | some socket ↦
        broadcast_rerr message ifaces (send_later w socket (broadcast_address w i) 1 message n)
  ]

  -- To one precursor the message is unicast, if a valid route leads there, and is counted.
  unfoldable pub unicast_rerr : Message → ℕ → Node → Option Node
  unicast_rerr message p n =
      let (n', ok, rt) = lookup_valid_route w p (blank w) n in
      if ok
      then elim (find_socket_with_interface_address rt.iface n') [
        | none ↦ none
        | some socket ↦
            let sent = send_later w socket p 1 message n' in
            some (record sent { rerr_count = (sent.rerr_count + 1) % 65536 })
      ]
      else some n'

  unfoldable pub multicast_rerr : Message → List ℕ → Node → Option Node
  multicast_rerr message precursors n =
      let (n', ifaces) = collect_ifaces precursors [] n in broadcast_rerr message ifaces n'

  -- By the number of precursors: none, one or more.
  unfoldable pub send_to_precursors : Message → List ℕ → Node → Option Node
  send_to_precursors message [] n = some n
  send_to_precursors message (p ∷ []) n = unicast_rerr message p n
  send_to_precursors message (p ∷ q ∷ precursors) n = multicast_rerr message (p ∷ q ∷ precursors) n

  -- At the rate limit the message is dropped; the timer of the limit is asserted to run.
  unfoldable pub suppress_rerr : Node → Option Node
  suppress_rerr n = if is_some n.rerr_rate_limit_timer then some n else none

  unfoldable pub send_rerr_message : RerrHeader → List ℕ → Node → Option Node
  send_rerr_message h [] n = some n
  send_rerr_message h (p ∷ precursors) n =
      let c = n.config in
      if n.rerr_count == c.rerr_rate_limit
      then suppress_rerr n
      else send_to_precursors (rerr_message h) (p ∷ precursors) n

  -- The loop that fills the message and gathers the precursors.
  unfoldable pub fill_rerr :
      Map ℕ → RerrHeader → List ℕ → Node → Option (RerrHeader × List ℕ × Node)
  fill_rerr [] h precursors n = some (h, precursors, n)
  fill_rerr ((a, s) ∷ unreachable) h precursors n =
      let (n', ok, rt) = lookup_route w a (blank w) n in
      elim (add_un_destination a s h) [
        | none ↦ none
        | some h' ↦ fill_rerr unreachable h' (get_precursors rt precursors) n'
      ]

  unfoldable pub send_if_any : RerrHeader → List ℕ → Node → Option Node
  send_if_any h precursors n =
      if get_dest_count h == 0 then some n else send_rerr_message h precursors n

  unfoldable pub invalidate_routes_with_dst : Map ℕ → Node → Node
  invalidate_routes_with_dst unreachable n = record n {
    table = RoutingTable.invalidate_routes_with_dst now unreachable n.table;
  }

  unfoldable pub reached_through : ℕ → Node → Node × Map ℕ
  reached_through next_hop n =
      let (t, m) = RoutingTable.get_list_of_destination_with_next_hop now next_hop n.table in
      (record n { table = t }, m)

  unfoldable pub break_link : ℕ → Entry → Node → Option Node
  break_link next_hop to_next_hop n = do
    h ← add_un_destination next_hop to_next_hop.seq_no make_rerr
    let reached = reached_through next_hop n
    filled ← fill_rerr reached.1 h (get_precursors to_next_hop []) reached.0
    n' ← send_if_any filled.0 filled.1 filled.2
    some (invalidate_routes_with_dst (insert next_hop to_next_hop.seq_no reached.1) n')

  unfoldable pub send_rerr_when_breaks_link_to_next_hop : ℕ → Node → Option Node
  send_rerr_when_breaks_link_to_next_hop next_hop n =
      let (n', ok, to_next_hop) = lookup_route w next_hop (blank w) n in
      if ok then break_link next_hop to_next_hop n' else some n'

  -- The loop that broadcasts from every interface, without delay.
  unfoldable pub broadcast_now : Message → Map ℕ → Node → Node
  broadcast_now message [] n = n
  broadcast_now message ((socket, iface) ∷ sockets) n =
      broadcast_now message sockets (emit (sends socket (broadcast_address w iface) 1 message) n)

  unfoldable pub send_rerr_to_origin : RerrHeader → ℕ → Node → Option Node
  send_rerr_to_origin h origin n =
      let (n', ok, to_origin) = lookup_valid_route w origin (blank w) n in
      if ok
      then elim (find_socket_with_interface_address to_origin.iface n') [
        | none ↦ none
        | some socket ↦ some (emit (sends socket (get_next_hop to_origin) 1 (rerr_message h)) n')
      ]
      else some (broadcast_now (rerr_message h) n'.socket_addresses n')

  unfoldable pub send_rerr_when_no_route_to_forward : ℕ → ℕ → ℕ → Node → Option Node
  send_rerr_when_no_route_to_forward dst dst_seq_no origin n =
      let c = n.config in
      if n.rerr_count == c.rerr_rate_limit
      then suppress_rerr n
      else elim (add_un_destination dst dst_seq_no make_rerr) [
        | none ↦ none
        | some h ↦ send_rerr_to_origin h origin n
      ]

  unfoldable pub recv_error : RerrHeader → ℕ → Node → Option Node
  recv_error h src n = do
    let reached = reached_through src n
    let unreachable = keep_reached h.unreachable reached.1 []
    filled ← fill_rerr unreachable (record h { unreachable = [] }) [] reached.0
    n' ← send_if_any filled.0 filled.1 filled.2
    some (invalidate_routes_with_dst unreachable n')

  -- The calls of the link failure callback.
  unfoldable pub handle_link_failures : List ℕ → Node → Option Node
  handle_link_failures [] n = some n
  handle_link_failures (a ∷ failures) n = elim (send_rerr_when_breaks_link_to_next_hop a n) [
    | none ↦ none
    | some n' ↦ handle_link_failures failures n'
  ]

  unfoldable pub update_neighbor : ℕ → ℤ → Node → Option Node
  update_neighbor addr expire n =
      let (nb, failures) = Neighbors.update w.arp now addr expire n.nb in
      handle_link_failures failures (record n { nb = nb })

  -- `NotifyTxError`.
  unfoldable pub notify_tx_error : ℕ → Node → Option Node
  notify_tx_error mac n =
      let (nb, failures) = Neighbors.process_tx_error now mac n.nb in
      handle_link_failures failures (record n { nb = nb })

  -- `m_ntimer` expires.
  unfoldable pub neighbor_timer_expire : Node → Option Node
  neighbor_timer_expire n =
      let (nb, failures) = Neighbors.purge now n.nb in
      handle_link_failures failures (record n { nb = nb })
