-- ===== src/Protocol/Interfaces.antt =====
-- Interfaces and addresses come and go: `NotifyInterfaceUp`, `NotifyInterfaceDown`,
-- `NotifyAddAddress` and `NotifyRemoveAddress`. The sockets that `Socket::CreateSocket` gives are
-- arguments; `none` fails an assertion or dereferences a null pointer.
use madaodv_ns.Base.{ℕ, Bool, true, false, not, Option, none, some, ◌==◌, if◌then◌else◌, ◌&&◌}
use madaodv_ns.Int.{pos}
use madaodv_ns.Map.{insert, erase}
use madaodv_ns.Entry.{make_entry}
use madaodv_ns.RoutingTable
use madaodv_ns.Neighbors
use madaodv_ns.Protocol.{
  World, Node, binds, closes_socket, connects_trace, disconnects_trace, emit, add_route, device_of,
  find_socket_with_interface_address, find_subnet_broadcast_socket_with_interface_address, ◌>>=◌,
}
use madaodv_ns.Protocol.RouteOutput.{has_no_sockets}

-- `Close` and the removal from `m_socketAddresses`, and the same for the other map.
unfoldable pub close_socket : ℕ → Node → Node
close_socket socket n =
    emit (closes_socket socket) (record n { socket_addresses = erase socket n.socket_addresses })

unfoldable pub close_broadcast_socket : ℕ → Node → Node
close_broadcast_socket socket n = emit (closes_socket socket) (record n {
  socket_subnet_broadcast_addresses = erase socket n.socket_subnet_broadcast_addresses;
})

-- No interface is left: no HELLO, no neighbor and no route.
unfoldable pub fall_silent : Node → Node
fall_silent n = record n {
  htimer = none;
  nb = Neighbors.clear n.nb;
  table = RoutingTable.clear n.table;
}

unfoldable pub delete_all_routes_from_interface : ℕ → Node → Node
delete_all_routes_from_interface iface n = record n {
  table = RoutingTable.delete_all_routes_from_interface iface n.table;
}

module _ (w : World) where
  open w use {ns, now}

  -- The socket for the interface, which asks for the TTL of what it receives or does not.
  unfoldable pub open_socket : ℕ → ℕ → Bool → ℕ → Node → Option Node
  open_socket i iface recv_ttl socket n =
      if socket == 0
      then none
      else some (
          emit (binds socket (ns.net_device (pos i)) (ns.local iface) recv_ttl)
            (record n { socket_addresses = insert socket iface n.socket_addresses }))

  -- The socket for the broadcasts of its subnet.
  unfoldable pub open_broadcast_socket : ℕ → ℕ → ℕ → Node → Option Node
  open_broadcast_socket i iface socket n =
      if socket == 0
      then none
      else some (
          emit (binds socket (ns.net_device (pos i)) (ns.broadcast iface) true) (record n {
            socket_subnet_broadcast_addresses =
                insert socket iface n.socket_subnet_broadcast_addresses;
          }))

  -- The route to the broadcast address.
  unfoldable pub add_broadcast_route : ℕ → Node → Node
  add_broadcast_route iface n =
      add_route w
        (make_entry ns now (device_of w (ns.local iface)) (ns.broadcast iface) true 0 iface 1
          (ns.broadcast iface) ns.max_time)
        n

  -- What the handlers do for an interface that the protocol begins to use.
  unfoldable pub listen_on : ℕ → ℕ → Bool → ℕ → ℕ → Node → Option Node
  listen_on i iface recv_ttl unicast broadcast n = do
    n1 ← open_socket i iface recv_ttl unicast n
    n2 ← open_broadcast_socket i iface broadcast n1
    some (add_broadcast_route iface n2)

  unfoldable pub use_arp_cache : ℕ → Node → Node
  use_arp_cache i n =
      if ns.arp_cache (pos i) == 0
      then n
      else record n { nb = Neighbors.add_arp_cache (ns.arp_cache (pos i)) n.nb }

  -- The feedback of layer 2, if the device has it.
  unfoldable pub watch_losses : ℕ → Node → Node
  watch_losses dev n = if ns.has_wifi dev && ns.has_mac dev then emit (connects_trace dev) n else n

  unfoldable pub notify_interface_up : ℕ → ℕ → ℕ → Node → Option Node
  notify_interface_up i unicast broadcast n =
      let iface = ns.address (pos i) in
      if ns.local iface == ns.loopback then some n else (do
        n' ← listen_on i iface true unicast broadcast n
        some (watch_losses (device_of w (ns.local iface)) (use_arp_cache i n')))

  unfoldable pub ignore_losses : ℕ → Node → Option Node
  ignore_losses i n =
      let dev = ns.net_device (pos i) in
      if not (ns.has_wifi dev)
      then some n
      else if not (ns.has_mac dev)
      then none
      else if ns.has_adhoc_mac dev
      then some (record (emit (disconnects_trace dev) n) {
        nb = Neighbors.del_arp_cache (ns.arp_cache (pos i)) n.nb;
      })
      else some n

  unfoldable pub notify_interface_down : ℕ → Node → Option Node
  notify_interface_down i n = do
    let iface = ns.address (pos i)
    n1 ← ignore_losses i n
    socket ← find_socket_with_interface_address iface n1
    let n2 = close_socket socket n1
    broadcast ← find_subnet_broadcast_socket_with_interface_address iface n2
    let n3 = close_broadcast_socket broadcast n2
    some (if has_no_sockets n3 then fall_silent n3 else delete_all_routes_from_interface iface n3)

  -- The new address of an interface that is up, if it is the only one and not yet in use.
  unfoldable pub adopt_address : ℕ → ℕ → ℕ → Node → Option Node
  adopt_address i unicast broadcast n =
      let iface = ns.address (pos i) in
      elim (find_socket_with_interface_address iface n) [
        | some socket ↦ some n
        | none ↦
            if ns.local iface == ns.loopback
            then some n
            else listen_on i iface false unicast broadcast n
      ]

  unfoldable pub notify_add_address : ℕ → ℕ → ℕ → Node → Option Node
  notify_add_address i unicast broadcast n =
      if ns.is_up (pos i) && (ns.n_addresses (pos i) == 1)
      then adopt_address i unicast broadcast n
      else some n

  -- The socket for the subnet's broadcasts is closed, and looked for in the other map.
  unfoldable pub close_other_socket : ℕ → Node → Node
  close_other_socket address n =
      elim (find_subnet_broadcast_socket_with_interface_address address n) [
        | none ↦ n
        | some socket ↦ close_socket socket n
      ]

  unfoldable pub leave_address : ℕ → ℕ → ℕ → ℕ → ℕ → Node → Option Node
  leave_address i address unicast broadcast socket n = do
    let n1 = close_socket socket (delete_all_routes_from_interface address n)
    let n2 = close_other_socket address n1
    n3 ←
        if ns.n_addresses (pos i) == 0
        then some n2
        else listen_on i (ns.address (pos i)) true unicast broadcast n2
    some (if has_no_sockets n3 then fall_silent n3 else n3)

  unfoldable pub notify_remove_address : ℕ → ℕ → ℕ → ℕ → Node → Option Node
  notify_remove_address i address unicast broadcast n =
      elim (find_socket_with_interface_address address n) [
        | none ↦ some n
        | some socket ↦ leave_address i address unicast broadcast socket n
      ]
