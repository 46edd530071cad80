-- ===== src/Protocol/Down.antt =====
-- What is left when an interface goes down, and when an address is removed.
use madaodv_ns.Base.{
  ◌≢◌, ℕ, ◌≡◌, refl, false, none, some, [], ◌∷◌, ◌==◌, if◌then◌else◌, ◌⊎◌, inl, inr, arith,
  Option-cases, Bool-cases,
}
use madaodv_ns.Int.{pos}
use madaodv_ns.Map.{Map, erase, filter_map}
use madaodv_ns.Map.Every.{Every}
use madaodv_ns.Entry.{Entry}
use madaodv_ns.RoutingTable.{RoutingTable}
use madaodv_ns.RoutingTable
use madaodv_ns.Neighbors
use madaodv_ns.Protocol.{
  World, Node, find_socket_with_interface_address,
  find_subnet_broadcast_socket_with_interface_address, emit,
}
use madaodv_ns.Protocol.RouteOutput.{has_no_sockets}
use madaodv_ns.Protocol.Interfaces.{
  close_socket, close_broadcast_socket, fall_silent, delete_all_routes_from_interface,
  ignore_losses, notify_interface_down,
}

-- No route leaves through the interface.
abbrev pub NoRouteThrough : ℕ → Node → Type 0
NoRouteThrough iface n = let t = n.table in Every (λ k e. e.iface ≢ iface) t.entries

filter_map-NoRouteThrough :
    (iface : ℕ) (m : Map Entry)
    → Every
        (λ k e. e.iface ≢ iface)
        (filter_map (λ k e. if e.iface == iface then none else some e) m)
unfolding filter_map
filter_map-NoRouteThrough iface [] = tt
filter_map-NoRouteThrough iface ((k, e) ∷ m) = elim (Bool-cases (e.iface == iface)) [
  | inl here ↦ rw (here, filter_map) (filter_map-NoRouteThrough iface m)
  | inr other ↦ rw (other, filter_map) (ground (arith, other), filter_map-NoRouteThrough iface m)
]

-- What a node is like without an interface.
abbrev pub IsSilent : Node → Type 0
IsSilent n = let t = n.table in let nb = n.nb in (t.entries ≡ []) × (nb.nb ≡ []) × (n.htimer ≡ none)

ignore_losses-sockets :
    (w : World) (i : ℕ) (n m : Node)
    → ignore_losses w i n ≡ some m
    → (m.socket_addresses ≡ n.socket_addresses)
      × (m.socket_subnet_broadcast_addresses ≡ n.socket_subnet_broadcast_addresses)
unfolding ignore_losses emit
ignore_losses-sockets w i n m h = ground arith

-- The end of `NotifyInterfaceDown`.
settle : ℕ → Node → Node
settle iface n =
    if has_no_sockets n then fall_silent n else delete_all_routes_from_interface iface n

record IsSettled (iface : ℕ) (n m : Node) : Type 0 where
  routes : NoRouteThrough iface m
  silent : (has_no_sockets m ≡ false) ⊎ IsSilent m
  sockets : m.socket_addresses ≡ n.socket_addresses
  broadcast_sockets : m.socket_subnet_broadcast_addresses ≡ n.socket_subnet_broadcast_addresses

settle-IsSettled : (iface : ℕ) (n : Node) → IsSettled iface n (settle iface n)
unfolding settle fall_silent RoutingTable.clear Neighbors.clear delete_all_routes_from_interface
    RoutingTable.delete_all_routes_from_interface has_no_sockets
settle-IsSettled iface n = elim (Bool-cases (has_no_sockets n)) [
  | inl closed ↦
      rw (closed, settle)
        (record {
          routes = tt;
          silent = inr (refl, refl, refl);
          sockets = refl;
          broadcast_sockets = refl;
        })
  | inr open_ ↦
      rw (open_, settle)
        (record {
          routes = filter_map-NoRouteThrough iface _;
          silent = inl open_;
          sockets = refl;
          broadcast_sockets = refl;
        })
]

-- How `NotifyInterfaceDown` leaves the node.
pub record IsDown (iface : ℕ) (n m : Node) : Type 0 where
  pub routes : NoRouteThrough iface m
  pub silent : (has_no_sockets m ≡ false) ⊎ IsSilent m
  pub socket : ℕ
  pub found : find_socket_with_interface_address iface n ≡ some socket
  pub sockets : m.socket_addresses ≡ erase socket n.socket_addresses
  pub broadcast : ℕ
  pub found_broadcast : find_subnet_broadcast_socket_with_interface_address iface n ≡ some broadcast
  pub broadcast_sockets :
      m.socket_subnet_broadcast_addresses ≡ erase broadcast n.socket_subnet_broadcast_addresses

close_sockets-IsDown :
    (iface s b : ℕ) (n n1 : Node)
    → n1.socket_addresses ≡ n.socket_addresses
    → n1.socket_subnet_broadcast_addresses ≡ n.socket_subnet_broadcast_addresses
    → find_socket_with_interface_address iface n1 ≡ some s
    → find_subnet_broadcast_socket_with_interface_address iface n1 ≡ some b
    → IsDown iface n (settle iface (close_broadcast_socket b (close_socket s n1)))
unfolding close_socket close_broadcast_socket emit find_socket_with_interface_address
    find_subnet_broadcast_socket_with_interface_address
close_sockets-IsDown iface s b n n1 e e' f g =
    let settled = settle-IsSettled iface (close_broadcast_socket b (close_socket s n1)) in
    record {
      routes = settled.routes;
      silent = settled.silent;
      socket = s;
      found = rw (← e) f;
      sockets = rw (← e) settled.sockets;
      broadcast = b;
      found_broadcast = rw (← e') g;
      broadcast_sockets = rw (← e') settled.broadcast_sockets;
    }

-- After `NotifyInterfaceDown` no route leaves through the interface; the first socket of its address
-- that the unicast map had, and the first that the broadcast map had, are gone from them, and nothing
-- else is; and where this was the last interface, the node has no routes, no neighbors and no HELLO
-- timer.
pub notify_interface_down_lem :
    (w : World) (i : ℕ) (n m : Node)
    → notify_interface_down w i n ≡ some m
    → IsDown (w.ns.address (pos i)) n m
unfolding notify_interface_down settle close_socket emit
    find_subnet_broadcast_socket_with_interface_address
notify_interface_down_lem w i n m h =
    let iface = w.ns.address (pos i) in
    elim (Option-cases (ignore_losses w i n)) [
      | inl e ↦ ground (arith, e)
      | inr (n1, e) ↦ elim (Option-cases (find_socket_with_interface_address iface n1)) [
        | inl f ↦ ground (arith, e, f)
        | inr (s, f) ↦
            elim (Option-cases (find_subnet_broadcast_socket_with_interface_address iface n1)) [
              | inl g ↦ ground (arith, e, f, g)
              | inr (b, g) ↦
                  let (same, same') = ignore_losses-sockets w i n n1 e in
                  let down = close_sockets-IsDown iface s b n n1 same same' f g in
                  let end : settle iface (close_broadcast_socket b (close_socket s n1)) ≡ m =
                    ground (arith, e, f, g) in
                  rw (← end) down
            ]
      ]
    ]
