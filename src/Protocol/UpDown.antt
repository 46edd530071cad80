-- ===== src/Protocol/UpDown.antt =====
-- The sockets of an interface that comes up and goes down.
use mathlib.Core.List.{append_assoc}
use madaodv_ns.Base.{
  ℕ, ◌≡◌, ◌∙◌, sym, ap, Bool, true, false, none, some, List, [], ◌∷◌, ◌++◌, ◌==◌, ltb, inl, inr,
  arith, Option-cases, Bool-cases,
}
use madaodv_ns.Int.{pos}
use madaodv_ns.Map.{Map, find, insert, erase}
use madaodv_ns.Protocol.{
  World, Node, Action, binds, add_route, find_socket, find_socket_with_interface_address,
  find_subnet_broadcast_socket_with_interface_address, emit,
}
use madaodv_ns.Protocol.Interfaces.{
  open_socket, open_broadcast_socket, add_broadcast_route, listen_on, use_arp_cache, watch_losses,
  notify_interface_up, notify_interface_down,
}
use madaodv_ns.Protocol.Down.{notify_interface_down_lem}

erase-insert :
    {V : Type 0} (k : ℕ) (v : V) (m : Map V) → find k m ≡ none → erase k (insert k v m) ≡ m
unfolding erase insert find
erase-insert k v [] h = ground arith
erase-insert k v ((j, x) ∷ m) h = ground (arith, erase-insert k v m)

find_socket-insert :
    (a k : ℕ) (m : Map ℕ)
    → find_socket a m ≡ none
    → find k m ≡ none
    → find_socket a (insert k a m) ≡ some k
unfolding find_socket insert find
find_socket-insert a k [] h e = ground arith
find_socket-insert a k ((j, x) ∷ m) h e = elim (Bool-cases (ltb k j)) [
  | inl below ↦ rw (insert, below) (ground arith)
  | inr above ↦ elim (Bool-cases (k == j)) [
    | inl same ↦ ground (arith, same)
    | inr other ↦ rw (insert, above, other) (ground (arith, other, find_socket-insert a k m))
  ]
]

-- The node's sockets are those that it had, and one more in each map.
pub record Opened (iface s b : ℕ) (n m : Node) : Type 0 where
  pub unicast : m.socket_addresses ≡ insert s iface n.socket_addresses
  pub broadcast :
      m.socket_subnet_broadcast_addresses ≡ insert b iface n.socket_subnet_broadcast_addresses
  pub trace : (rest : List Action) × (m.trace ≡ n.trace ++ rest)

pub listen_on-Opened :
    (w : World) (i iface : ℕ) (ttl : Bool) (s b : ℕ) (n m : Node)
    → listen_on w i iface ttl s b n ≡ some m
    → Opened iface s b n m
unfolding listen_on open_socket open_broadcast_socket add_broadcast_route add_route emit
listen_on-Opened w i iface ttl s b n m h = elim (Bool-cases (s == 0)) [
  | inl e ↦ ground (arith, e)
  | inr e ↦ elim (Bool-cases (b == 0)) [
    | inl f ↦ ground (arith, e, f)
    | inr f ↦ record {
      unicast = ground (arith, e, f);
      broadcast = ground (arith, e, f);
      trace =
          (let ns = w.ns in
            let one = binds s (ns.net_device (pos i)) (ns.local iface) ttl in
            let two = binds b (ns.net_device (pos i)) (ns.broadcast iface) true in
            let same : m.trace ≡ (n.trace ++ one ∷ []) ++ two ∷ [] = ground (arith, e, f) in
            (one ∷ two ∷ [], same ∙ append_assoc n.trace (one ∷ []) (two ∷ [])));
    }
  ]
]

SameSockets : Node → Node → Type 0
SameSockets n m =
    (m.socket_addresses ≡ n.socket_addresses)
    × (m.socket_subnet_broadcast_addresses ≡ n.socket_subnet_broadcast_addresses)

watch_losses-sockets :
    (w : World) (dev i : ℕ) (n : Node) → SameSockets n (watch_losses w dev (use_arp_cache w i n))
unfolding SameSockets watch_losses use_arp_cache emit
watch_losses-sockets w dev i n = (ground arith, ground arith)

notify_interface_up-sockets :
    (w : World) (i s b : ℕ) (n m : Node)
    → (w.ns.local (w.ns.address (pos i)) == w.ns.loopback) ≡ false
    → notify_interface_up w i s b n ≡ some m
    → (m.socket_addresses ≡ insert s (w.ns.address (pos i)) n.socket_addresses)
      × (m.socket_subnet_broadcast_addresses
          ≡ insert b (w.ns.address (pos i)) n.socket_subnet_broadcast_addresses)
unfolding notify_interface_up SameSockets
notify_interface_up-sockets w i s b n m l h =
    let iface = w.ns.address (pos i) in
    elim (Option-cases (listen_on w i iface true s b n)) [
      | inl e ↦ ground (arith, l, e)
      | inr (n1, e) ↦
          let opened = listen_on-Opened w i iface true s b n n1 e in
          let dev = w.ns.net_device (w.ns.interface_for_address (w.ns.local iface)) in
          let (same, same') = watch_losses-sockets w dev i n1 in
          let end : watch_losses w dev (use_arp_cache w i n1) ≡ m = ground (arith, l, e) in
          (
            sym (ap (λ x. x.socket_addresses) end) ∙ same ∙ opened.unicast,
            sym (ap (λ x. x.socket_subnet_broadcast_addresses) end) ∙ same' ∙ opened.broadcast,
          )
    ]

restored :
    (iface s t : ℕ) (m : Map ℕ)
    → find_socket iface m ≡ none
    → find s m ≡ none
    → find_socket iface (insert s iface m) ≡ some t
    → erase t (insert s iface m) ≡ m
restored iface s t m free fresh h =
    let same : t ≡ s = ground (arith, h, find_socket-insert iface s m free fresh) in
    rw same (erase-insert s iface m fresh)

-- An interface that is not the loopback comes up, with an address that no socket has and two sockets
-- that are new, and goes down later with that address, when nothing came in between: the node
-- has the sockets that it had.
pub notify_interface_up_down :
    (w w' : World) (i s b : ℕ) (n m m' : Node)
    → (w.ns.local (w.ns.address (pos i)) == w.ns.loopback) ≡ false
    → find_socket_with_interface_address (w.ns.address (pos i)) n ≡ none
    → find_subnet_broadcast_socket_with_interface_address (w.ns.address (pos i)) n ≡ none
    → find s n.socket_addresses ≡ none
    → find b n.socket_subnet_broadcast_addresses ≡ none
    → w'.ns.address (pos i) ≡ w.ns.address (pos i)
    → notify_interface_up w i s b n ≡ some m
    → notify_interface_down w' i m ≡ some m'
    → (m'.socket_addresses ≡ n.socket_addresses)
      × (m'.socket_subnet_broadcast_addresses ≡ n.socket_subnet_broadcast_addresses)
unfolding find_socket_with_interface_address find_subnet_broadcast_socket_with_interface_address
notify_interface_up_down w w' i s b n m m' l free free' fresh fresh' a up down =
    let iface = w.ns.address (pos i) in
    let (opened, opened') = notify_interface_up-sockets w i s b n m l up in
    let closed = notify_interface_down_lem w' i m m' down in
    (
      closed.sockets
          ∙ rw opened (
              restored iface s closed.socket n.socket_addresses free fresh
                (rw (← opened, ← a) closed.found)),
      closed.broadcast_sockets
          ∙ rw opened' (
              restored iface b closed.broadcast n.socket_subnet_broadcast_addresses free' fresh'
                (rw (← opened', ← a) closed.found_broadcast)),
    )
