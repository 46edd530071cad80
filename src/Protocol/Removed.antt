-- ===== src/Protocol/Removed.antt =====
-- The sockets of an address that is removed.
use mathlib.Core.List.{append_assoc}
use madaodv_ns.Base.{
  ℕ, suc, ◌≡◌, ◌∙◌, true, some, List, [], ◌∷◌, ◌++◌, ◌==◌, ◌⊎◌, if◌then◌else◌, inl, inr, arith,
  Option-cases, Bool-cases,
}
use madaodv_ns.Int.{pos}
use madaodv_ns.Map.{Map, find, SortedFrom, IsSorted}
use madaodv_ns.Map.Order.{find-insert, find_below}
use madaodv_ns.Protocol.{
  World, Node, Action, closes_socket, find_socket, find_socket_with_interface_address,
  find_subnet_broadcast_socket_with_interface_address, emit,
}
use madaodv_ns.Protocol.RouteOutput.{has_no_sockets}
use madaodv_ns.Protocol.Interfaces.{
  listen_on, close_socket, close_other_socket, fall_silent, delete_all_routes_from_interface,
  leave_address, notify_remove_address,
}
use madaodv_ns.Protocol.UpDown.{Opened, listen_on-Opened}

find-find_socket :
    (a k lo : ℕ) (m : Map ℕ) → SortedFrom lo m → find_socket a m ≡ some k → find k m ≡ some a
unfolding find_socket find
find-find_socket a k lo [] s h = cc
find-find_socket a k lo ((j, x) ∷ m) s h =
    ground (arith, find-find_socket a k (suc j) m s.1, find_below k (suc j) m s.1)

-- The broadcast socket `x` is in its map still, and the two sockets were closed first.
abbrev pub Lingers : ℕ → ℕ → ℕ → Node → Node → Type 0
Lingers a x y n m =
    (find x m.socket_subnet_broadcast_addresses ≡ some a)
    × ((rest : List Action) × (m.trace ≡ n.trace ++ closes_socket y ∷ closes_socket x ∷ rest))

module _ (w : World) (a x y : ℕ) (n : Node) (sorted : IsSorted n.socket_subnet_broadcast_addresses)
    (there : find_subnet_broadcast_socket_with_interface_address a n ≡ some x) where
  left : Node
  left = close_socket y (delete_all_routes_from_interface a n)

  close_other_socket-left : close_other_socket w a left ≡ close_socket x left
  unfolding left close_other_socket close_socket delete_all_routes_from_interface emit
      find_subnet_broadcast_socket_with_interface_address
  close_other_socket-left = ground (arith, there)

  left-Lingers : Lingers a x y n (close_socket x left)
  unfolding left close_socket delete_all_routes_from_interface emit
      find_subnet_broadcast_socket_with_interface_address
  left-Lingers = (
    find-find_socket a x 0 n.socket_subnet_broadcast_addresses sorted there,
    ([], append_assoc n.trace (closes_socket y ∷ []) (closes_socket x ∷ [])),
  )

  Opened-Lingers :
      (iface s b : ℕ) (m : Node) → Opened iface s b (close_socket x left) m → Lingers a x y n m
  unfolding left close_socket delete_all_routes_from_interface emit
  Opened-Lingers iface s b m o =
      let (rest, longer) = o.trace in
      let (still, shorter) = left-Lingers in
      (
        rw o.broadcast (
            ground
              (arith, still, find-insert x b iface 0 n.socket_subnet_broadcast_addresses sorted)),
        (
          rest,
          longer
              ∙ rw (append_assoc n.trace (closes_socket y ∷ []) (closes_socket x ∷ []))
                  (append_assoc n.trace (closes_socket y ∷ closes_socket x ∷ []) rest),
        ),
      )

  settle : Node → Node
  settle m = if has_no_sockets m then fall_silent m else m

  settled-Lingers : (m : Node) → Lingers a x y n m → Lingers a x y n (settle m)
  unfolding settle fall_silent
  settled-Lingers m l = elim (Bool-cases (has_no_sockets m)) [ inl e ↦ rw e l | inr e ↦ rw e l ]

  leave_address-settle :
      (i s b : ℕ) (m : Node)
      → leave_address w i a s b y n ≡ some m
      → let ns = w.ns in
        (settle (close_socket x left) ≡ m)
        ⊎ ((m' : Node) × (listen_on w i (ns.address (pos i)) true s b (close_socket x left)
              ≡ some m')
            × (settle m' ≡ m))
  unfolding leave_address settle left
  leave_address-settle i s b m h =
      let ns = w.ns in
      elim (Bool-cases (ns.n_addresses (pos i) == 0)) [
        | inl bare ↦ inl (ground (arith, bare, close_other_socket-left))
        | inr more ↦
            elim (Option-cases
              (listen_on w i (ns.address (pos i)) true s b (close_socket x left))) [
                | inl e ↦ ground (arith, more, e, close_other_socket-left)
                | inr (m', e) ↦ inr (m', e, ground (arith, more, e, close_other_socket-left))
              ]
      ]

  leave_address-Lingers :
      (i s b : ℕ) (m : Node) → leave_address w i a s b y n ≡ some m → Lingers a x y n m
  unfolding settle
  leave_address-Lingers i s b m h = elim (leave_address-settle i s b m h) [
    | inl end ↦ rw (← end) (settled-Lingers (close_socket x left) left-Lingers)
    | inr (m', opened, end) ↦
        rw (← end) (
          settled-Lingers m'
            (Opened-Lingers _ s b m' (listen_on-Opened w i _ true s b _ m' opened)))
  ]

-- `NotifyRemoveAddress` with an address that both maps have a socket for closes first the one and
-- then the other; and the second, the one for the broadcasts of the subnet, stays in its map, under
-- the address.
pub notify_remove_address_lem :
    (w : World) (i a s b x y : ℕ) (n m : Node)
    → IsSorted n.socket_subnet_broadcast_addresses
    → find_subnet_broadcast_socket_with_interface_address a n ≡ some x
    → find_socket_with_interface_address a n ≡ some y
    → notify_remove_address w i a s b n ≡ some m
    → Lingers a x y n m
unfolding notify_remove_address
notify_remove_address_lem w i a s b x y n m sorted there found h =
    leave_address-Lingers w a x y n sorted there i s b m (ground (arith, found))
