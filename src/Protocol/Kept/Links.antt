-- ===== src/Protocol/Kept/Links.antt =====
-- Set-up, and the handlers of interfaces and addresses.
use madaodv_ns.Base.{ℕ, Bool, true, false, some, ◌==◌, ◌&&◌, if◌then◌else◌}
use madaodv_ns.Int.{pos}
use madaodv_ns.RoutingTable.Spec.{clears, drops_interface, apply}
use madaodv_ns.Protocol.{
  find_socket_with_interface_address, World, Node, Action, emit,
  find_subnet_broadcast_socket_with_interface_address,
}
use madaodv_ns.Protocol.Interfaces.{
  close_socket, close_broadcast_socket, fall_silent, delete_all_routes_from_interface, open_socket,
  open_broadcast_socket, add_broadcast_route, listen_on, use_arp_cache, watch_losses,
  notify_interface_up, ignore_losses, notify_interface_down, adopt_address, notify_add_address,
  close_other_socket, leave_address, notify_remove_address,
}
use madaodv_ns.Protocol.RouteOutput.{has_no_sockets}
use madaodv_ns.Protocol.Setup.{set_ipv4}
use madaodv_ns.Protocol.After.{After, fails, gives, bind-After, any-After, if-both, elim-both}
use madaodv_ns.Protocol.Kept.{Law, Kept, add_route-Kept}

module _ (w : World) (l : Law) where
  open w use {ns, now}

  emitted : (a : Action) (n : Node) → Kept l n → Kept l (emit a n)
  unfolding emit
  emitted a n p = record { holds = p.holds }

  close_socket-Kept : (s : ℕ) (n : Node) → Kept l n → Kept l (close_socket s n)
  unfolding close_socket emit
  close_socket-Kept s n p = record { holds = p.holds }

  close_broadcast_socket-Kept : (s : ℕ) (n : Node) → Kept l n → Kept l (close_broadcast_socket s n)
  unfolding close_broadcast_socket emit
  close_broadcast_socket-Kept s n p = record { holds = p.holds }

  fall_silent-Kept : (n : Node) → Kept l n → Kept l (fall_silent n)
  unfolding fall_silent apply
  fall_silent-Kept n p = record { holds = l.kept clears n.table n.queue p.holds }

  delete_all_routes_from_interface-Kept :
      (i : ℕ) (n : Node) → Kept l n → Kept l (delete_all_routes_from_interface i n)
  unfolding delete_all_routes_from_interface apply
  delete_all_routes_from_interface-Kept i n p = record {
    holds = l.kept (drops_interface i) n.table n.queue p.holds;
  }

  open_socket-Kept :
      (i iface : ℕ) (ttl : Bool) (s : ℕ) (n : Node)
      → Kept l n
      → After (Kept l) (open_socket w i iface ttl s n)
  unfolding open_socket emit
  open_socket-Kept i iface ttl s n p =
      if-both (After (Kept l)) (s == 0) fails (gives (record { holds = p.holds }))

  open_broadcast_socket-Kept :
      (i iface s : ℕ) (n : Node) → Kept l n → After (Kept l) (open_broadcast_socket w i iface s n)
  unfolding open_broadcast_socket emit
  open_broadcast_socket-Kept i iface s n p =
      if-both (After (Kept l)) (s == 0) fails (gives (record { holds = p.holds }))

  listen_on-Kept :
      (i iface : ℕ) (ttl : Bool) (s b : ℕ) (n : Node)
      → Kept l n
      → After (Kept l) (listen_on w i iface ttl s b n)
  unfolding listen_on add_broadcast_route
  listen_on-Kept i iface ttl s b n p =
      bind-After (Kept l) (Kept l) _ _ (open_socket-Kept i iface ttl s n p) (λ n1 p1.
        bind-After (Kept l) (Kept l) _ _ (open_broadcast_socket-Kept i iface b n1 p1)
          (λ n2 p2. gives (add_route-Kept w l _ n2 p2)))

  use_arp_cache-Kept : (i : ℕ) (n : Node) → Kept l n → Kept l (use_arp_cache w i n)
  unfolding use_arp_cache
  use_arp_cache-Kept i n p =
      if-both (Kept l) (ns.arp_cache (pos i) == 0) p (record { holds = p.holds })

  watch_losses-Kept : (dev : ℕ) (n : Node) → Kept l n → Kept l (watch_losses w dev n)
  unfolding watch_losses emit
  watch_losses-Kept dev n p =
      if-both (Kept l) (ns.has_wifi dev && ns.has_mac dev) (record { holds = p.holds }) p

  pub notify_interface_up-Kept :
      (i s b : ℕ) (n : Node) → Kept l n → After (Kept l) (notify_interface_up w i s b n)
  unfolding notify_interface_up
  notify_interface_up-Kept i s b n p = if-both (After (Kept l)) _ (gives p) (
      bind-After (Kept l) (Kept l) _ _ (listen_on-Kept i _ true s b n p)
        (λ n' q. gives (watch_losses-Kept _ _ (use_arp_cache-Kept i n' q))))

  ignore_losses-Kept : (i : ℕ) (n : Node) → Kept l n → After (Kept l) (ignore_losses w i n)
  unfolding ignore_losses emit
  ignore_losses-Kept i n p =
      let dev = ns.net_device (pos i) in
      if-both (After (Kept l)) _ (gives p) (
        if-both (After (Kept l)) _ fails (
          if-both (After (Kept l)) (ns.has_adhoc_mac dev) (gives (record { holds = p.holds }))
            (gives p)))

  pub notify_interface_down-Kept :
      (i : ℕ) (n : Node) → Kept l n → After (Kept l) (notify_interface_down w i n)
  unfolding notify_interface_down
  notify_interface_down-Kept i n p =
      let iface = ns.address (pos i) in
      bind-After (Kept l) (Kept l) _ _ (ignore_losses-Kept i n p) (λ n1 p1.
        bind-After (λ s. Unit) (Kept l) (find_socket_with_interface_address iface n1) _
          (any-After _)
          (λ s q.
            let p2 = close_socket-Kept s n1 p1 in
            bind-After (λ b. Unit) (Kept l)
              (find_subnet_broadcast_socket_with_interface_address iface (close_socket s n1)) _
              (any-After _)
              (λ b q'.
                let p3 = close_broadcast_socket-Kept b _ p2 in
                gives (
                  if-both (Kept l) _ (fall_silent-Kept _ p3)
                    (delete_all_routes_from_interface-Kept iface _ p3)))))

  pub notify_add_address-Kept :
      (i s b : ℕ) (n : Node) → Kept l n → After (Kept l) (notify_add_address w i s b n)
  unfolding notify_add_address adopt_address
  notify_add_address-Kept i s b n p =
      if-both (After (Kept l)) _
        (elim-both (After (Kept l)) _
          (if-both (After (Kept l)) _ (gives p) (listen_on-Kept i _ false s b n p)) (λ x. gives p))
        (gives p)

  close_other_socket-Kept : (a : ℕ) (n : Node) → Kept l n → Kept l (close_other_socket w a n)
  unfolding close_other_socket
  close_other_socket-Kept a n p = elim-both (Kept l) _ p (λ s. close_socket-Kept s n p)

  leave_address-Kept :
      (i a s b x : ℕ) (n : Node) → Kept l n → After (Kept l) (leave_address w i a s b x n)
  unfolding leave_address
  leave_address-Kept i a s b x n p =
      let p1 = close_socket-Kept x _ (delete_all_routes_from_interface-Kept a n p) in
      let p2 = close_other_socket-Kept a _ p1 in
      bind-After (Kept l) (Kept l)
        (if ns.n_addresses (pos i) == 0
          then some _
          else listen_on w i (ns.address (pos i)) true s b _)
        _ (if-both (After (Kept l)) _ (gives p2) (listen_on-Kept i _ true s b _ p2))
        (λ n3 p3. gives (if-both (Kept l) (has_no_sockets n3) (fall_silent-Kept n3 p3) p3))

  pub notify_remove_address-Kept :
      (i a s b : ℕ) (n : Node) → Kept l n → After (Kept l) (notify_remove_address w i a s b n)
  unfolding notify_remove_address
  notify_remove_address-Kept i a s b n p =
      elim-both (After (Kept l)) _ (gives p) (λ x. leave_address-Kept i a s b x n p)

  pub set_ipv4-Kept : (n : Node) → Kept l n → After (Kept l) (set_ipv4 w n)
  unfolding set_ipv4
  set_ipv4-Kept n p = if-both (After (Kept l)) _ fails (
      if-both (After (Kept l)) _
        (gives (emitted _ _ (add_route-Kept w l _ _ (record { holds = p.holds })))) fails)
