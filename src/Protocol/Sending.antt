-- ===== src/Protocol/Sending.antt =====
-- Sending a route error leaves the table as it is, but for purges.
use madaodv_ns.Base.{ℕ, Option, none, some, List, [], ◌∷◌, ◌==◌, Option-cases, Bool-cases, inl, inr}
use madaodv_ns.Map.{Map}
use madaodv_ns.Entry.{Entry}
use madaodv_ns.RoutingTable.{RoutingTable, purge}
use madaodv_ns.RoutingTable.Spec.{lookup_route-purge, lookup_valid_route-purge}
use madaodv_ns.RequestQueue.{RequestQueue}
use madaodv_ns.Headers.{RerrHeader}
use madaodv_ns.Headers
use madaodv_ns.Protocol.{
  World, Node, Message, lookup_route, lookup_valid_route, send_later, emit, blank,
  find_socket_with_interface_address,
}
use madaodv_ns.Protocol.Rerr.{
  collect_ifaces, broadcast_rerr, unicast_rerr, multicast_rerr, send_to_precursors, suppress_rerr,
  send_rerr_message, fill_rerr, send_if_any,
}

-- The result is a node whose table and queue have the property, if there is one.
abbrev pub Keeps : (RoutingTable → RequestQueue → Type 0) → Option Node → Type 0
Keeps P none = Unit
Keeps P (some n) = P n.table n.queue

abbrev pub KeepsFilled :
    (RoutingTable → RequestQueue → Type 0) → Option (RerrHeader × List ℕ × Node) → Type 0
KeepsFilled P none = Unit
KeepsFilled P (some (h, precursors, n)) = P n.table n.queue

-- Sending a route error does nothing to the table but purge it: what a purge keeps stays.
module _ (w : World) (P : RoutingTable → RequestQueue → Type 0)
    (keep : (t : RoutingTable) (q : RequestQueue) → P t q → P (purge w.now t) q) where
  open w use {ns, now}

  pub lookup-keeps :
      (id : ℕ) (rt : Entry) (n : Node)
      → P n.table n.queue
      → (let m = (lookup_route w id rt n).0 in P m.table m.queue)
  unfolding lookup_route
  lookup-keeps id rt n p = rw (lookup_route-purge now id rt n.table) (keep n.table n.queue p)

  lookup_valid-keeps :
      (id : ℕ) (rt : Entry) (n : Node)
      → P n.table n.queue
      → (let m = (lookup_valid_route w id rt n).0 in P m.table m.queue)
  unfolding lookup_valid_route
  lookup_valid-keeps id rt n p =
      rw (lookup_valid_route-purge now id rt n.table) (keep n.table n.queue p)

  collect_ifaces-keeps :
      (precursors ifaces : List ℕ) (n : Node)
      → P n.table n.queue
      → (let m = (collect_ifaces w precursors ifaces n).0 in P m.table m.queue)
  unfolding collect_ifaces
  collect_ifaces-keeps [] ifaces n p = p
  collect_ifaces-keeps (x ∷ precursors) ifaces n p =
      collect_ifaces-keeps precursors _ _ (lookup_valid-keeps x (blank w) n p)

  broadcast_rerr-Keeps :
      (m : Message) (ifaces : List ℕ) (n : Node)
      → P n.table n.queue
      → Keeps P (broadcast_rerr w m ifaces n)
  unfolding broadcast_rerr send_later emit
  broadcast_rerr-Keeps m [] n p = p
  broadcast_rerr-Keeps m (i ∷ ifaces) n p =
      elim (Option-cases (find_socket_with_interface_address i n)) [
        | inl e ↦ rw (broadcast_rerr, e) tt
        | inr (s, e) ↦ rw (broadcast_rerr, e) (broadcast_rerr-Keeps m ifaces _ p)
      ]

  unicast_rerr-Keeps :
      (m : Message) (x : ℕ) (n : Node) → P n.table n.queue → Keeps P (unicast_rerr w m x n)
  unfolding unicast_rerr send_later emit
  unicast_rerr-Keeps m x n p =
      let (n', ok, rt) = lookup_valid_route w x (blank w) n in
      let p' = lookup_valid-keeps x (blank w) n p in
      elim (Bool-cases ok) [
        | inr e ↦ rw (unicast_rerr, e) p'
        | inl e ↦ elim (Option-cases (find_socket_with_interface_address rt.iface n')) [
          | inl f ↦ rw (unicast_rerr, e, f) tt
          | inr (s, f) ↦ rw (unicast_rerr, e, f) p'
        ]
      ]

  send_to_precursors-Keeps :
      (m : Message) (xs : List ℕ) (n : Node)
      → P n.table n.queue
      → Keeps P (send_to_precursors w m xs n)
  unfolding send_to_precursors multicast_rerr
  send_to_precursors-Keeps m [] n p = p
  send_to_precursors-Keeps m (x ∷ []) n p = unicast_rerr-Keeps m x n p
  send_to_precursors-Keeps m (x ∷ y ∷ xs) n p =
      broadcast_rerr-Keeps m _ _ (collect_ifaces-keeps (x ∷ y ∷ xs) [] n p)

  suppress_rerr-Keeps : (n : Node) → P n.table n.queue → Keeps P (suppress_rerr w n)
  unfolding suppress_rerr
  suppress_rerr-Keeps n p = elim (Option-cases n.rerr_rate_limit_timer) [
    | inl e ↦ rw (e, suppress_rerr) tt
    | inr (t, e) ↦ rw (e, suppress_rerr) p
  ]

  send_rerr_message-Keeps :
      (h : RerrHeader) (xs : List ℕ) (n : Node)
      → P n.table n.queue
      → Keeps P (send_rerr_message w h xs n)
  unfolding send_rerr_message
  send_rerr_message-Keeps h [] n p = p
  send_rerr_message-Keeps h (x ∷ xs) n p =
      let c = n.config in
      elim (Bool-cases (n.rerr_count == c.rerr_rate_limit)) [
        | inl e ↦ rw (send_rerr_message, e) (suppress_rerr-Keeps n p)
        | inr e ↦ rw (send_rerr_message, e) (send_to_precursors-Keeps _ (x ∷ xs) n p)
      ]

  pub fill_rerr-KeepsFilled :
      (m : Map ℕ) (h : RerrHeader) (xs : List ℕ) (n : Node)
      → P n.table n.queue
      → KeepsFilled P (fill_rerr w m h xs n)
  unfolding fill_rerr
  fill_rerr-KeepsFilled [] h xs n p = p
  fill_rerr-KeepsFilled ((a, s) ∷ m) h xs n p =
      elim (Option-cases (Headers.add_un_destination a s h)) [
        | inl e ↦ rw (fill_rerr, e) tt
        | inr (h', e) ↦
            rw (fill_rerr, e) (fill_rerr-KeepsFilled m h' _ _ (lookup-keeps a (blank w) n p))
      ]

  pub send_if_any-Keeps :
      (h : RerrHeader) (xs : List ℕ) (n : Node) → P n.table n.queue → Keeps P (send_if_any w h xs n)
  unfolding send_if_any
  send_if_any-Keeps h xs n p = elim (Bool-cases (Headers.get_dest_count h == 0)) [
    | inl e ↦ rw (e, send_if_any) p
    | inr e ↦ rw (e, send_if_any) (send_rerr_message-Keeps h xs n p)
  ]
