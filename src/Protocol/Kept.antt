-- ===== src/Protocol/Kept.antt =====
-- The calls on the routing table in the methods of the protocol, by any property of the table and
-- the queue that every call keeps. What the other methods do with them is in the modules below.
pub mod Discovery
pub mod Errors
pub mod Messages
pub mod Requests
pub mod Replies
pub mod Entries
pub mod DataPath
pub mod Links
pub mod Events
use madaodv_ns.Base.{ℕ, Bool}
use madaodv_ns.Int.{ℤ}
use madaodv_ns.Map.{Map}
use madaodv_ns.Entry.{Entry}
use madaodv_ns.RoutingTable.{RoutingTable}
use madaodv_ns.RequestQueue.{
  QueueEntry, RequestQueue, enqueue, dequeue, drop_packet_with_dst, set_max_queue_len,
  set_queue_timeout,
}
use madaodv_ns.RoutingTable.Spec.{
  Call, looks_up, looks_up_valid, deletes, adds, updates, invalidates, lists, apply,
}
use madaodv_ns.Protocol.{
  World, Node, lookup_route, lookup_valid_route, add_route, update_route, delete_route, blank,
}
use madaodv_ns.Protocol.Routes.{update_route_life_time, update_route_to_neighbor}
use madaodv_ns.Protocol.Rerr.{reached_through, invalidate_routes_with_dst}
use madaodv_ns.Protocol.After.{After, if-both}

-- A property of the table and the queue that no call on either breaks, where `SetMaxQueueLen` is
-- called with what the queue stands.
pub record Law : Type 1 where
  pub Holds : RoutingTable → RequestQueue → Type 0
  pub Stands : ℕ → RequestQueue → Type 0
  pub kept : (c : Call) (t : RoutingTable) (q : RequestQueue) → Holds t q → Holds (apply c t) q
  pub enqueues :
      (now : ℤ) (e : QueueEntry) (t : RoutingTable) (q : RequestQueue)
      → Holds t q
      → After (λ r. Holds t r.0) (enqueue now e q)
  pub dequeues :
      (now : ℤ) (dst : ℕ) (t : RoutingTable) (q : RequestQueue)
      → Holds t q
      → Holds t (dequeue now dst q).0
  pub drops :
      (now : ℤ) (dst : ℕ) (t : RoutingTable) (q : RequestQueue)
      → Holds t q
      → Holds t (drop_packet_with_dst now dst q).0
  pub resizes :
      (len : ℕ) (t : RoutingTable) (q : RequestQueue)
      → Stands len q
      → Holds t q
      → Holds t (set_max_queue_len len q)
  pub retimes :
      (d : ℤ) (t : RoutingTable) (q : RequestQueue) → Holds t q → Holds t (set_queue_timeout d q)

-- The table and the queue of the node have the property.
pub record Kept (l : Law) (n : Node) : Type 0 where
  pub holds : l.Holds n.table n.queue

module _ (w : World) (l : Law) where
  open w use {ns, now}

  pub lookup_route-Kept :
      (id : ℕ) (rt : Entry) (n : Node) → Kept l n → Kept l (lookup_route w id rt n).0
  unfolding lookup_route apply
  lookup_route-Kept id rt n p = record {
    holds = l.kept (looks_up now id rt) n.table n.queue p.holds;
  }

  pub lookup_valid_route-Kept :
      (id : ℕ) (rt : Entry) (n : Node) → Kept l n → Kept l (lookup_valid_route w id rt n).0
  unfolding lookup_valid_route apply
  lookup_valid_route-Kept id rt n p = record {
    holds = l.kept (looks_up_valid now id rt) n.table n.queue p.holds;
  }

  pub add_route-Kept : (rt : Entry) (n : Node) → Kept l n → Kept l (add_route w rt n)
  unfolding add_route apply
  add_route-Kept rt n p = record { holds = l.kept (adds now rt) n.table n.queue p.holds }

  pub delete_route-Kept : (dst : ℕ) (n : Node) → Kept l n → Kept l (delete_route w dst n)
  unfolding delete_route apply
  delete_route-Kept dst n p = record { holds = l.kept (deletes now dst) n.table n.queue p.holds }

  pub update_route-Kept : (rt : Entry) (n : Node) → Kept l n → Kept l (update_route rt n)
  unfolding update_route apply
  update_route-Kept rt n p = record { holds = l.kept (updates rt) n.table n.queue p.holds }

  pub reached_through-Kept : (a : ℕ) (n : Node) → Kept l n → Kept l (reached_through w a n).0
  unfolding reached_through apply
  reached_through-Kept a n p = record { holds = l.kept (lists now a) n.table n.queue p.holds }

  pub invalidate_routes_with_dst-Kept :
      (m : Map ℕ) (n : Node) → Kept l n → Kept l (invalidate_routes_with_dst w m n)
  unfolding invalidate_routes_with_dst apply
  invalidate_routes_with_dst-Kept m n p = record {
    holds = l.kept (invalidates now m) n.table n.queue p.holds;
  }

  pub update_route_life_time-Kept :
      (a : ℕ) (t : ℤ) (n : Node) → Kept l n → Kept l (update_route_life_time w a t n).0
  unfolding update_route_life_time
  update_route_life_time-Kept a t n p =
      let p' = lookup_route-Kept a (blank w) n p in
      if-both {A = Node × Bool} (λ r. Kept l r.0) _ (update_route-Kept _ _ p') p'

  pub update_route_to_neighbor-Kept :
      (a r : ℕ) (n : Node) → Kept l n → Kept l (update_route_to_neighbor w a r n)
  unfolding update_route_to_neighbor
  update_route_to_neighbor-Kept a r n p =
      let p' = lookup_route-Kept a (blank w) n p in
      if-both (Kept l) _ (if-both (Kept l) _ p' (update_route-Kept _ _ p')) (add_route-Kept _ _ p')
