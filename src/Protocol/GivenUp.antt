-- ===== src/Protocol/GivenUp.antt =====
-- The end of a search without a route: what `RouteRequestTimerExpire` does when it gives up.
use madaodv_ns.Base.{ℕ, ◌≡◌, false, none, ◌++◌, map, reject, select, ◌==◌}
use madaodv_ns.Int.{ℤ}
use madaodv_ns.Map.{find}
use madaodv_ns.RoutingTable
use madaodv_ns.RoutingTable.{RoutingTable, purge}
use madaodv_ns.RoutingTable.Agrees.{Agrees}
use madaodv_ns.RequestQueue.{has_dst, is_expired}
use madaodv_ns.RequestQueue
use madaodv_ns.Protocol.{Node, fails}

-- The node `m` is `n` after the search for `dst` is given up.
pub record IsGivenUp (now : ℤ) (dst : ℕ) (n m : Node) : Type 0 where
  pub queued :
      (let q = n.queue in
        let q' = m.queue in q'.queue ≡ reject (has_dst dst) (reject (is_expired now) q.queue))
  pub failed :
      (let q = n.queue in
        m.trace
        ≡ n.trace
          ++ map fails (
              select (is_expired now) q.queue
              ++ select (has_dst dst) (reject (is_expired now) q.queue)))
  pub no_route : (let t = m.table in find dst t.entries ≡ none)
  pub others : Agrees dst (purge now (purge now n.table)) m.table
  pub no_timer : find dst m.address_req_timer ≡ none
  pub other_timers :
      (k : ℕ) → (k == dst) ≡ false → find k m.address_req_timer ≡ find k n.address_req_timer
