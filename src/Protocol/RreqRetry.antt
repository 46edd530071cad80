-- ===== src/Protocol/RreqRetry.antt =====
-- `ScheduleRreqRetry`: when a route request is tried again.
use madaodv_ns.Base.{ℕ, ◌+◌, ◌-◌, ◌^◌, Option, none, some, if◌then◌else◌, ltb}
use madaodv_ns.Int.{ℤ, ◌+ℤ◌, ◌*ℤ◌}
use madaodv_ns.Entry.{Entry}
use madaodv_ns.Protocol.{World, Config, Node, lookup_route, blank, assign}

-- The delay for the entry. `none` if no request was counted at the full diameter, where the
-- program aborts, or if the shift `1 << backoffFactor` leaves the range of an `int`.
unfoldable pub retry_delay : Config → Entry → Option ℤ
retry_delay c rt =
    if ltb rt.hops c.net_diameter
    then some ((rt.hops + c.timeout_buffer) *ℤ (2 *ℤ c.node_traversal_time))
    else if ltb 0 rt.req_count
    then (if ltb (rt.req_count - 1) 31
        then some (2 ^ (rt.req_count - 1) *ℤ c.net_traversal_time)
        else none)
    else none

module _ (w : World) where
  open w use {now}

  -- The timer of `dst`, which is made if need be, is due after the delay.
  unfoldable pub schedule_rreq_retry : ℕ → Node → Option Node
  schedule_rreq_retry dst n =
      let (n', ok, rt) = lookup_route w dst (blank w) n in
      elim (retry_delay n.config rt) [
        | none ↦ none
        | some retry ↦ some (record n' {
          address_req_timer = assign dst (some (retry +ℤ now)) n'.address_req_timer;
        })
      ]
