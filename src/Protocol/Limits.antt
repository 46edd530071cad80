-- ===== src/Protocol/Limits.antt =====
-- What `SendRequest` promises: the rate limit, and the state of the search that it starts.
use madaodv_ns.Base.{
  ℕ, ◌+◌, ◌%◌, ◌≡◌, refl, ◌∙◌, some, ◌==◌, if◌then◌else◌, arith, Option-cases, Bool-cases, inl, inr,
}
use madaodv_ns.Int.{ℤ, pos, ◌+ℤ◌}
use madaodv_ns.Map
use madaodv_ns.Map.{Map, find, IsSorted}
use madaodv_ns.Map.Order.{find-insert, find-write}
use madaodv_ns.Entry.{Entry, in_search}
use madaodv_ns.RoutingTable.{
  RoutingTable, found, purge, purge_entry, update, add_route, reset_unless_in_search,
}
use madaodv_ns.RoutingTable
use madaodv_ns.RoutingTable.Stays.{find-purge-in_search}
use madaodv_ns.RoutingTable.Invariant.{IsValid}
use madaodv_ns.Protocol.{World, Node, schedules_request, emit, assign, lookup_route}
use madaodv_ns.Protocol.RreqRetry.{retry_delay, schedule_rreq_retry}
use madaodv_ns.Protocol.Request.{
  blank_rreq, search_route, originate_request, send_request, delay_left,
}
use madaodv_ns.Protocol.Searched.{
  IsRing, IsSearched, CountsBelow, search_route-IsSearched, search_route-keeps,
  broadcast_rreq-keeps,
}

-- A search for `dst` is on: its entry is in search, and a retry of the request is due.
pub record IsSearching (dst : ℕ) (n : Node) : Type 0 where
  pub entry : Entry
  pub at : find dst n.table.entries ≡ some entry
  pub searching : entry.flag ≡ in_search
  pub due : ℤ
  pub timer : find dst n.address_req_timer ≡ some (some due)

module _ (w : World) where
  open w use {ns, now}

  find-assign :
      {V : Type 0} (k : ℕ) (v : V) (m : Map V) → IsSorted m → find k (assign k v m) ≡ some v
  unfolding assign
  find-assign k v m s = ground (arith, find-write k k v (Map.insert k v m), find-insert k k v 0 m s)

  schedule_rreq_retry-IsSearching :
      (dst : ℕ) (n : Node)
      → IsSearched n.config dst n.table
      → IsSorted n.address_req_timer
      → (n' : Node) × (schedule_rreq_retry w dst n ≡ some n')
        × IsSearching dst n'
        × (n'.rreq_count ≡ n.rreq_count)
  unfolding schedule_rreq_retry lookup_route found
  schedule_rreq_retry-IsSearching dst n v s =
      let at = find-purge-in_search now dst n.table v.entry v.table_valid v.at v.searching in
      elim (Option-cases (retry_delay n.config v.entry)) [
        | inl e ↦ ground (arith, v.retries)
        | inr (d, e) ↦ (
          record n {
            table = purge now n.table;
            address_req_timer = assign dst (some (d +ℤ now)) n.address_req_timer;
          },
          unfold RoutingTable.lookup_route in ground (arith, at, e),
          record {
            entry = v.entry;
            at = at;
            searching = v.searching;
            due = d +ℤ now;
            timer = find-assign dst (some (d +ℤ now)) n.address_req_timer s;
          },
          refl,
        )
      ]

  originate_request-IsSearching :
      (dst : ℕ) (n : Node)
      → IsValid n.table
      → IsSorted n.address_req_timer
      → IsRing n.config
      → CountsBelow now 31 dst n.table
      → (n' : Node) × (originate_request w dst n ≡ some n')
        × IsSearching dst n'
        × (n'.rreq_count ≡ n.rreq_count)
  unfolding originate_request
  originate_request-IsSearching dst n v s r few =
      let c = n.config in
      let blank_header = blank_rreq ns in
      let h = record blank_header { dst = dst } in
      let searched =
        search_route-keeps w
          (λ c k m.
            IsSearched c dst (search_route w dst h n).0.table × IsSorted m × (k ≡ n.rreq_count))
          dst h n (search_route-IsSearched w dst h n v r few, s, refl) in
      let kept =
        broadcast_rreq-keeps w (λ c t k m. IsSearched c dst t × IsSorted m × (k ≡ n.rreq_count)) _ _
          _ _ searched in
      let (n', e, on, count) = schedule_rreq_retry-IsSearching dst _ kept.0 kept.1 in
      (n', e, on, count ∙ kept.2)

-- Under the rate limit SendRequest never fails, where the table is valid, the keys of the timers
-- rise, the attributes that bound the ring are consistent and the entry for the destination, if there is one, has counted less than 31 requests:
-- it counts the request, and afterwards the entry for the destination is in search and the timer of
-- its retry is due. At the limit it does not fail either, and only puts the request off.
pub send_request_lem :
    (w : World) (dst : ℕ) (n : Node)
    → IsValid n.table
    → IsSorted n.address_req_timer
    → IsRing n.config
    → CountsBelow w.now 31 dst n.table
    → let c = n.config in
      if n.rreq_count == c.rreq_rate_limit
      then send_request w dst n
        ≡ some (
            emit (schedules_request (delay_left w.now n.rreq_rate_limit_timer +ℤ pos 100000) dst) n)
      else ((n' : Node) × (send_request w dst n ≡ some n')
          × IsSearching dst n'
          × (n'.rreq_count ≡ (n.rreq_count + 1) % 65536))
unfolding send_request
send_request_lem w dst n v s r few =
    let c = n.config in
    elim (Bool-cases (n.rreq_count == c.rreq_rate_limit)) [
      | inl full ↦ rw (full, send_request) refl
      | inr free ↦
          rw (free, send_request)
            (originate_request-IsSearching w dst
              (record n { rreq_count = (n.rreq_count + 1) % 65536 }) v s r few)
    ]
