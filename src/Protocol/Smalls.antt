-- ===== src/Protocol/Smalls.antt =====
-- The sequence numbers that `SendRequest` leaves in the table are those that were there, and 0.
use madaodv_ns.Base.{ℕ, ◌<◌, ◌≡◌, some, arith, Option-cases, inl, inr}
use madaodv_ns.Map.{find}
use madaodv_ns.Map.Every.{Every, find-Every, write-Every, insert-Every}
use madaodv_ns.Entry.{Entry, get_destination, make_entry}
use madaodv_ns.RoutingTable.{RoutingTable, purge, update, add_route, reset_unless_in_search}
use madaodv_ns.RoutingTable
use madaodv_ns.RoutingTable.Spec.{lookup_route-purge}
use madaodv_ns.Headers.{RreqHeader}
use madaodv_ns.Protocol
use madaodv_ns.Protocol.{World, Node, lookup_route, update_route, blank, emit}
use madaodv_ns.Protocol.RreqRetry.{schedule_rreq_retry}
use madaodv_ns.Protocol.Request.{
  blank_rreq, count_if_full, searched_entry, search_route, originate_request, send_request,
}
use madaodv_ns.Protocol.After.{After, fails, gives, After-given, if-both, elim-both}
use madaodv_ns.Protocol.Searched.{broadcast_rreq-keeps}
use madaodv_ns.Protocol.LeadsBack.{lookup_route-found, lookup_route-missed}
use madaodv_ns.Protocol.Heard.{IsSmall, purge-IsSmall}

update-IsSmall :
    (rt : Entry) (t : RoutingTable)
    → rt.seq_no < 2147483648
    → Every IsSmall t.entries
    → Every IsSmall (update rt t).0.entries
unfolding update reset_unless_in_search
update-IsSmall rt t h s = elim (Option-cases (find (get_destination rt) t.entries)) [
  | inl e ↦ rw (e, update) s
  | inr (old, e) ↦
      rw (e, update)
        (write-Every IsSmall (get_destination rt) (reset_unless_in_search rt) t.entries
          (ground (arith, h)) s)
]

module _ (w : World) where
  open w use {ns, now}

  add_route-IsSmall :
      (rt : Entry) (t : RoutingTable)
      → rt.seq_no < 2147483648
      → Every IsSmall t.entries
      → Every IsSmall (add_route now rt t).0.entries
  unfolding add_route reset_unless_in_search
  add_route-IsSmall rt t h s =
      insert-Every IsSmall (get_destination (reset_unless_in_search rt)) (reset_unless_in_search rt)
        (purge now t).entries (ground (arith, h)) (purge-IsSmall now t s)

  abbrev Smalls : Node → Type 0
  Smalls n = let t = n.table in Every IsSmall t.entries

  search_route-Smalls :
      (dst : ℕ) (h : RreqHeader) (n : Node)
      → Every IsSmall n.table.entries
      → Every IsSmall (search_route w dst h n).0.table.entries
  unfolding search_route
  search_route-Smalls dst h n s =
      let live = purge now n.table in
      let s' = purge-IsSmall now n.table s in
      elim (Option-cases (find dst live.entries)) [
        | inl gone ↦ rw (lookup_route-missed w dst (blank w) n gone) (
            unfold Protocol.add_route in
            add_route-IsSmall _ live (unfold count_if_full make_entry in ground arith) s')
        | inr (e, at) ↦ rw (lookup_route-found w dst (blank w) e n at) (
            unfold update_route in
            update-IsSmall _ live
              (let h' = find-Every IsSmall dst e live.entries s' at in
                unfold searched_entry count_if_full in ground arith)
              s')
      ]

  schedule_rreq_retry-Smalls :
      (dst : ℕ) (n : Node) → Smalls n → After Smalls (schedule_rreq_retry w dst n)
  unfolding schedule_rreq_retry lookup_route
  schedule_rreq_retry-Smalls dst n s =
      let p : Every IsSmall (RoutingTable.lookup_route now dst (blank w) n.table).0.entries =
        rw (lookup_route-purge now dst (blank w) n.table) (purge-IsSmall now n.table s) in
      elim-both (After Smalls) _ fails (λ t. gives p)

  originate_request-Smalls :
      (dst : ℕ) (n : Node) → Smalls n → After Smalls (originate_request w dst n)
  unfolding originate_request
  originate_request-Smalls dst n s =
      let blank_header = blank_rreq ns in
      schedule_rreq_retry-Smalls dst _ (
        broadcast_rreq-keeps w (λ c t k m. Every IsSmall t.entries) _ _ _ _
          (search_route-Smalls dst (record blank_header { dst = dst }) n s))

  pub send_request-Smalls :
      (dst : ℕ) (n n' : Node)
      → Every IsSmall n.table.entries
      → send_request w dst n ≡ some n'
      → Every IsSmall n'.table.entries
  unfolding send_request emit
  send_request-Smalls dst n n' s e =
      After-given Smalls _ n'
        (if-both (After Smalls) _ (gives s) (originate_request-Smalls dst _ s)) e
