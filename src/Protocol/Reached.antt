-- ===== src/Protocol/Reached.antt =====
-- What holds of the routing table in every state of a node.
use madaodv_ns.Base.{ℕ, ◌≡◌, refl, arith}
use madaodv_ns.Int.{ℤ, max_ℤ, ◌*ℤ◌}
use madaodv_ns.RoutingTable.{
  RoutingTable, empty_table, purge, delete_route, add_route, update, set_entry_state,
  get_list_of_destination_with_next_hop, invalidate_routes_with_dst,
  delete_all_routes_from_interface, clear, mark_link_as_unidirectional,
}
use madaodv_ns.RoutingTable.Spec.{
  Call, purges, looks_up, looks_up_valid, deletes, adds, updates, sets_state, lists, invalidates,
  drops_interface, clears, marks, apply, lookup_route-purge, lookup_valid_route-purge,
}
use madaodv_ns.RoutingTable.Invariant.{IsValid, empty_table-IsValid, apply-IsValid}
use madaodv_ns.Protocol.{Node}
use madaodv_ns.Protocol.Setup.{initial_config}
use madaodv_ns.Protocol.System.{Reach}
use madaodv_ns.Protocol.Kept.Events.{Reach-table}

-- In every state that a node comes to from its constructor, whatever happens to it and whenever,
-- the keys of its routing table rise and each entry stands under its destination.
pub Reach-IsValid :
    (seconds milli_seconds : ℕ → ℤ) (n : Node) → Reach seconds milli_seconds n → IsValid n.table
Reach-IsValid seconds milli_seconds n r =
    Reach-table IsValid apply-IsValid (empty_table-IsValid _) r

update-bad_link_lifetime :
    (c : Call) (t : RoutingTable) (d : ℤ)
    → t.bad_link_lifetime ≡ d
    → (apply c t).bad_link_lifetime ≡ d
unfolding apply purge delete_route add_route update set_entry_state
    get_list_of_destination_with_next_hop invalidate_routes_with_dst
    delete_all_routes_from_interface clear mark_link_as_unidirectional
update-bad_link_lifetime (purges now) t d e = e
update-bad_link_lifetime (looks_up now id rt) t d e = rw (lookup_route-purge now id rt t) e
update-bad_link_lifetime (looks_up_valid now id rt) t d e =
    rw (lookup_valid_route-purge now id rt t) e
update-bad_link_lifetime (deletes now dst) t d e = ground arith
update-bad_link_lifetime (adds now rt) t d e = e
update-bad_link_lifetime (updates rt) t d e = ground arith
update-bad_link_lifetime (sets_state id state) t d e = ground arith
update-bad_link_lifetime (lists now next_hop) t d e = e
update-bad_link_lifetime (invalidates now unreachable) t d e = e
update-bad_link_lifetime (drops_interface iface) t d e = e
update-bad_link_lifetime clears t d e = e
update-bad_link_lifetime (marks neighbor timeout) t d e = ground arith

-- In every state that a node comes to from its constructor, the routing table keeps its invalid
-- entries for the five times three seconds, or five HELLO intervals of one second if that is more,
-- that the constructor computes, whatever value the attribute DeletePeriod gets.
pub Reach-delete_period :
    (seconds milli_seconds : ℕ → ℤ) (n : Node)
    → Reach seconds milli_seconds n
    → n.table.bad_link_lifetime ≡ 5 *ℤ max_ℤ (seconds 30) (seconds 10)
unfolding initial_config empty_table
Reach-delete_period seconds milli_seconds n r =
    let d = 5 *ℤ max_ℤ (seconds 30) (seconds 10) in
    Reach-table (λ t. t.bad_link_lifetime ≡ d) (λ c t e. update-bad_link_lifetime c t d e) refl r
