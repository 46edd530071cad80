-- ===== src/Protocol/Lacks.antt =====
-- A table without an entry for a destination stays so where other routes are made.
use madaodv_ns.Base.{ℕ, ◌≡◌, false, none, ◌==◌, arith}
use madaodv_ns.Int.{ℤ}
use madaodv_ns.Map.{find}
use madaodv_ns.Map.Order.{find-insert, find-write}
use madaodv_ns.Entry.{Entry, get_destination}
use madaodv_ns.RoutingTable.{RoutingTable, purge, update, add_route, reset_unless_in_search}
use madaodv_ns.RoutingTable.Stays.{find-purge-none}
use madaodv_ns.RoutingTable.Invariant.{IsValid, purge-IsValid, update-IsValid, add_route-IsValid}

pub record Lacks (dst : ℕ) (t : RoutingTable) : Type 0 where
  pub table_valid : IsValid t
  pub absent : find dst t.entries ≡ none

pub purge-Lacks : (now : ℤ) (dst : ℕ) (t : RoutingTable) → Lacks dst t → Lacks dst (purge now t)
purge-Lacks now dst t l = record {
  table_valid = purge-IsValid now t l.table_valid;
  absent = find-purge-none now dst t l.table_valid l.absent;
}

pub update-Lacks :
    (dst : ℕ) (rt : Entry) (t : RoutingTable)
    → (dst == get_destination rt) ≡ false
    → Lacks dst t
    → Lacks dst (update rt t).0
unfolding update
update-Lacks dst rt t other l =
    let gone = l.absent in
    record {
      table_valid = update-IsValid rt t l.table_valid;
      absent = ground (
        arith,
        gone,
        other,
        find-write dst (get_destination rt) (reset_unless_in_search rt) t.entries,
      );
    }

reset-destination : (rt : Entry) → get_destination (reset_unless_in_search rt) ≡ get_destination rt
unfolding reset_unless_in_search
reset-destination rt = ground arith

pub add_route-Lacks :
    (now : ℤ) (dst : ℕ) (rt : Entry) (t : RoutingTable)
    → (dst == get_destination rt) ≡ false
    → Lacks dst t
    → Lacks dst (add_route now rt t).0
unfolding add_route
add_route-Lacks now dst rt t other l =
    let p = purge-Lacks now dst t l in
    let v = p.table_valid in
    let gone = p.absent in
    let new = reset_unless_in_search rt in
    record {
      table_valid = add_route-IsValid now rt t l.table_valid;
      absent = ground (
        arith,
        gone,
        other,
        reset-destination rt,
        find-insert dst (get_destination new) new 0 (purge now t).entries v.sorted,
      );
    }
