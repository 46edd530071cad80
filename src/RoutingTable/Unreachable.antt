-- ===== src/RoutingTable/Unreachable.antt =====
-- The two sides of a broken link: which routes are listed as unreachable, and which are made
-- invalid.
use madaodv_ns.Base.{ℕ, suc, ◌≡◌, none, some, [], ◌∷◌, arith, ◌==◌, if◌then◌else◌, is_some}
use madaodv_ns.Int.{ℤ}
use madaodv_ns.Map.{Map, find, insert, SortedFrom, IsSorted}
use madaodv_ns.Map.Order.{find_below, find-insert, insert-SortedFrom}
use madaodv_ns.Entry.{Entry, get_next_hop}
use madaodv_ns.RoutingTable.{
  RoutingTable, purge, collect_next_hop, get_list_of_destination_with_next_hop,
}
use madaodv_ns.RoutingTable.Spec.{purge-IsSorted}

collect_next_hop_lem :
    (next_hop : ℕ) (lo : ℕ) (m : Map Entry) (acc : Map ℕ) (j : ℕ)
    → SortedFrom lo m
    → IsSorted acc
    → IsSorted (collect_next_hop next_hop m acc)
      × (find j (collect_next_hop next_hop m acc) ≡ (
          if is_some (find j acc) then find j acc else elim (find j m) [
            | none ↦ none
            | some e ↦ if get_next_hop e == next_hop then some e.seq_no else none
          ]))
unfolding collect_next_hop find
collect_next_hop_lem next_hop lo [] acc j s a = ground arith
collect_next_hop_lem next_hop lo ((k, e) ∷ m) acc j s a = ground (
  arith,
  collect_next_hop_lem next_hop (suc k) m acc j s.1,
  collect_next_hop_lem next_hop (suc k) m (insert k e.seq_no acc) j s.1,
  find-insert j k e.seq_no 0 acc a,
  insert-SortedFrom k e.seq_no 0 acc,
  find_below j (suc k) m s.1,
)

pub list-IsSorted :
    (now : ℤ) (next_hop : ℕ) (t : RoutingTable)
    → IsSorted t.entries
    → IsSorted (get_list_of_destination_with_next_hop now next_hop t).1
unfolding get_list_of_destination_with_next_hop
list-IsSorted now next_hop t s =
    (collect_next_hop_lem next_hop 0 (purge now t).entries [] 0 (purge-IsSorted now t s) tt).0

-- Of a table whose keys rise the list holds exactly the destinations whose live entry goes through the next hop, each with
-- the sequence number of its entry.
pub get_list_of_destination_with_next_hop_lem :
    (now : ℤ) (next_hop j : ℕ) (t : RoutingTable)
    → IsSorted t.entries
    → find j (get_list_of_destination_with_next_hop now next_hop t).1
      ≡ elim (find j (purge now t).entries) [
        | none ↦ none
        | some e ↦ if get_next_hop e == next_hop then some e.seq_no else none
      ]
unfolding get_list_of_destination_with_next_hop
get_list_of_destination_with_next_hop_lem now next_hop j t s =
    unfold find in
    ground (
      arith,
      collect_next_hop_lem next_hop 0 (purge now t).entries [] j (purge-IsSorted now t s) tt,
    )
