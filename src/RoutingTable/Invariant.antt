-- ===== src/RoutingTable/Invariant.antt =====
-- What every call on the table keeps: the keys rise, and each entry stands under its destination.
use madaodv_ns.Base.{ℕ, ◌≡◌, refl, Option, some, [], ◌∷◌, arith, Option-cases, inl, inr}
use madaodv_ns.Int.{ℤ}
use madaodv_ns.Map.{Map, find, write, filter_map, IsSorted}
use madaodv_ns.Map.Order.{
  insert-SortedFrom, write-SortedFrom, erase-SortedFrom, filter_map-SortedFrom,
}
use madaodv_ns.Map.Every.{
  Every, insert-Every, write-Every, erase-Every, filter_map-Every, find-Every,
}
use madaodv_ns.Entry.{RouteFlags, Entry, get_destination, invalidate}
use madaodv_ns.RoutingTable.{
  RoutingTable, empty_table, purge_entry, purge_entries, purge, delete_route, add_route, update,
  reset_unless_in_search, set_entry_state, get_list_of_destination_with_next_hop,
  invalidate_if_listed, invalidate_routes_with_dst, delete_all_routes_from_interface, clear,
  mark_link_as_unidirectional,
}
use madaodv_ns.RoutingTable.Spec.{
  Call, purges, looks_up, looks_up_valid, deletes, adds, updates, sets_state, lists, invalidates,
  drops_interface, clears, marks, apply, lookup_route-purge, lookup_valid_route-purge,
}

abbrev pub IsAt : ℕ → Entry → Type 0
IsAt k e = get_destination e ≡ k

pub record IsValid (t : RoutingTable) : Type 0 where
  pub sorted : IsSorted t.entries
  pub keyed : Every IsAt t.entries

pub empty_table-IsValid : (d : ℤ) → IsValid (empty_table d)
unfolding empty_table
empty_table-IsValid d = record { sorted = tt; keyed = tt }

purge_entry-IsAt :
    (now bad : ℤ) (k : ℕ) (e e' : Entry) → IsAt k e → purge_entry now bad k e ≡ some e' → IsAt k e'
unfolding purge_entry invalidate
purge_entry-IsAt now bad k e e' h p = ground arith

pub purge-IsValid : (now : ℤ) (t : RoutingTable) → IsValid t → IsValid (purge now t)
unfolding purge purge_entries
purge-IsValid now t v = record {
  sorted = filter_map-SortedFrom (purge_entry now t.bad_link_lifetime) 0 t.entries v.sorted;
  keyed =
      filter_map-Every IsAt (purge_entry now t.bad_link_lifetime)
        (purge_entry-IsAt now t.bad_link_lifetime) t.entries v.keyed;
}

write-IsValid :
    (k : ℕ) (e : Entry) (t : RoutingTable)
    → IsAt k e
    → IsValid t
    → IsValid (record t { entries = write k e t.entries })
write-IsValid k e t at v = record {
  sorted = write-SortedFrom k e 0 t.entries v.sorted;
  keyed = write-Every IsAt k e t.entries at v.keyed;
}

filter_map-IsValid :
    (f : ℕ → Entry → Option Entry) (t : RoutingTable)
    → ((k : ℕ) (e e' : Entry) → IsAt k e → f k e ≡ some e' → IsAt k e')
    → IsValid t
    → IsValid (record t { entries = filter_map f t.entries })
filter_map-IsValid f t keep v = record {
  sorted = filter_map-SortedFrom f 0 t.entries v.sorted;
  keyed = filter_map-Every IsAt f keep t.entries v.keyed;
}

pub delete_route-IsValid :
    (now : ℤ) (dst : ℕ) (t : RoutingTable) → IsValid t → IsValid (delete_route now dst t).0
unfolding delete_route
delete_route-IsValid now dst t v =
    let w = purge-IsValid now t v in
    ground (
      arith,
      w,
      erase-SortedFrom dst 0 (purge now t).entries,
      erase-Every IsAt dst (purge now t).entries,
    )

pub add_route-IsValid :
    (now : ℤ) (rt : Entry) (t : RoutingTable) → IsValid t → IsValid (add_route now rt t).0
unfolding add_route reset_unless_in_search
add_route-IsValid now rt t v =
    let w = purge-IsValid now t v in
    let rt' = reset_unless_in_search rt in
    record {
      sorted =
          insert-SortedFrom (get_destination rt') rt' 0 (purge now t).entries (omega arith)
            w.sorted;
      keyed = insert-Every IsAt (get_destination rt') rt' (purge now t).entries refl w.keyed;
    }

reset_unless_in_search-IsAt : (rt : Entry) → IsAt (get_destination rt) (reset_unless_in_search rt)
unfolding reset_unless_in_search
reset_unless_in_search-IsAt rt = ground arith

pub update-IsValid : (rt : Entry) (t : RoutingTable) → IsValid t → IsValid (update rt t).0
unfolding update
update-IsValid rt t v = elim (Option-cases (find (get_destination rt) t.entries)) [
  | inl e ↦ rw (e, update) v
  | inr (old, e) ↦
      rw (e, update)
        (write-IsValid (get_destination rt) (reset_unless_in_search rt) t
          (reset_unless_in_search-IsAt rt) v)
]

invalidate_if_listed-destination :
    (now bad : ℤ) (unreachable : Map ℕ) (k : ℕ) (e : Entry)
    → get_destination (invalidate_if_listed now bad unreachable k e) ≡ get_destination e
unfolding invalidate_if_listed invalidate
invalidate_if_listed-destination now bad [] k e = refl
invalidate_if_listed-destination now bad ((j, n) ∷ m) k e = ground (
  arith,
  invalidate_if_listed-destination now bad m k e,
  invalidate_if_listed-destination now bad m k (invalidate now bad e),
)

pub set_entry_state-IsValid :
    (id : ℕ) (state : RouteFlags) (t : RoutingTable)
    → IsValid t
    → IsValid (set_entry_state id state t).0
unfolding set_entry_state
set_entry_state-IsValid id state t v = elim (Option-cases (find id t.entries)) [
  | inl e ↦ rw (e, set_entry_state) v
  | inr (old, e) ↦
      rw (e, set_entry_state) (write-IsValid id _ t (find-Every IsAt id old t.entries v.keyed e) v)
]

pub mark_link_as_unidirectional-IsValid :
    (neighbor : ℕ) (timeout : ℤ) (t : RoutingTable)
    → IsValid t
    → IsValid (mark_link_as_unidirectional neighbor timeout t).0
unfolding mark_link_as_unidirectional
mark_link_as_unidirectional-IsValid neighbor timeout t v =
    elim (Option-cases (find neighbor t.entries)) [
      | inl e ↦ rw (e, mark_link_as_unidirectional) v
      | inr (old, e) ↦
          rw (e, mark_link_as_unidirectional)
            (write-IsValid neighbor _ t (find-Every IsAt neighbor old t.entries v.keyed e) v)
    ]

-- No call stores an entry under another key than its destination, or breaks the order of the keys.
pub apply-IsValid : (c : Call) (t : RoutingTable) → IsValid t → IsValid (apply c t)
unfolding apply
apply-IsValid (purges now) t v = purge-IsValid now t v
apply-IsValid (looks_up now id rt) t v = rw (lookup_route-purge now id rt t) (purge-IsValid now t v)
apply-IsValid (looks_up_valid now id rt) t v =
    rw (lookup_valid_route-purge now id rt t) (purge-IsValid now t v)
apply-IsValid (deletes now dst) t v = delete_route-IsValid now dst t v
apply-IsValid (adds now rt) t v = add_route-IsValid now rt t v
apply-IsValid (updates rt) t v = update-IsValid rt t v
apply-IsValid (sets_state id state) t v = set_entry_state-IsValid id state t v
apply-IsValid (lists now next_hop) t v =
    unfold get_list_of_destination_with_next_hop in purge-IsValid now t v
apply-IsValid (invalidates now unreachable) t v =
    unfold invalidate_routes_with_dst in
    filter_map-IsValid _ (purge now t)
      (λ k e e' at p.
        ground (arith, invalidate_if_listed-destination now t.bad_link_lifetime unreachable k e))
      (purge-IsValid now t v)
apply-IsValid (drops_interface iface) t v =
    unfold delete_all_routes_from_interface in
    filter_map-IsValid _ t (λ k e e' at p. ground arith) v
apply-IsValid clears t v = unfold clear in record { sorted = tt; keyed = tt }
apply-IsValid (marks neighbor timeout) t v =
    mark_link_as_unidirectional-IsValid neighbor timeout t v
