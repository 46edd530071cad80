-- ===== src/RoutingTable/Spec.antt =====
-- The table as its clients see it: a partial function from destinations to entries. Each method
-- of `RoutingTable` refines a few lines over that function.
use madaodv_ns.Base.{
  ℕ, ◌≡◌, refl, ap, true, Option, none, some, [], ◌∷◌, arith, ◌==◌, if◌then◌else◌, is_some, ◌&&◌,
  Option-cases, inl, inr,
}
use madaodv_ns.Int.{ℤ}
use madaodv_ns.Map.{Map, find, write, IsSorted}
use madaodv_ns.Map.Order.{
  find-insert, find-write, find-erase, find-filter_map, filter_map-SortedFrom,
}
use madaodv_ns.Entry.{
  Entry, RouteFlags, valid, flag_eq, get_destination, set_flag, set_rreq_cnt, set_unidirectional,
  set_blacklist_timeout, invalidate,
}
use madaodv_ns.RoutingTable.{
  RoutingTable, found, purge_entry, purge_entries, purge, lookup_route, lookup_valid_route,
  delete_route, add_route, update, reset_unless_in_search, set_entry_state,
  get_list_of_destination_with_next_hop, invalidate_if_listed, invalidate_routes_with_dst,
  delete_all_routes_from_interface, clear, mark_link_as_unidirectional,
}

-- The calls that may change the table.
pub data Call : Type 0 where
  purges : ℤ → Call
  looks_up looks_up_valid : ℤ → ℕ → Entry → Call
  deletes : ℤ → ℕ → Call
  adds : ℤ → Entry → Call
  updates : Entry → Call
  sets_state : ℕ → RouteFlags → Call
  lists : ℤ → ℕ → Call
  invalidates : ℤ → Map ℕ → Call
  drops_interface : ℕ → Call
  clears : Call
  marks : ℕ → ℤ → Call

unfoldable pub apply : Call → RoutingTable → RoutingTable
apply (purges now) t = purge now t
apply (looks_up now id rt) t = (lookup_route now id rt t).0
apply (looks_up_valid now id rt) t = (lookup_valid_route now id rt t).0
apply (deletes now dst) t = (delete_route now dst t).0
apply (adds now rt) t = (add_route now rt t).0
apply (updates rt) t = (update rt t).0
apply (sets_state id state) t = (set_entry_state id state t).0
apply (lists now next_hop) t = (get_list_of_destination_with_next_hop now next_hop t).0
apply (invalidates now unreachable) t = invalidate_routes_with_dst now unreachable t
apply (drops_interface iface) t = delete_all_routes_from_interface iface t
apply clears t = clear t
apply (marks neighbor timeout) t = (mark_link_as_unidirectional neighbor timeout t).0

abbrev pub View : Type 0
View = ℕ → Option Entry

abbrev pub view : RoutingTable → View
view t j = find j t.entries

-- The routes that are still there at the instant `now`.
abbrev pub live : ℤ → ℤ → View → View
live now bad s j = elim (s j) [ none ↦ none | some e ↦ purge_entry now bad j e ]

-- Change the entry at `k`, if there is one.
abbrev pub change : ℕ → (Entry → Entry) → View → View
change k f s j = if j == k then elim (s j) [ none ↦ none | some e ↦ some (f e) ] else s j

-- What each call makes of the partial function.
abbrev pub spec : ℤ → Call → View → View
spec bad (purges now) s j = live now bad s j
spec bad (looks_up now id rt) s j = live now bad s j
spec bad (looks_up_valid now id rt) s j = live now bad s j
spec bad (deletes now dst) s j = if j == dst then none else live now bad s j
spec bad (adds now rt) s j =
    if is_some (live now bad s (get_destination rt))
    then live now bad s j
    else if j == get_destination rt
    then some (reset_unless_in_search rt)
    else live now bad s j
spec bad (updates rt) s j = change (get_destination rt) (λ _. reset_unless_in_search rt) s j
spec bad (sets_state id state) s j = change id (λ e. set_rreq_cnt 0 (set_flag state e)) s j
spec bad (lists now next_hop) s j = live now bad s j
spec bad (invalidates now unreachable) s j = elim (live now bad s j) [
  | none ↦ none
  | some e ↦
      some
        (if is_some (find j unreachable) && flag_eq e.flag valid then invalidate now bad e else e)
]
spec bad (drops_interface iface) s j = elim (s j) [
  | none ↦ none
  | some e ↦ if e.iface == iface then none else some e
]
spec bad clears s j = none
spec bad (marks neighbor timeout) s j =
    change neighbor
      (λ e. set_rreq_cnt 0 (set_blacklist_timeout timeout (set_unidirectional true e))) s j

-- The loop over `unreachable` invalidates a valid entry exactly if its key is listed.
pub invalidate_if_listed_lem :
    (now bad : ℤ) (unreachable : Map ℕ) (k : ℕ) (e : Entry)
    → invalidate_if_listed now bad unreachable k e
      ≡ (if is_some (find k unreachable) && flag_eq e.flag valid then invalidate now bad e else e)
unfolding invalidate_if_listed find invalidate flag_eq
invalidate_if_listed_lem now bad [] k e = refl
invalidate_if_listed_lem now bad ((j, n) ∷ m) k e = ground (
  arith,
  invalidate_if_listed_lem now bad m k e,
  invalidate_if_listed_lem now bad m k (invalidate now bad e),
)

pub find-purge :
    (now : ℤ) (t : RoutingTable) (j : ℕ)
    → IsSorted t.entries
    → find j (purge now t).entries ≡ live now t.bad_link_lifetime (view t) j
unfolding purge purge_entries
find-purge now t j s = find-filter_map (purge_entry now t.bad_link_lifetime) j 0 t.entries s

pub purge-IsSorted :
    (now : ℤ) (t : RoutingTable) → IsSorted t.entries → IsSorted (purge now t).entries
unfolding purge purge_entries
purge-IsSorted now t s = filter_map-SortedFrom (purge_entry now t.bad_link_lifetime) 0 t.entries s

pub lookup_route-purge :
    (now : ℤ) (id : ℕ) (rt : Entry) (t : RoutingTable) → (lookup_route now id rt t).0 ≡ purge now t
unfolding lookup_route found
lookup_route-purge now id rt t = ground arith

pub lookup_valid_route-purge :
    (now : ℤ) (id : ℕ) (rt : Entry) (t : RoutingTable)
    → (lookup_valid_route now id rt t).0 ≡ purge now t
unfolding lookup_valid_route
lookup_valid_route-purge now id rt t = ground (arith, lookup_route-purge now id rt t)

view-change :
    (k : ℕ) (e v : Entry) (m : Map Entry) (j : ℕ)
    → find k m ≡ some e
    → find j (write k v m) ≡ (if j == k then some v else find j m)
view-change k e v m j h = ground (arith, find-write j k v m)

invalidate_listed :
    (now bad : ℤ) (unreachable : Map ℕ) (j : ℕ) (o : Option Entry)
    → elim o as (λ _. Option Entry) [
      | none ↦ none
      | some e ↦ some (invalidate_if_listed now bad unreachable j e)
    ]
      ≡ elim o [
        | none ↦ none
        | some e ↦ some (
            if is_some (find j unreachable) && flag_eq e.flag valid
            then invalidate now bad e
            else e)
      ]
invalidate_listed now bad unreachable j none = refl
invalidate_listed now bad unreachable j (some e) =
    ap some (invalidate_if_listed_lem now bad unreachable j e)

-- Every call changes a table whose keys rise as its specification changes the partial function from
-- destinations to entries.
pub apply_refines :
    (c : Call) (t : RoutingTable) (j : ℕ)
    → IsSorted t.entries
    → view (apply c t) j ≡ spec t.bad_link_lifetime c (view t) j
unfolding apply
apply_refines (purges now) t j s = find-purge now t j s
apply_refines (looks_up now id rt) t j s =
    rw (lookup_route-purge now id rt t) (find-purge now t j s)
apply_refines (looks_up_valid now id rt) t j s =
    rw (lookup_valid_route-purge now id rt t) (find-purge now t j s)
apply_refines (deletes now dst) t j s =
    unfold delete_route in
    ground (
      arith,
      find-purge now t j s,
      find-purge now t dst s,
      find-erase j dst 0 (purge now t).entries (purge-IsSorted now t s),
    )
apply_refines (adds now rt) t j s =
    unfold add_route reset_unless_in_search in
    ground (
      arith,
      find-purge now t j s,
      find-purge now t (get_destination rt) s,
      find-insert j (get_destination rt) (reset_unless_in_search rt) 0 (purge now t).entries
          (purge-IsSorted now t s),
    )
apply_refines (updates rt) t j s =
    unfold update in
    ground (arith, find-write j (get_destination rt) (reset_unless_in_search rt) t.entries)
apply_refines (sets_state id state) t j s =
    unfold set_entry_state in
    elim (Option-cases (find id t.entries)) [
      | inl missing ↦ ground arith
      | inr (e, at) ↦ ground (arith, find-write j id (set_rreq_cnt 0 (set_flag state e)) t.entries)
    ]
apply_refines (lists now next_hop) t j s =
    unfold get_list_of_destination_with_next_hop in find-purge now t j s
apply_refines (invalidates now unreachable) t j s =
    unfold invalidate_routes_with_dst in
    rw (find-filter_map _ j 0 (purge now t).entries (purge-IsSorted now t s), find-purge now t j s)
      (invalidate_listed now t.bad_link_lifetime unreachable j
        (live now t.bad_link_lifetime (view t) j))
apply_refines (drops_interface iface) t j s =
    unfold delete_all_routes_from_interface in
    find-filter_map (λ _ e. if e.iface == iface then none else some e) j 0 t.entries s
apply_refines clears t j s = unfold clear find in refl
apply_refines (marks neighbor timeout) t j s =
    unfold mark_link_as_unidirectional in
    elim (Option-cases (find neighbor t.entries)) [
      | inl missing ↦ ground arith
      | inr (e, at) ↦ ground (
        arith,
        find-write j neighbor
            (set_rreq_cnt 0 (set_blacklist_timeout timeout (set_unidirectional true e))) t.entries,
      )
    ]
