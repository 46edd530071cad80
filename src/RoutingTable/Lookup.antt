-- ===== src/RoutingTable/Lookup.antt =====
-- What the lookups and the purge promise of a well-formed table.
use madaodv_ns.Base.{
  ℕ, ◌≡◌, refl, true, false, Option, none, some, [], ◌∷◌, arith, Option-cases, inl, inr, ◌↔◌,
}
use madaodv_ns.Int.{ℤ, pos, ◌≤ℤ◌, ◌+ℤ◌, +ℤ_parts, -ℤ_parts}
use madaodv_ns.Map.{Map, find, filter_map, IsSorted}
use madaodv_ns.Entry.{
  Entry, RouteFlags, valid, invalid, in_search, flag_eq, is_outdated, invalidate,
}
use madaodv_ns.RoutingTable.{
  RoutingTable, found, purge_entry, purge_entries, purge, lookup_route, lookup_valid_route,
}
use madaodv_ns.RoutingTable.Spec.{find-purge}

pub flag_eq-valid : (f : RouteFlags) → flag_eq f valid ≡ true → f ≡ valid
unfolding flag_eq
flag_eq-valid valid h = refl
flag_eq-valid invalid h = cc
flag_eq-valid in_search h = cc

-- An expired entry that the purge leaves behind is never a valid one.
purge_entry-valid :
    (now bad : ℤ) (k : ℕ) (e e' : Entry)
    → purge_entry now bad k e ≡ some e'
    → e'.flag ≡ valid
    → (is_outdated now e ≡ false) × (e ≡ e')
unfolding purge_entry invalidate flag_eq
purge_entry-valid now bad k e e' p f = ground arith

purge_entry-fresh :
    (now bad : ℤ) (k : ℕ) (e : Entry) → is_outdated now e ≡ false → purge_entry now bad k e ≡ some e
unfolding purge_entry
purge_entry-fresh now bad k e h = rw h

pub valid_after_purge :
    (now : ℤ) (id : ℕ) (e : Entry) (t : RoutingTable)
    → IsSorted t.entries
    → find id (purge now t).entries ≡ some e
    → e.flag ≡ valid
    → (find id t.entries ≡ some e) × (is_outdated now e ≡ false)
valid_after_purge now id e t s h f = elim (Option-cases (find id t.entries)) [
  | inl missing ↦ ground (arith, find-purge now t id s)
  | inr (old, at) ↦
      ground (arith, find-purge now t id s, purge_entry-valid now t.bad_link_lifetime id old e)
]

valid_before_purge :
    (now : ℤ) (id : ℕ) (e : Entry) (t : RoutingTable)
    → IsSorted t.entries
    → find id t.entries ≡ some e
    → is_outdated now e ≡ false
    → find id (purge now t).entries ≡ some e
valid_before_purge now id e t s h f =
    ground (arith, find-purge now t id s, purge_entry-fresh now t.bad_link_lifetime id e f)

pub lookup_valid_route-found :
    (now : ℤ) (id : ℕ) (rt e : Entry) (t : RoutingTable)
    → (((lookup_valid_route now id rt t).1 ≡ true) × ((lookup_valid_route now id rt t).2 ≡ e))
      ↔ ((find id (purge now t).entries ≡ some e) × (e.flag ≡ valid))
unfolding lookup_valid_route lookup_route found flag_eq
lookup_valid_route-found now id rt e t = (λ h. ground arith, λ h. ground arith)

-- A lookup of a valid route in a table whose keys rise succeeds exactly if the table held a valid entry for the destination
-- whose lifetime is not over, and then it returns that entry unchanged.
lookup_valid_route_lem :
    (now : ℤ) (id : ℕ) (rt e : Entry) (t : RoutingTable)
    → IsSorted t.entries
    → (((lookup_valid_route now id rt t).1 ≡ true) × ((lookup_valid_route now id rt t).2 ≡ e))
      ↔ ((find id t.entries ≡ some e) × (e.flag ≡ valid) × (is_outdated now e ≡ false))
lookup_valid_route_lem now id rt e t s = (
  λ h.
      let (at, f) = (lookup_valid_route-found now id rt e t).0 h in
      let (before, fresh) = valid_after_purge now id e t s at f in (before, f, fresh),
  λ (at, f, fresh).
      (lookup_valid_route-found now id rt e t).1 (valid_before_purge now id e t s at fresh, f),
)

purge_entry_twice :
    (now bad : ℤ) (k : ℕ) (e : Entry)
    → pos 0 ≤ℤ bad
    → elim (purge_entry now bad k e) as (λ _. Option Entry) [
      | none ↦ none
      | some e' ↦ purge_entry now bad k e'
    ]
      ≡ purge_entry now bad k e
unfolding purge_entry invalidate flag_eq is_outdated
purge_entry_twice now bad k e h = ground (arith, +ℤ_parts bad now, -ℤ_parts (bad +ℤ now) now)

filter_map_twice :
    (f : ℕ → Entry → Option Entry)
    → ((k : ℕ) (e : Entry)
        → elim (f k e) as (λ _. Option Entry) [ none ↦ none | some e' ↦ f k e' ] ≡ f k e)
    → (m : Map Entry) → filter_map f (filter_map f m) ≡ filter_map f m
unfolding filter_map
filter_map_twice f twice [] = refl
filter_map_twice f twice ((k, e) ∷ m) = elim (Option-cases (f k e)) [
  | inl gone ↦ rw (gone, filter_map) (filter_map_twice f twice m)
  | inr (e', kept) ↦ ground (arith, filter_map_twice f twice m, twice k e)
]

-- Where the lifetime of a bad link is not negative, a second purge at the same instant changes
-- nothing: the entries that the first one invalidates are not outdated.
pub purge_twice :
    (now : ℤ) (t : RoutingTable)
    → pos 0 ≤ℤ t.bad_link_lifetime
    → purge now (purge now t) ≡ purge now t
unfolding purge purge_entries
purge_twice now t h = rw (
    filter_map_twice (purge_entry now t.bad_link_lifetime)
      (λ k e. purge_entry_twice now t.bad_link_lifetime k e h) t.entries)
