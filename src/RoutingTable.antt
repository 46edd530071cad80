-- ===== src/RoutingTable.antt =====
-- `RoutingTable` of model/madaodv-rtable.h and model/madaodv-rtable.cc. An output parameter is
-- passed in and comes back; a method returns the new table, and then its result.
pub mod Spec
pub mod Invariant
pub mod Lookup
pub mod Unreachable
pub mod Stays
pub mod Agrees
use madaodv_ns.Base.{ℕ, Bool, true, false, Option, none, some, [], ◌∷◌, ◌==◌, if◌then◌else◌, ◌&&◌}
use madaodv_ns.Int.{ℤ}
use madaodv_ns.Map.{Map, find, insert, write, erase, filter_map}
use madaodv_ns.Entry.{
  Entry, RouteFlags, valid, invalid, in_search, flag_eq, get_destination, get_next_hop, set_flag,
  set_rreq_cnt, set_unidirectional, set_blacklist_timeout, invalidate, is_outdated,
}

pub record RoutingTable : Type 0 where
  pub entries : Map Entry
  pub bad_link_lifetime : ℤ

unfoldable pub empty_table : ℤ → RoutingTable
empty_table t = record { entries = []; bad_link_lifetime = t }

-- The body of the loop of `Purge`, on an entry.
unfoldable pub purge_entry : ℤ → ℤ → ℕ → Entry → Option Entry
purge_entry now bad k e =
    if is_outdated now e
    then (if flag_eq e.flag invalid
        then none
        else if flag_eq e.flag valid
        then some (invalidate now bad e)
        else some e)
    else some e

-- `Purge` of a map of entries, for the table itself and for the copy that `Print` makes.
unfoldable pub purge_entries : ℤ → ℤ → Map Entry → Map Entry
purge_entries now bad = filter_map (purge_entry now bad)

unfoldable pub purge : ℤ → RoutingTable → RoutingTable
purge now t = record t { entries = purge_entries now t.bad_link_lifetime t.entries }

-- What a lookup makes of the result of `find`: the table, the result, and `rt`.
unfoldable pub found : RoutingTable → Entry → Option Entry → RoutingTable × Bool × Entry
found t rt none = (t, false, rt)
found t rt (some e) = (t, true, e)

unfoldable pub lookup_route : ℤ → ℕ → Entry → RoutingTable → RoutingTable × Bool × Entry
lookup_route now id rt t = let t' = purge now t in found t' rt (find id t'.entries)

unfoldable pub lookup_valid_route : ℤ → ℕ → Entry → RoutingTable → RoutingTable × Bool × Entry
lookup_valid_route now id rt t =
    let (t', ok, rt') = lookup_route now id rt t in
    if ok then (t', flag_eq rt'.flag valid, rt') else (t', false, rt')

unfoldable pub delete_route : ℤ → ℕ → RoutingTable → RoutingTable × Bool
delete_route now dst t =
    let t' = purge now t in
    elim (find dst t'.entries) [
      | none ↦ (t', false)
      | some _ ↦ (record t' { entries = erase dst t'.entries }, true)
    ]

-- An entry that is not in search starts with no request counted.
unfoldable pub reset_unless_in_search : Entry → Entry
reset_unless_in_search e = if flag_eq e.flag in_search then e else set_rreq_cnt 0 e

-- The caller's `rt` is changed too, and no caller reads it afterwards.
unfoldable pub add_route : ℤ → Entry → RoutingTable → RoutingTable × Bool
add_route now rt t =
    let t' = purge now t in
    let rt' = reset_unless_in_search rt in
    (
      record t' { entries = insert (get_destination rt') rt' t'.entries },
      elim (find (get_destination rt') t'.entries) [ none ↦ true | some _ ↦ false ],
    )

unfoldable pub update : Entry → RoutingTable → RoutingTable × Bool
update rt t = elim (find (get_destination rt) t.entries) [
  | none ↦ (t, false)
  | some _ ↦ (
    record t { entries = write (get_destination rt) (reset_unless_in_search rt) t.entries },
    true,
  )
]

unfoldable pub set_entry_state : ℕ → RouteFlags → RoutingTable → RoutingTable × Bool
set_entry_state id state t = elim (find id t.entries) [
  | none ↦ (t, false)
  | some e ↦ (record t { entries = write id (set_rreq_cnt 0 (set_flag state e)) t.entries }, true)
]

-- The loop of `GetListOfDestinationWithNextHop`, with the map that it fills.
unfoldable pub collect_next_hop : ℕ → Map Entry → Map ℕ → Map ℕ
collect_next_hop next_hop [] unreachable = unreachable
collect_next_hop next_hop ((k, e) ∷ m) unreachable =
    collect_next_hop next_hop m
      (if get_next_hop e == next_hop then insert k e.seq_no unreachable else unreachable)

unfoldable pub get_list_of_destination_with_next_hop : ℤ → ℕ → RoutingTable → RoutingTable × Map ℕ
get_list_of_destination_with_next_hop now next_hop t =
    let t' = purge now t in (t', collect_next_hop next_hop t'.entries [])

-- The inner loop of `InvalidateRoutesWithDst`, on the entry at `k`.
unfoldable pub invalidate_if_listed : ℤ → ℤ → Map ℕ → ℕ → Entry → Entry
invalidate_if_listed now bad [] k e = e
invalidate_if_listed now bad ((j, _) ∷ unreachable) k e =
    invalidate_if_listed now bad unreachable k
      (if (k == j) && flag_eq e.flag valid then invalidate now bad e else e)

unfoldable pub invalidate_routes_with_dst : ℤ → Map ℕ → RoutingTable → RoutingTable
invalidate_routes_with_dst now unreachable t =
    let t' = purge now t in
    record t' {
      entries =
          filter_map (λ k e. some (invalidate_if_listed now t.bad_link_lifetime unreachable k e))
            t'.entries;
    }

unfoldable pub delete_all_routes_from_interface : ℕ → RoutingTable → RoutingTable
delete_all_routes_from_interface iface t = record t {
  entries = filter_map (λ _ e. if e.iface == iface then none else some e) t.entries;
}

unfoldable pub clear : RoutingTable → RoutingTable
clear t = record t { entries = [] }

unfoldable pub mark_link_as_unidirectional : ℕ → ℤ → RoutingTable → RoutingTable × Bool
mark_link_as_unidirectional neighbor blacklist_timeout t = elim (find neighbor t.entries) [
  | none ↦ (t, false)
  | some e ↦ (
    record t {
      entries =
          write neighbor
            (set_rreq_cnt 0 (set_blacklist_timeout blacklist_timeout (set_unidirectional true e)))
            t.entries;
    },
    true,
  )
]
