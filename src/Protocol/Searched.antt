-- ===== src/Protocol/Searched.antt =====
-- The entry that `SendRequest` leaves in search, and what its steps keep.
use madaodv_ns.Base.{
  ◌⊎◌, ℕ, ◌<◌, ◌≤◌, ◌≡◌, refl, ◌∙◌, true, false, Option, none, some, [], ◌∷◌, is_some, arith,
  Option-cases, Bool-cases, inl, inr,
}
use madaodv_ns.Int.{ℤ}
use madaodv_ns.Map.{Map, find}
use madaodv_ns.Map.Order.{find-insert, find-write}
use madaodv_ns.Entry.{
  Entry, in_search, flag_eq, make_entry, get_destination, set_flag, set_hop, set_life_time,
}
use madaodv_ns.RoutingTable.{
  RoutingTable, found, purge, purge_entry, update, add_route, reset_unless_in_search,
}
use madaodv_ns.RoutingTable
use madaodv_ns.Map.Every.{find-Every}
use madaodv_ns.RoutingTable.Stays.{find-purge-none}
use madaodv_ns.RoutingTable.Invariant.{
  IsAt, IsValid, purge-IsValid, update-IsValid, add_route-IsValid,
}
use madaodv_ns.Headers.{RreqHeader}
use madaodv_ns.Protocol
use madaodv_ns.Protocol.{
  World, Config, Node, Action, Message, schedules_request, emit, send_later, assign, lookup_route,
  update_route, blank,
}
use madaodv_ns.Protocol.RreqRetry.{retry_delay}
use madaodv_ns.Protocol.Request.{
  next_ttl, count_if_full, searched_entry, search_route, broadcast_rreq,
}

-- The attributes that bound the ring are consistent.
pub record IsRing (c : Config) : Type 0 where
  pub diameter_u16 : c.net_diameter < 65536
  pub threshold_le : c.ttl_threshold ≤ c.net_diameter
  pub start_le : c.ttl_start ≤ c.net_diameter

pub next_ttl_le : (c : Config) (e : Entry) → IsRing c → next_ttl c e ≤ c.net_diameter
unfolding next_ttl
next_ttl_le c e r = let h = r.diameter_u16 in let k = r.threshold_le in ground arith

retry_delay-some :
    (c : Config) (e : Entry)
    → (e.hops < c.net_diameter) ⊎ ((0 < e.req_count) × (e.req_count ≤ 31))
    → is_some (retry_delay c e) ≡ true
unfolding retry_delay
retry_delay-some c e h = ground arith

-- An entry whose next TTL is the diameter has one more request counted.
searched-some :
    (c : Config) (e f : Entry) (ttl : ℕ)
    → ttl ≤ c.net_diameter
    → e.req_count < 31
    → f.hops ≡ ttl
    → f.req_count ≡ (count_if_full c ttl e).req_count
    → is_some (retry_delay c f) ≡ true
unfolding count_if_full
searched-some c e f ttl l k h r = retry_delay-some c f (ground arith)

-- What `search_route` leaves: a valid table with an entry in search whose retry can be scheduled.
pub record IsSearched (c : Config) (dst : ℕ) (t : RoutingTable) : Type 0 where
  pub table_valid : IsValid t
  pub entry : Entry
  pub at : find dst t.entries ≡ some entry
  pub searching : entry.flag ≡ in_search
  pub retries : is_some (retry_delay c entry) ≡ true

reset-in_search : (e : Entry) → e.flag ≡ in_search → reset_unless_in_search e ≡ e
unfolding reset_unless_in_search flag_eq
reset-in_search e h = rw h refl

update-IsSearched :
    (c : Config) (dst : ℕ) (t : RoutingTable) (old e : Entry)
    → IsValid t
    → get_destination e ≡ dst
    → find dst t.entries ≡ some old
    → e.flag ≡ in_search
    → is_some (retry_delay c e) ≡ true
    → IsSearched c dst (update e t).0
update-IsSearched c dst t old e v d at s r = record {
  table_valid = update-IsValid e t v;
  entry = e;
  at =
      unfold update in
      ground
        (arith, d, find-write dst dst (reset_unless_in_search e) t.entries, reset-in_search e s);
  searching = s;
  retries = r;
}

add_route-IsSearched :
    (c : Config) (now : ℤ) (dst : ℕ) (t : RoutingTable) (e : Entry)
    → IsValid t
    → get_destination e ≡ dst
    → find dst (purge now t).entries ≡ none
    → e.flag ≡ in_search
    → is_some (retry_delay c e) ≡ true
    → IsSearched c dst (add_route now e t).0
add_route-IsSearched c now dst t e v d at s r = record {
  table_valid = add_route-IsValid now e t v;
  entry = e;
  at =
      unfold add_route in
      rw (reset-in_search e s) (
        ground (
          arith,
          d,
          find-insert dst dst e 0 (purge now t).entries (IsValid.sorted (purge-IsValid now t v)),
        ));
  searching = s;
  retries = r;
}

count_if_full-destination :
    (c : Config) (ttl : ℕ) (e : Entry) → get_destination (count_if_full c ttl e) ≡ get_destination e
unfolding count_if_full
count_if_full-destination c ttl e = ground arith

count_if_full-hops : (c : Config) (ttl : ℕ) (e : Entry) → (count_if_full c ttl e).hops ≡ e.hops
unfolding count_if_full
count_if_full-hops c ttl e = ground arith

-- The entry for `dst` as the handlers see it, if there is one, has a count that a shift can take.
abbrev pub CountsBelow : ℤ → ℕ → ℕ → RoutingTable → Type 0
CountsBelow now limit dst t =
    (e : Entry) → find dst (purge now t).entries ≡ some e → e.req_count < limit

module _ (w : World) where
  open w use {ns, now}

  pub search_route-IsSearched :
      (dst : ℕ) (h : RreqHeader) (n : Node)
      → IsValid n.table
      → IsRing n.config
      → CountsBelow now 31 dst n.table
      → IsSearched n.config dst (search_route w dst h n).0.table
  unfolding search_route searched_entry lookup_route found update_route
  search_route-IsSearched dst h n v r few =
      let c = n.config in
      let w' = purge-IsValid now n.table v in
      unfold RoutingTable.lookup_route in
      elim (Option-cases (find dst (purge now n.table).entries)) [
        | inl gone ↦
            let base =
              make_entry ns now 0 dst false 0 ns.no_iface c.ttl_start ns.no_address
                c.path_discovery_time in
            let e = set_flag in_search (count_if_full c c.ttl_start base) in
            rw gone (
              unfold Protocol.add_route in
              add_route-IsSearched c now dst (purge now n.table) e w'
                (count_if_full-destination c c.ttl_start base ∙ unfold make_entry in refl)
                (find-purge-none now dst (purge now n.table) w' gone) refl
                (searched-some c base e c.ttl_start r.start_le (unfold make_entry in omega arith)
                  (count_if_full-hops c c.ttl_start base ∙ unfold make_entry in refl) refl))
        | inr (e, at) ↦
            let ttl = next_ttl c e in
            let counted = count_if_full c ttl e in
            rw at (
              update-IsSearched c dst (purge now n.table) e
                (set_life_time now c.path_discovery_time (set_flag in_search (set_hop ttl counted)))
                w'
                (count_if_full-destination c ttl e
                  ∙ find-Every IsAt dst e (purge now n.table).entries w'.keyed at)
                at refl (searched-some c e _ ttl (next_ttl_le c e r) (few e at) refl refl))
      ]

  -- Neither looking for the entry nor sending touches the rest of what a search depends on.
  pub search_route-keeps :
      (P : Config → ℕ → Map (Option ℤ) → Type 0) (dst : ℕ) (h : RreqHeader) (n : Node)
      → P n.config n.rreq_count n.address_req_timer
      → let n' = (search_route w dst h n).0 in P n'.config n'.rreq_count n'.address_req_timer
  unfolding search_route lookup_route update_route Protocol.add_route
  search_route-keeps P dst h n p =
      elim (Bool-cases (RoutingTable.lookup_route now dst (blank w) n.table).1) [
        | inl hit ↦ rw (hit, search_route) p
        | inr miss ↦ rw (miss, search_route) p
      ]

  pub broadcast_rreq-keeps :
      (P : Config → RoutingTable → ℕ → Map (Option ℤ) → Type 0) (ttl : ℕ) (h : RreqHeader)
      (sockets : Map ℕ) (n : Node)
      → P n.config n.table n.rreq_count n.address_req_timer
      → let n' = broadcast_rreq w ttl h sockets n in
        P n'.config n'.table n'.rreq_count n'.address_req_timer
  unfolding broadcast_rreq send_later emit
  broadcast_rreq-keeps P ttl h [] n p = p
  broadcast_rreq-keeps P ttl h ((socket, iface) ∷ sockets) n p =
      broadcast_rreq-keeps P ttl h sockets _ p
