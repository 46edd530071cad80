-- ===== src/Protocol/LeadsBack.antt =====
-- A route towards a node that stays where other routes are made and looked up.
use madaodv_ns.Base.{ℕ, ◌≡◌, refl, true, false, none, some, arith, Bool-cases, inl, inr, ◌==◌}
use madaodv_ns.Int.{ℤ}
use madaodv_ns.Map.{find}
use madaodv_ns.Map.Order.{find-write, find-insert}
use madaodv_ns.Map.Every.{find-Every}
use madaodv_ns.Entry.{Entry, is_outdated, get_destination, get_next_hop}
use madaodv_ns.RoutingTable.{
  RoutingTable, found, purge, purge_entry, update, add_route, reset_unless_in_search,
}
use madaodv_ns.RoutingTable
use madaodv_ns.RoutingTable.Spec.{find-purge}
use madaodv_ns.RoutingTable.Invariant.{
  IsValid, IsAt, purge-IsValid, update-IsValid, add_route-IsValid,
}
use madaodv_ns.Protocol.{World, Node, lookup_route}

-- The entry goes through the neighbor `src` and the interface `iface`, and has not expired.
pub record Leads (now : ℤ) (src iface : ℕ) (e : Entry) : Type 0 where
  pub next_hop : get_next_hop e ≡ src
  pub through : e.iface ≡ iface
  pub alive : is_outdated now e ≡ false

-- A well-formed table has such an entry for `origin`.
pub record LeadsBack (now : ℤ) (origin src iface : ℕ) (t : RoutingTable) : Type 0 where
  pub table_valid : IsValid t
  pub entry : Entry
  pub at : find origin t.entries ≡ some entry
  pub leads : Leads now src iface entry

reset-Leads :
    {now : ℤ} {src iface : ℕ} (e : Entry)
    → Leads now src iface e
    → Leads now src iface (reset_unless_in_search e)
unfolding reset_unless_in_search is_outdated
reset-Leads e l = record {
  next_hop = (let h = l.next_hop in ground arith);
  through = (let h = l.through in ground arith);
  alive = (let h = l.alive in ground arith);
}

pub LeadsBack-destination :
    {now : ℤ} {origin src iface : ℕ} {t : RoutingTable} (b : LeadsBack now origin src iface t)
    → get_destination b.entry ≡ origin
LeadsBack-destination {origin = origin} {t = t} b =
    let v = b.table_valid in find-Every IsAt origin b.entry t.entries v.keyed b.at

module _ (now : ℤ) (origin src iface : ℕ) where
  pub find-purge_alive :
      (t : RoutingTable) (b : LeadsBack now origin src iface t)
      → find origin (purge now t).entries ≡ some b.entry
  unfolding purge_entry
  find-purge_alive t b =
      let v = b.table_valid in
      let e = b.at in
      let l = b.leads in let alive = l.alive in ground (arith, find-purge now t origin v.sorted)

  pub purge-LeadsBack :
      (t : RoutingTable)
      → LeadsBack now origin src iface t
      → LeadsBack now origin src iface (purge now t)
  purge-LeadsBack t b = record {
    table_valid = purge-IsValid now t b.table_valid;
    entry = b.entry;
    at = find-purge_alive t b;
    leads = b.leads;
  }

  pub update-LeadsBack :
      (rt : Entry) (t : RoutingTable)
      → (get_destination rt ≡ origin → Leads now src iface rt)
      → LeadsBack now origin src iface t
      → LeadsBack now origin src iface (update rt t).0
  unfolding update
  update-LeadsBack rt t leads b =
      let at = b.at in
      let v = update-IsValid rt t b.table_valid in
      let new = reset_unless_in_search rt in
      elim (Bool-cases (get_destination rt == origin)) [
        | inl same ↦
            let here : get_destination rt ≡ origin = ground (arith, same) in
            record {
              table_valid = v;
              entry = new;
              at = ground (arith, at, here, find-write origin origin new t.entries);
              leads = reset-Leads rt (leads here);
            }
        | inr other ↦ record {
          table_valid = v;
          entry = b.entry;
          at = ground (arith, at, other, find-write origin (get_destination rt) new t.entries);
          leads = b.leads;
        }
      ]

  pub add_route-LeadsBack :
      (rt : Entry) (t : RoutingTable)
      → LeadsBack now origin src iface t
      → LeadsBack now origin src iface (add_route now rt t).0
  unfolding add_route
  add_route-LeadsBack rt t b =
      let v = purge-IsValid now t b.table_valid in
      let at = find-purge_alive t b in
      let new = reset_unless_in_search rt in
      record {
        table_valid = add_route-IsValid now rt t b.table_valid;
        entry = b.entry;
        at = ground (
          arith,
          at,
          find-insert origin (get_destination new) new 0 (purge now t).entries v.sorted,
        );
        leads = b.leads;
      }

pub lookup_route-found :
    (w : World) (id : ℕ) (rt e : Entry) (n : Node)
    → find id (purge w.now n.table).entries ≡ some e
    → lookup_route w id rt n ≡ (record n { table = purge w.now n.table }, true, e)
unfolding lookup_route RoutingTable.lookup_route found
lookup_route-found w id rt e n at = rw at refl

pub lookup_route-missed :
    (w : World) (id : ℕ) (rt : Entry) (n : Node)
    → find id (purge w.now n.table).entries ≡ none
    → lookup_route w id rt n ≡ (record n { table = purge w.now n.table }, false, rt)
unfolding lookup_route RoutingTable.lookup_route found
lookup_route-missed w id rt n gone = rw gone refl

-- A lookup of the origin finds the entry.
pub lookup_route-LeadsBack :
    (w : World) (origin src iface : ℕ) (rt : Entry) (n : Node)
    (b : LeadsBack w.now origin src iface n.table)
    → lookup_route w origin rt n ≡ (record n { table = purge w.now n.table }, true, b.entry)
lookup_route-LeadsBack w origin src iface rt n b =
    lookup_route-found w origin rt b.entry n (find-purge_alive w.now origin src iface n.table b)
