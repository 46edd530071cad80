-- ===== src/RoutingTable/Agrees.antt =====
-- Tables that differ at one destination only.
use madaodv_ns.Base.{ℕ, ◌≡◌, false, ◌==◌, arith}
use madaodv_ns.Int.{ℤ}
use madaodv_ns.Map.{find}
use madaodv_ns.Map.Order.{find-write}
use madaodv_ns.Entry.{Entry, get_destination}
use madaodv_ns.RoutingTable.{RoutingTable, purge, update, reset_unless_in_search}
use madaodv_ns.RoutingTable.Spec.{find-purge}
use madaodv_ns.RoutingTable.Invariant.{IsValid}

-- Two tables have the same entries but for `dst`.
abbrev pub Agrees : ℕ → RoutingTable → RoutingTable → Type 0
Agrees dst t t' = (k : ℕ) → (k == dst) ≡ false → find k t'.entries ≡ find k t.entries

pub update-Agrees :
    (dst : ℕ) (new : Entry) (t : RoutingTable)
    → get_destination new ≡ dst
    → Agrees dst t (update new t).0 × ((update new t).0.bad_link_lifetime ≡ t.bad_link_lifetime)
unfolding update
update-Agrees dst new t d = (
  λ k other.
      ground (
        arith,
        d,
        other,
        find-write k (get_destination new) (reset_unless_in_search new) t.entries,
      ),
  ground arith,
)

pub purge-Agrees :
    (now : ℤ) (dst : ℕ) (t t' : RoutingTable)
    → IsValid t
    → IsValid t'
    → Agrees dst t t'
    → t'.bad_link_lifetime ≡ t.bad_link_lifetime
    → Agrees dst (purge now t) (purge now t')
purge-Agrees now dst t t' v v' a bad k other =
    let same = a k other in
    ground (arith, same, bad, find-purge now t k v.sorted, find-purge now t' k v'.sorted)
