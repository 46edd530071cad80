-- ===== src/RoutingTable/Stays.antt =====
-- What a purge and a call of `AddRoute` or `Update` leave at a destination.
use madaodv_ns.Base.{ℕ, ◌≡◌, none, some, arith}
use madaodv_ns.Int.{ℤ}
use madaodv_ns.Map.{find}
use madaodv_ns.Map.Order.{find-insert, find-write}
use madaodv_ns.Entry.{Entry, in_search, flag_eq, get_destination}
use madaodv_ns.RoutingTable.{
  RoutingTable, purge, purge_entry, add_route, update, reset_unless_in_search,
}
use madaodv_ns.RoutingTable.Spec.{find-purge}
use madaodv_ns.RoutingTable.Invariant.{IsValid, purge-IsValid}

pub find-purge-none :
    (now : ℤ) (dst : ℕ) (t : RoutingTable)
    → IsValid t
    → find dst t.entries ≡ none
    → find dst (purge now t).entries ≡ none
find-purge-none now dst t v h = ground (arith, find-purge now t dst v.sorted)

pub find-purge-in_search :
    (now : ℤ) (dst : ℕ) (t : RoutingTable) (e : Entry)
    → IsValid t
    → find dst t.entries ≡ some e
    → e.flag ≡ in_search
    → find dst (purge now t).entries ≡ some e
find-purge-in_search now dst t e v h s =
    unfold purge_entry flag_eq in ground (arith, find-purge now t dst v.sorted)

pub find-update :
    (dst : ℕ) (new old : Entry) (t : RoutingTable)
    → get_destination new ≡ dst
    → reset_unless_in_search new ≡ new
    → find dst t.entries ≡ some old
    → find dst (update new t).0.entries ≡ some new
unfolding update
find-update dst new old t d r at =
    ground (arith, d, r, find-write dst dst (reset_unless_in_search new) t.entries)

pub find-add_route :
    (now : ℤ) (dst : ℕ) (new : Entry) (t : RoutingTable)
    → IsValid t
    → get_destination new ≡ dst
    → reset_unless_in_search new ≡ new
    → find dst (purge now t).entries ≡ none
    → find dst (add_route now new t).0.entries ≡ some new
unfolding add_route
find-add_route now dst new t v d r gone = rw r (
    ground (
      arith,
      d,
      find-insert dst dst new 0 (purge now t).entries (IsValid.sorted (purge-IsValid now t v)),
    ))
