-- ===== src/Neighbors.antt =====
-- `Neighbors` of model/madaodv-neighbor.h and model/madaodv-neighbor.cc. A method returns the new
-- state and the addresses for which it called the link failure callback, in this order; the
-- callback does not change the list of neighbors. `m_ntimer` is the instant at which it is due.
pub mod Liveness
pub mod Closing
use madaodv_ns.Base.{
  ℕ, Bool, true, false, not, Option, none, some, List, [], ◌∷◌, ◌++◌, map, ◌==◌, if◌then◌else◌,
  ◌&&◌, ◌||◌, any, reject, select,
}
use madaodv_ns.Int.{ℤ, pos, ◌+ℤ◌, ◌-ℤ◌, ltb_ℤ, max_ℤ}

-- An entry of an `ArpCache`, by its tests and its address.
pub record ArpEntry : Type 0 where
  pub is_alive : Bool
  pub is_permanent : Bool
  pub is_expired : Bool
  pub mac : ℕ

-- `ArpCache::Lookup` of each cache, and `Mac48Address()`.
pub record Arp : Type 0 where
  pub lookup : ℕ → ℕ → Option ArpEntry
  pub no_mac : ℕ

pub record Neighbor : Type 0 where
  pub address : ℕ
  pub hardware : ℕ
  pub expire_time : ℤ
  pub close : Bool

pub record Neighbors : Type 0 where
  pub has_callback : Bool
  pub delay : ℤ
  pub timer : Option ℤ
  pub nb : List Neighbor
  pub arp : List ℕ

unfoldable pub closes : ℤ → Neighbor → Bool
closes now n = ltb_ℤ n.expire_time now || n.close

unfoldable pub has_address : ℕ → Neighbor → Bool
has_address addr n = n.address == addr

unfoldable pub is_empty : List Neighbor → Bool
is_empty [] = true
is_empty (n ∷ ns) = false

unfoldable pub schedule_timer : ℤ → Neighbors → Neighbors
schedule_timer now s = record s { timer = some (s.delay +ℤ now) }

unfoldable pub purge : ℤ → Neighbors → Neighbors × List ℕ
purge now s = if is_empty s.nb then (s, []) else (
  schedule_timer now (record s { nb = reject (closes now) s.nb }),
  if s.has_callback then map (λ n. n.address) (select (closes now) s.nb) else [],
)

unfoldable pub is_neighbor : ℤ → ℕ → Neighbors → Neighbors × List ℕ × Bool
is_neighbor now addr s =
    let (s', failures) = purge now s in (s', failures, any (has_address addr) s'.nb)

-- The loop of `GetExpireTime`.
unfoldable pub expire_time_of : ℤ → ℕ → List Neighbor → ℤ
expire_time_of now addr [] = pos 0
expire_time_of now addr (n ∷ ns) =
    if has_address addr n then n.expire_time -ℤ now else expire_time_of now addr ns

unfoldable pub get_expire_time : ℤ → ℕ → Neighbors → Neighbors × List ℕ × ℤ
get_expire_time now addr s =
    let (s', failures) = purge now s in (s', failures, expire_time_of now addr s'.nb)

unfoldable pub usable : ArpEntry → Bool
usable e = (e.is_alive || e.is_permanent) && not e.is_expired

unfoldable pub lookup_mac_address : Arp → ℕ → List ℕ → ℕ
lookup_mac_address a addr [] = a.no_mac
lookup_mac_address a addr (cache ∷ caches) =
    let rest = lookup_mac_address a addr caches in
    elim (a.lookup cache addr) [ none ↦ rest | some e ↦ if usable e then e.mac else rest ]

-- The entry that `Update` finds.
unfoldable pub refresh : Arp → ℤ → List ℕ → ℤ → Neighbor → Neighbor
refresh a now arp expire n = record n {
  expire_time = max_ℤ (expire +ℤ now) n.expire_time;
  hardware = if n.hardware == a.no_mac then lookup_mac_address a n.address arp else n.hardware;
}

-- The loop of `Update`: `none` if no entry has the address.
unfoldable pub refresh_first : Arp → ℤ → List ℕ → ℕ → ℤ → List Neighbor → Option (List Neighbor)
refresh_first a now arp addr expire [] = none
refresh_first a now arp addr expire (n ∷ ns) =
    if has_address addr n
    then some (refresh a now arp expire n ∷ ns)
    else elim (refresh_first a now arp addr expire ns) [ none ↦ none | some ns' ↦ some (n ∷ ns') ]

unfoldable pub make_neighbor : Arp → ℤ → List ℕ → ℕ → ℤ → Neighbor
make_neighbor a now arp addr expire = record {
  address = addr;
  hardware = lookup_mac_address a addr arp;
  expire_time = expire +ℤ now;
  close = false;
}

unfoldable pub update : Arp → ℤ → ℕ → ℤ → Neighbors → Neighbors × List ℕ
update a now addr expire s = elim (refresh_first a now s.arp addr expire s.nb) [
  | some nb' ↦ (record s { nb = nb' }, [])
  | none ↦ purge now (record s { nb = s.nb ++ make_neighbor a now s.arp addr expire ∷ [] })
]

unfoldable pub clear : Neighbors → Neighbors
clear s = record s { nb = [] }

unfoldable pub add_arp_cache : ℕ → Neighbors → Neighbors
add_arp_cache cache s = record s { arp = s.arp ++ cache ∷ [] }

unfoldable pub del_arp_cache : ℕ → Neighbors → Neighbors
del_arp_cache cache s = record s { arp = reject (λ c. c == cache) s.arp }

-- The loop of `ProcessTxError`.
unfoldable pub close_hardware : ℕ → List Neighbor → List Neighbor
close_hardware addr [] = []
close_hardware addr (n ∷ ns) =
    (if n.hardware == addr then record n { close = true } else n) ∷ close_hardware addr ns

unfoldable pub process_tx_error : ℤ → ℕ → Neighbors → Neighbors × List ℕ
process_tx_error now addr s = purge now (record s { nb = close_hardware addr s.nb })
