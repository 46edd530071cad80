-- ===== src/IdCache.antt =====
-- `IdCache` of model/madaodv-id-cache.h and model/madaodv-id-cache.cc, and
-- `DuplicatePacketDetection` of model/madaodv-dpd.cc, which wraps one.
pub mod Memory
use madaodv_ns.Base.{
  ◌%◌, ℕ, Bool, true, false, List, [], ◌∷◌, ◌++◌, ◌==◌, if◌then◌else◌, ◌&&◌, any, reject, length,
}
use madaodv_ns.Int.{ℤ, ◌+ℤ◌, ltb_ℤ}

pub record UniqueId : Type 0 where
  pub context : ℕ
  pub id : ℕ
  pub expire : ℤ

pub record IdCache : Type 0 where
  pub ids : List UniqueId
  pub lifetime : ℤ

unfoldable pub is_expired : ℤ → UniqueId → Bool
is_expired now u = ltb_ℤ u.expire now

unfoldable pub purge : ℤ → IdCache → IdCache
purge now c = record c { ids = reject (is_expired now) c.ids }

abbrev pub same_id : ℕ → ℕ → UniqueId → Bool
same_id addr id u = (u.context == addr) && (u.id == id)

unfoldable pub is_duplicate : ℤ → ℕ → ℕ → IdCache → IdCache × Bool
is_duplicate now addr id c =
    let c' = purge now c in
    if any (same_id addr id) c'.ids then (c', true) else (
      record c' {
        ids = c'.ids ++ record { context = addr; id = id; expire = c'.lifetime +ℤ now } ∷ [];
      },
      false,
    )

unfoldable pub get_size : ℤ → IdCache → IdCache × ℕ
get_size now c = let c' = purge now c in (c', length c'.ids)

unfoldable pub set_lifetime : ℤ → IdCache → IdCache
set_lifetime lifetime c = record c { lifetime = lifetime }

-- `DuplicatePacketDetection::IsDuplicate`, from the source of the header and the packet's uid.
unfoldable pub is_duplicate_packet : ℤ → ℕ → ℕ → IdCache → IdCache × Bool
is_duplicate_packet now source uid c = is_duplicate now source (uid % 4294967296) c
