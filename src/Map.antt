-- ===== src/Map.antt =====
-- `std::map` with addresses or pointers as keys: an association list in the order in which an
-- iterator meets the entries, which is that of the keys.
pub mod Order
pub mod Every
use madaodv_ns.Base.{
  ℕ, suc, ◌≤◌, ◌≡◌, Bool, Option, none, some, List, [], ◌∷◌, ltb, ◌==◌, if◌then◌else◌, is_some,
}

abbrev pub Map {ℓ} : Type ℓ → Type ℓ
Map V = List (ℕ × V)

module _ {ℓ} {V : Type ℓ} where
  unfoldable pub find : ℕ → Map V → Option V
  find k [] = none
  find k ((j, v) ∷ m) = if k == j then some v else find k m

  -- `insert` leaves a key that is present alone.
  unfoldable pub insert : ℕ → V → Map V → Map V
  insert k v [] = (k, v) ∷ []
  insert k v ((j, w) ∷ m) =
      if ltb k j then (k, v) ∷ (j, w) ∷ m else if k == j then (j, w) ∷ m else (j, w) ∷ insert k v m

  -- `it->second = v` for the iterator that `find(k)` returns.
  unfoldable pub write : ℕ → V → Map V → Map V
  write k v [] = []
  write k v ((j, w) ∷ m) = if k == j then (j, v) ∷ m else (j, w) ∷ write k v m

  unfoldable pub erase : ℕ → Map V → Map V
  erase k [] = []
  erase k ((j, w) ∷ m) = if k == j then m else (j, w) ∷ erase k m

  -- A loop over the entries that changes each one or erases it.
  unfoldable pub filter_map : (ℕ → V → Option V) → Map V → Map V
  filter_map f [] = []
  filter_map f ((j, w) ∷ m) = elim (f j w) [
    | none ↦ filter_map f m
    | some w' ↦ (j, w') ∷ filter_map f m
  ]

-- The keys rise, from `lo` on.
abbrev pub SortedFrom {ℓ} : {V : Type ℓ} → ℕ → Map V → Type 0
SortedFrom lo [] = Unit
SortedFrom lo ((j, w) ∷ m) = (lo ≤ j) × SortedFrom (suc j) m

abbrev pub IsSorted {ℓ} : {V : Type ℓ} → Map V → Type 0
IsSorted m = SortedFrom 0 m
