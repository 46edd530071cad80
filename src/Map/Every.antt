-- ===== src/Map/Every.antt =====
-- A predicate that holds of every entry of a map, under each operation.
use madaodv_ns.Base.{ℕ, ◌≡◌, Option, some, [], ◌∷◌, arith, Option-cases, inl, inr}
use madaodv_ns.Map.{Map, find, insert, write, erase, filter_map}

abbrev pub Every {ℓ} : {V : Type ℓ} → (ℕ → V → Type 0) → Map V → Type 0
Every P [] = Unit
Every P ((k, v) ∷ m) = P k v × Every P m

module _ {ℓ} {V : Type ℓ} (P : ℕ → V → Type 0) where
  pub insert-Every : (k : ℕ) (v : V) (m : Map V) → P k v → Every P m → Every P (insert k v m)
  unfolding insert
  insert-Every k v [] p h = (p, tt)
  insert-Every k v ((j, w) ∷ m) p h = ground (arith, insert-Every k v m p h.1)

  pub write-Every : (k : ℕ) (v : V) (m : Map V) → P k v → Every P m → Every P (write k v m)
  unfolding write
  write-Every k v [] p h = tt
  write-Every k v ((j, w) ∷ m) p h = ground (arith, write-Every k v m p h.1)

  pub erase-Every : (k : ℕ) (m : Map V) → Every P m → Every P (erase k m)
  unfolding erase
  erase-Every k [] h = tt
  erase-Every k ((j, w) ∷ m) h = ground (arith, erase-Every k m h.1)

  pub filter_map-Every :
      (f : ℕ → V → Option V)
      → ((k : ℕ) (v w : V) → P k v → f k v ≡ some w → P k w)
      → (m : Map V) → Every P m
      → Every P (filter_map f m)
  unfolding filter_map
  filter_map-Every f keep [] h = tt
  filter_map-Every f keep ((j, v) ∷ m) h = elim (Option-cases (f j v)) [
    | inl e ↦ rw (e, filter_map) (filter_map-Every f keep m h.1)
    | inr (w, e) ↦ rw (e, filter_map) (keep j v w h.0 e, filter_map-Every f keep m h.1)
  ]

  pub find-Every : (k : ℕ) (v : V) (m : Map V) → Every P m → find k m ≡ some v → P k v
  unfolding find
  find-Every k v [] h e = cc
  find-Every k v ((j, w) ∷ m) h e = ground (arith, find-Every k v m h.1)
