-- ===== src/Map/Order.antt =====
-- The laws of the map operations on maps whose keys rise.
use madaodv_ns.Base.{
  ◌++◌, ◌<◌, ℕ, suc, ◌≤◌, ◌<◌, ◌≡◌, refl, Option, none, some, [], ◌∷◌, arith, ◌==◌, if◌then◌else◌,
  is_some,
}
use madaodv_ns.Map.{Map, find, insert, write, erase, filter_map, SortedFrom}

module _ {ℓ} {V : Type ℓ} where
  pub SortedFrom-mono : (lo hi : ℕ) (m : Map V) → lo ≤ hi → SortedFrom hi m → SortedFrom lo m
  SortedFrom-mono lo hi [] h s = tt
  SortedFrom-mono lo hi ((j, w) ∷ m) h s = (omega arith, s.1)

  pub find_below : (k lo : ℕ) (m : Map V) → SortedFrom lo m → k < lo → find k m ≡ none
  unfolding find
  find_below k lo [] s h = refl
  find_below k lo ((j, w) ∷ m) s h = ground (arith, find_below k (suc j) m s.1)

  pub insert-SortedFrom :
      (k : ℕ) (v : V) (lo : ℕ) (m : Map V) → lo ≤ k → SortedFrom lo m → SortedFrom lo (insert k v m)
  unfolding insert
  insert-SortedFrom k v lo [] h s = (h, tt)
  insert-SortedFrom k v lo ((j, w) ∷ m) h s = ground (arith, insert-SortedFrom k v (suc j) m)

  pub write-SortedFrom :
      (k : ℕ) (v : V) (lo : ℕ) (m : Map V) → SortedFrom lo m → SortedFrom lo (write k v m)
  unfolding write
  write-SortedFrom k v lo [] s = tt
  write-SortedFrom k v lo ((j, w) ∷ m) s = ground (arith, write-SortedFrom k v (suc j) m)

  pub erase-SortedFrom : (k : ℕ) (lo : ℕ) (m : Map V) → SortedFrom lo m → SortedFrom lo (erase k m)
  unfolding erase
  erase-SortedFrom k lo [] s = tt
  erase-SortedFrom k lo ((j, w) ∷ m) s =
      ground (arith, erase-SortedFrom k (suc j) m, SortedFrom-mono lo (suc j) m)

  pub filter_map-SortedFrom :
      (f : ℕ → V → Option V) (lo : ℕ) (m : Map V) → SortedFrom lo m → SortedFrom lo (filter_map f m)
  unfolding filter_map
  filter_map-SortedFrom f lo [] s = tt
  filter_map-SortedFrom f lo ((j, w) ∷ m) s =
      ground (arith, filter_map-SortedFrom f (suc j) m, SortedFrom-mono lo (suc j) (filter_map f m))

  -- What `find` sees after each operation.
  pub find-insert :
      (j k : ℕ) (v : V) (lo : ℕ) (m : Map V)
      → SortedFrom lo m
      → find j (insert k v m)
        ≡ (if is_some (find k m) then find j m else if j == k then some v else find j m)
  unfolding find insert
  find-insert j k v lo [] s = refl
  find-insert j k v lo ((i, w) ∷ m) s =
      ground (arith, find-insert j k v (suc i) m, find_below k (suc i) m s.1)

  pub find-write :
      (j k : ℕ) (v : V) (m : Map V)
      → find j (write k v m)
        ≡ (if is_some (find k m) then if j == k then some v else find j m else find j m)
  unfolding find write
  find-write j k v [] = refl
  find-write j k v ((i, w) ∷ m) = ground (arith, find-write j k v m)

  pub find-erase :
      (j k : ℕ) (lo : ℕ) (m : Map V)
      → SortedFrom lo m
      → find j (erase k m) ≡ (if j == k then none else find j m)
  unfolding find erase
  find-erase j k lo [] s = ground arith
  find-erase j k lo ((i, w) ∷ m) s =
      ground (arith, find-erase j k (suc i) m, find_below j (suc i) m s.1)

  -- The entry at a key after a loop is the loop's body at that entry.
  pub find-filter_map :
      (f : ℕ → V → Option V) (j : ℕ) (lo : ℕ) (m : Map V)
      → SortedFrom lo m
      → find j (filter_map f m) ≡ elim (find j m) [ none ↦ none | some w ↦ f j w ]
  unfolding find filter_map
  find-filter_map f j lo [] s = refl
  find-filter_map f j lo ((i, w) ∷ m) s =
      ground (arith, find-filter_map f j (suc i) m, find_below j (suc i) m s.1)

  pub find-map_erase : (k : ℕ) (m : Map V) → find k m ≡ none → erase k m ≡ m
  unfolding find erase
  find-map_erase k [] e = refl
  find-map_erase k ((i, w) ∷ m) e = ground (arith, find-map_erase k m)

-- The keys are below `lo`.
abbrev pub Below {ℓ} : {V : Type ℓ} → ℕ → Map V → Type 0
Below lo [] = Unit
Below lo ((j, w) ∷ m) = (j < lo) × Below lo m

module _ {ℓ} {V : Type ℓ} where
  pub Below-mono : (lo hi : ℕ) (m : Map V) → lo ≤ hi → Below lo m → Below hi m
  Below-mono lo hi [] h b = tt
  Below-mono lo hi ((j, w) ∷ m) h b = (omega arith, Below-mono lo hi m h b.1)

  pub append-Below :
      (lo k : ℕ) (v : V) (m : Map V) → k < lo → Below lo m → Below lo (m ++ (k, v) ∷ [])
  append-Below lo k v [] h b = (h, tt)
  append-Below lo k v ((j, w) ∷ m) h b = (b.0, append-Below lo k v m h b.1)

  -- An entry above all others goes to the end.
  pub insert_above : (k : ℕ) (v : V) (m : Map V) → Below k m → insert k v m ≡ m ++ (k, v) ∷ []
  unfolding insert
  insert_above k v [] b = refl
  insert_above k v ((j, w) ∷ m) b = ground (arith, insert_above k v m b.1)
