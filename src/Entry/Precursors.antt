-- ===== src/Entry/Precursors.antt =====
-- The precursor list of an entry is a set: no operation lists an address twice.
use madaodv_ns.Base.{
  ℕ, ◌≡◌, refl, Bool, false, not, ◌||◌, List, [], ◌∷◌, ◌++◌, arith, ◌==◌, if◌then◌else◌, any,
  reject, any-append, Bool-cases, inl, inr,
}
use madaodv_ns.Entry.{
  Entry, lookup_precursor, insert_precursor, delete_precursor, push_missing, get_precursors,
}

abbrev pub holds : ℕ → List ℕ → Bool
holds a xs = any (λ i. i == a) xs

-- No address stands twice in the list.
abbrev pub IsDistinct : List ℕ → Type 0
IsDistinct [] = Unit
IsDistinct (x ∷ xs) = (holds x xs ≡ false) × IsDistinct xs

holds-append : (a : ℕ) (xs ys : List ℕ) → holds a (xs ++ ys) ≡ holds a xs || holds a ys
holds-append a = any-append (λ i. i == a)

holds-reject :
    (a b : ℕ) (xs : List ℕ)
    → holds a (reject (λ i. i == b) xs) ≡ (if a == b then false else holds a xs)
unfolding any reject
holds-reject a b [] = ground arith
holds-reject a b (x ∷ xs) = ground (arith, holds-reject a b xs)

reject-IsDistinct : (b : ℕ) (xs : List ℕ) → IsDistinct xs → IsDistinct (reject (λ i. i == b) xs)
unfolding reject
reject-IsDistinct b [] d = tt
reject-IsDistinct b (x ∷ xs) d = ground (arith, reject-IsDistinct b xs d.1, holds-reject x b xs)

append-IsDistinct :
    (a : ℕ) (xs : List ℕ) → holds a xs ≡ false → IsDistinct xs → IsDistinct (xs ++ a ∷ [])
unfolding any
append-IsDistinct a [] h d = (refl, tt)
append-IsDistinct a (x ∷ xs) h d =
    ground (arith, append-IsDistinct a xs, any-append (λ i. i == x) xs (a ∷ []))

-- After InsertPrecursor the address is found, every other address is found exactly if it was
-- before, a list without repetitions stays one, and the result says whether the address is new.
insert_precursor_lem :
    (id a : ℕ) (e : Entry)
    → IsDistinct e.precursors
    → IsDistinct (insert_precursor id e).0.precursors
      × (lookup_precursor a (insert_precursor id e).0 ≡ (id == a) || lookup_precursor a e)
      × ((insert_precursor id e).1 ≡ not (lookup_precursor id e))
unfolding insert_precursor any
insert_precursor_lem id a e d =
    ground
      (arith, append-IsDistinct id e.precursors, any-append (λ i. i == a) e.precursors (id ∷ []))

-- In a list without repetitions, which stays one, after DeletePrecursor the address is gone, every other address is found exactly if it was
-- before, and the result says whether the address was there.
delete_precursor_lem :
    (id a : ℕ) (e : Entry)
    → IsDistinct e.precursors
    → IsDistinct (delete_precursor id e).0.precursors
      × (lookup_precursor a (delete_precursor id e).0
          ≡ (if a == id then false else lookup_precursor a e))
      × ((delete_precursor id e).1 ≡ lookup_precursor id e)
unfolding delete_precursor
delete_precursor_lem id a e d =
    ground (arith, reject-IsDistinct id e.precursors d, holds-reject a id e.precursors)

push_missing_lem :
    (xs prec : List ℕ) (a : ℕ)
    → IsDistinct prec
    → IsDistinct (push_missing xs prec)
      × (holds a (push_missing xs prec) ≡ holds a prec || holds a xs)
unfolding push_missing any
push_missing_lem [] prec a d = ground arith
push_missing_lem (x ∷ xs) prec a d = elim (Bool-cases (any (λ j. j == x) prec)) [
  | inl old ↦ rw old (ground (arith, push_missing_lem xs prec a d))
  | inr new ↦ rw new (
      ground (
        arith,
        push_missing_lem xs (prec ++ x ∷ []) a (append-IsDistinct x prec new d),
        any-append (λ i. i == a) prec (x ∷ []),
      ))
]

get_precursors-eq-push_missing :
    (e : Entry) (xs prec : List ℕ)
    → e.precursors ≡ xs
    → get_precursors e prec ≡ push_missing xs prec
unfolding get_precursors
get_precursors-eq-push_missing e [] prec h = ground arith
get_precursors-eq-push_missing e (x ∷ xs) prec h = ground arith

-- GetPrecursors adds to a list without repetitions exactly the precursors that it lacks.
get_precursors_lem :
    (e : Entry) (prec : List ℕ) (a : ℕ)
    → IsDistinct prec
    → IsDistinct (get_precursors e prec)
      × (any (λ i. i == a) (get_precursors e prec) ≡ any (λ i. i == a) prec || lookup_precursor a e)
unfolding lookup_precursor
get_precursors_lem e prec a d =
    rw (get_precursors-eq-push_missing e e.precursors prec refl)
      (push_missing_lem e.precursors prec a d)
