-- ===== src/IdCache/Memory.antt =====
-- What the cache remembers, and for how long.
use madaodv_ns.Base.{
  ℕ, ◌≡◌, refl, ◌∙◌, Bool, true, false, List, [], ◌∷◌, ◌==◌, ◌&&◌, ◌||◌, not, any, reject, arith,
  any-append, Bool-cases, inl, inr,
}
use madaodv_ns.Int.{ℤ, ◌≤ℤ◌, ◌+ℤ◌, ltb_ℤ}
use madaodv_ns.IdCache.{UniqueId, IdCache, is_expired, purge, same_id, is_duplicate}

-- A pair is remembered up to an instant if an entry for it expires no earlier.
abbrev pub lasts : ℤ → ℕ → ℕ → UniqueId → Bool
lasts until addr id u = same_id addr id u && not (ltb_ℤ u.expire until)

abbrev pub remembers : ℤ → ℕ → ℕ → IdCache → Bool
remembers until addr id c = any (lasts until addr id) c.ids

any_live :
    (now : ℤ) (addr id : ℕ) (us : List UniqueId)
    → any (same_id addr id) (reject (is_expired now) us) ≡ any (lasts now addr id) us
unfolding any reject is_expired
any_live now addr id [] = refl
any_live now addr id (u ∷ us) = ground (arith, any_live now addr id us)

-- A purge forgets nothing that lasts beyond its instant.
lasts_purged :
    (now until : ℤ) (addr id : ℕ) (us : List UniqueId)
    → now ≤ℤ until
    → any (lasts until addr id) (reject (is_expired now) us) ≡ any (lasts until addr id) us
unfolding any reject is_expired
lasts_purged now until addr id [] h = refl
lasts_purged now until addr id (u ∷ us) h = ground (arith, lasts_purged now until addr id us h)

-- A pair counts as a duplicate exactly if an entry for it has not expired.
pub is_duplicate_lem :
    (now : ℤ) (addr id : ℕ) (c : IdCache) → (is_duplicate now addr id c).1 ≡ remembers now addr id c
unfolding is_duplicate purge
is_duplicate_lem now addr id c = ground (arith, any_live now addr id c.ids)

-- After a call at `now`, what is remembered up to a later instant is what was, and the pair of the
-- call itself, if it was new and the instant is not beyond the lifetime.
pub remembers-is_duplicate :
    (now until : ℤ) (addr id a i : ℕ) (c : IdCache)
    → now ≤ℤ until
    → remembers until a i (is_duplicate now addr id c).0 ≡ (
        remembers until a i c
        || (not (remembers now addr id c)
            && ((addr == a) && (id == i) && not (ltb_ℤ (c.lifetime +ℤ now) until))))
unfolding is_duplicate purge
remembers-is_duplicate now until addr id a i c h = elim (Bool-cases (remembers now addr id c)) [
  | inl old ↦ ground (arith, any_live now addr id c.ids, lasts_purged now until a i c.ids h)
  | inr new ↦
      unfold any in
      ground (
        arith,
        any_live now addr id c.ids,
        lasts_purged now until a i c.ids h,
        any-append (lasts until a i) (reject (is_expired now) c.ids)
            (record { context = addr; id = id; expire = c.lifetime +ℤ now } ∷ []),
      )
]

-- The calls of a stretch of time: an instant and a pair each.
pub run : List (ℤ × ℕ × ℕ) → IdCache → IdCache
run [] c = c
run ((now, addr, id) ∷ calls) c = run calls (is_duplicate now addr id c).0

abbrev pub AllBefore : ℤ → List (ℤ × ℕ × ℕ) → Type 0
AllBefore until [] = Unit
AllBefore until ((now, _, _) ∷ calls) = (now ≤ℤ until) × AllBefore until calls

remembers-run :
    (until : ℤ) (a i : ℕ) (calls : List (ℤ × ℕ × ℕ)) (c : IdCache)
    → AllBefore until calls
    → remembers until a i c ≡ true
    → remembers until a i (run calls c) ≡ true
unfolding run
remembers-run until a i [] c b h = h
remembers-run until a i ((now, addr, id) ∷ calls) c b h =
    remembers-run until a i calls (is_duplicate now addr id c).0 b.1
      (ground (arith, remembers-is_duplicate now until addr id a i c b.0))

-- A pair that was new at the instant of a call is a duplicate at every instant up to the end of its lifetime,
-- whatever other calls come in between.
pub is_duplicate-run :
    (now until : ℤ) (addr id : ℕ) (calls : List (ℤ × ℕ × ℕ)) (c : IdCache)
    → (is_duplicate now addr id c).1 ≡ false
    → now ≤ℤ until
    → until ≤ℤ c.lifetime +ℤ now
    → AllBefore until calls
    → (is_duplicate until addr id (run calls (is_duplicate now addr id c).0)).1 ≡ true
is_duplicate-run now until addr id calls c new h life b =
    is_duplicate_lem until addr id (run calls (is_duplicate now addr id c).0)
    ∙ remembers-run until addr id calls (is_duplicate now addr id c).0 b (
        ground (
          arith,
          remembers-is_duplicate now until addr id addr id c h,
          is_duplicate_lem now addr id c,
        ))
