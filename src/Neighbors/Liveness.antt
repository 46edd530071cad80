-- ===== src/Neighbors/Liveness.antt =====
-- The list of neighbors between two calls: no address twice, and no link marked as closed. Who is
-- a neighbor, and for how long.
use madaodv_ns.Base.{
  ℕ, ◌≡◌, refl, Bool, true, false, not, none, some, List, [], ◌∷◌, ◌++◌, arith, ◌==◌, ◌||◌, ◌&&◌,
  any, reject, any-append, reject-append, reject-reject, Option-cases, inl, inr, ◌∙◌,
}
use madaodv_ns.Int.{ℤ, pos, ◌≤ℤ◌, ◌+ℤ◌, ◌-ℤ◌, max_ℤ, +ℤ_parts, -ℤ_parts}
use madaodv_ns.Neighbors.{
  Arp, Neighbor, Neighbors, closes, has_address, is_neighbor, expire_time_of, get_expire_time,
  refresh, refresh_first, make_neighbor, update,
}
use madaodv_ns.Neighbors.Closing.{purge-nb}

abbrev pub knows : ℕ → List Neighbor → Bool
knows addr ns = any (has_address addr) ns

abbrev pub IsTidy : List Neighbor → Type 0
IsTidy [] = Unit
IsTidy (n ∷ ns) = (n.close ≡ false) × (knows n.address ns ≡ false) × IsTidy ns

knows-reject :
    (p : Neighbor → Bool) (addr : ℕ) (ns : List Neighbor)
    → knows addr ns ≡ false
    → knows addr (reject p ns) ≡ false
unfolding any reject
knows-reject p addr [] h = refl
knows-reject p addr (n ∷ ns) h = ground (arith, knows-reject p addr ns)

reject-IsTidy : (p : Neighbor → Bool) (ns : List Neighbor) → IsTidy ns → IsTidy (reject p ns)
unfolding reject
reject-IsTidy p [] h = tt
reject-IsTidy p (n ∷ ns) h = ground (arith, reject-IsTidy p ns h.2, knows-reject p n.address ns)

append-IsTidy :
    (new : Neighbor) (ns : List Neighbor)
    → new.close ≡ false
    → knows new.address ns ≡ false
    → IsTidy ns
    → IsTidy (ns ++ new ∷ [])
unfolding any has_address
append-IsTidy new [] c k h = (c, refl, tt)
append-IsTidy new (n ∷ ns) c k h =
    ground (arith, append-IsTidy new ns c, any-append (has_address n.address) ns (new ∷ []))

module _ (a : Arp) (now : ℤ) (arp : List ℕ) (addr : ℕ) (expire : ℤ) where
  refresh_first-none :
      (ns : List Neighbor) → refresh_first a now arp addr expire ns ≡ none → knows addr ns ≡ false
  unfolding refresh_first any
  refresh_first-none [] h = refl
  refresh_first-none (n ∷ ns) h = ground (arith, refresh_first-none ns)

  refresh_first-knows :
      (ns ns' : List Neighbor) (b : ℕ)
      → refresh_first a now arp addr expire ns ≡ some ns'
      → knows b ns' ≡ knows b ns
  unfolding refresh_first any has_address refresh
  refresh_first-knows [] ns' b h = cc
  refresh_first-knows (n ∷ ns) ns' b h =
      elim (Option-cases (refresh_first a now arp addr expire ns)) [
        | inl e ↦ ground arith
        | inr (ms, e) ↦ ground (arith, refresh_first-knows ns ms b e)
      ]

  refresh_first-IsTidy :
      (ns ns' : List Neighbor)
      → refresh_first a now arp addr expire ns ≡ some ns'
      → IsTidy ns
      → IsTidy ns'
  unfolding refresh_first any has_address refresh
  refresh_first-IsTidy [] ns' h t = cc
  refresh_first-IsTidy (n ∷ ns) ns' h t =
      elim (Option-cases (refresh_first a now arp addr expire ns)) [
        | inl e ↦ ground arith
        | inr (ms, e) ↦
            ground (arith, refresh_first-knows ns ms n.address e, refresh_first-IsTidy ns ms e t.2)
      ]

-- A neighbor whose link is open.
abbrev pub is_live : ℤ → ℕ → List Neighbor → Bool
is_live now addr ns = any (λ n. has_address addr n && not (closes now n)) ns

knows_open :
    (now : ℤ) (addr : ℕ) (ns : List Neighbor)
    → knows addr (reject (closes now) ns) ≡ is_live now addr ns
unfolding any reject
knows_open now addr [] = refl
knows_open now addr (n ∷ ns) = ground (arith, knows_open now addr ns)

-- An address is a neighbor exactly if an entry of the list for it has neither expired nor been
-- closed.
pub is_neighbor_lem :
    (now : ℤ) (addr : ℕ) (s : Neighbors) → (is_neighbor now addr s).2 ≡ is_live now addr s.nb
unfolding is_neighbor
is_neighbor_lem now addr s = rw (purge-nb now s) (knows_open now addr s.nb)

open_after_refresh :
    (a : Arp) (now : ℤ) (arp : List ℕ) (expire : ℤ) (n : Neighbor)
    → n.close ≡ false
    → pos 0 ≤ℤ expire
    → (closes now (refresh a now arp expire n) ≡ false)
      × (expire ≤ℤ (refresh a now arp expire n).expire_time -ℤ now)
unfolding closes refresh max_ℤ
open_after_refresh a now arp expire n c h =
    ground (arith, +ℤ_parts expire now, -ℤ_parts (expire +ℤ now) now, -ℤ_parts n.expire_time now)

refresh-address :
    (a : Arp) (now : ℤ) (arp : List ℕ) (expire : ℤ) (n : Neighbor)
    → (refresh a now arp expire n).address ≡ n.address
unfolding refresh
refresh-address a now arp expire n = refl

module _ (a : Arp) (now : ℤ) (arp : List ℕ) (addr : ℕ) (expire : ℤ) (h : pos 0 ≤ℤ expire) where
  refresh_first-is_live :
      (b : ℕ) (ns ns' : List Neighbor)
      → refresh_first a now arp addr expire ns ≡ some ns'
      → IsTidy ns
      → (is_live now b ns' ≡ (b == addr) || is_live now b ns)
        × (expire ≤ℤ expire_time_of now addr (reject (closes now) ns'))
  unfolding refresh_first any has_address reject expire_time_of
  refresh_first-is_live b [] ns' e t = cc
  refresh_first-is_live b (n ∷ ns) ns' e t =
      elim (Option-cases (refresh_first a now arp addr expire ns)) [
        | inl none_left ↦
            ground (
              arith,
              open_after_refresh a now arp expire n t.0 h,
              refresh-address a now arp expire n,
            )
        | inr (ms, more) ↦ ground (
          arith,
          open_after_refresh a now arp expire n t.0 h,
          refresh-address a now arp expire n,
          refresh_first-is_live b ns ms more t.2,
        )
      ]

expire_time_of-append :
    (now : ℤ) (addr : ℕ) (ns : List Neighbor) (n : Neighbor)
    → knows addr ns ≡ false
    → has_address addr n ≡ true
    → expire_time_of now addr (ns ++ n ∷ []) ≡ n.expire_time -ℤ now
unfolding expire_time_of any
expire_time_of-append now addr [] n k h = ground arith
expire_time_of-append now addr (m ∷ ns) n k h = ground (arith, expire_time_of-append now addr ns n)

is_live-open :
    (now : ℤ) (b : ℕ) (ns : List Neighbor)
    → is_live now b (reject (closes now) ns) ≡ is_live now b ns
unfolding any reject
is_live-open now b [] = refl
is_live-open now b (n ∷ ns) = ground (arith, is_live-open now b ns)

-- What `Update` promises of the list that it leaves.
abbrev Updated : ℤ → ℕ → ℕ → ℤ → List Neighbor → List Neighbor → Type 0
Updated now addr b expire ns ns' =
    IsTidy ns'
    × (is_live now b ns' ≡ (b == addr) || is_live now b ns)
    × (expire ≤ℤ expire_time_of now addr (reject (closes now) ns'))

module _ (a : Arp) (now : ℤ) (arp : List ℕ) (addr : ℕ) (expire : ℤ) (h : pos 0 ≤ℤ expire) where
  open_new :
      (closes now (make_neighbor a now arp addr expire) ≡ false)
      × (expire ≤ℤ (make_neighbor a now arp addr expire).expire_time -ℤ now)
  unfolding closes make_neighbor
  open_new = ground (arith, +ℤ_parts expire now, -ℤ_parts (expire +ℤ now) now)

  named : has_address addr (make_neighbor a now arp addr expire) ≡ true
  unfolding has_address make_neighbor
  named = ground arith

  live_with_new :
      (b : ℕ) (ns : List Neighbor)
      → is_live now b (ns ++ make_neighbor a now arp addr expire ∷ [])
        ≡ (b == addr) || is_live now b ns
  unfolding any has_address make_neighbor
  live_with_new b ns = ground (
    arith,
    any-append (λ n. has_address b n && not (closes now n)) ns
        (make_neighbor a now arp addr expire ∷ []),
    open_new,
  )

  kept :
      (ns : List Neighbor)
      → reject (closes now) (ns ++ make_neighbor a now arp addr expire ∷ [])
        ≡ reject (closes now) ns ++ make_neighbor a now arp addr expire ∷ []
  kept ns =
      reject-append (closes now) ns (make_neighbor a now arp addr expire ∷ [])
      ∙ unfold reject in rw open_new.0

  Updated-new :
      (b : ℕ) (ns : List Neighbor)
      → knows addr ns ≡ false
      → IsTidy ns
      → Updated now addr b expire ns
          (reject (closes now) (ns ++ make_neighbor a now arp addr expire ∷ []))
  Updated-new b ns k t =
      let new = make_neighbor a now arp addr expire in
      (
        reject-IsTidy (closes now) (ns ++ new ∷ [])
            (append-IsTidy new ns (unfold make_neighbor in refl) (unfold make_neighbor in k) t),
        is_live-open now b (ns ++ new ∷ []) ∙ live_with_new b ns,
        rw
            (
              reject-reject (closes now) (ns ++ new ∷ []),
              kept ns,
              expire_time_of-append now addr (reject (closes now) ns) new
                  (knows-reject (closes now) addr ns k) named,
            )
            open_new.1,
      )

update-Updated :
    (a : Arp) (now : ℤ) (addr b : ℕ) (expire : ℤ) (s : Neighbors)
    → pos 0 ≤ℤ expire
    → IsTidy s.nb
    → Updated now addr b expire s.nb (update a now addr expire s).0.nb
unfolding update
update-Updated a now addr b expire s h t =
    elim (Option-cases (refresh_first a now s.arp addr expire s.nb)) [
      | inl e ↦
          rw
            (
              e,
              update,
              purge-nb now (record s { nb = s.nb ++ make_neighbor a now s.arp addr expire ∷ [] }),
            )
            (Updated-new a now s.arp addr expire h b s.nb
              (refresh_first-none a now s.arp addr expire s.nb e) t)
      | inr (ms, e) ↦
          let (live, left) = refresh_first-is_live a now s.arp addr expire h b s.nb ms e t in
          rw (e, update) (refresh_first-IsTidy a now s.arp addr expire s.nb ms e t, live, left)
    ]

-- After Update of a list without repetitions or closed links, with a lifetime of zero or more, the address is a neighbor with at least that time
-- left, and every other address is a neighbor exactly if it was; the list stays as it has to be.
pub update_lem :
    (a : Arp) (now : ℤ) (addr b : ℕ) (expire : ℤ) (s : Neighbors)
    → pos 0 ≤ℤ expire
    → IsTidy s.nb
    → let s' = (update a now addr expire s).0 in
      IsTidy s'.nb
      × ((is_neighbor now b s').2 ≡ (b == addr) || (is_neighbor now b s).2)
      × (expire ≤ℤ (get_expire_time now addr s').2)
update_lem a now addr b expire s h t =
    let (tidy, live, left) = update-Updated a now addr b expire s h t in
    (
      tidy,
      rw (is_neighbor_lem now b (update a now addr expire s).0, is_neighbor_lem now b s) live,
      unfold get_expire_time in rw (purge-nb now (update a now addr expire s).0) left,
    )
