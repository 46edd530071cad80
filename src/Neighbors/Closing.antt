-- ===== src/Neighbors/Closing.antt =====
-- Which links are closed, and for which the routing protocol is told so.
use madaodv_ns.Base.{
  ℕ, ◌≡◌, refl, ◌∙◌, Bool, List, [], ◌∷◌, map, arith, ◌==◌, if◌then◌else◌, ◌||◌, reject, select,
}
use madaodv_ns.Int.{ℤ}
use madaodv_ns.Neighbors.{
  Neighbor, Neighbors, closes, is_empty, schedule_timer, purge, close_hardware, process_tx_error,
}

-- The purge keeps the neighbors whose link is open, in their order.
pub purge-nb : (now : ℤ) (s : Neighbors) → (purge now s).0.nb ≡ reject (closes now) s.nb
unfolding purge schedule_timer
purge-nb now s = go s.nb refl
  where
    go : (ns : List Neighbor) → s.nb ≡ ns → (purge now s).0.nb ≡ reject (closes now) s.nb
    go [] e = unfold is_empty reject in ground arith
    go (n ∷ ns) e = unfold is_empty in ground arith

purge_failures :
    (now : ℤ) (s : Neighbors) (ns : List Neighbor)
    → s.nb ≡ ns
    → (purge now s).1
      ≡ (if s.has_callback then map (λ n. n.address) (select (closes now) ns) else [])
unfolding purge schedule_timer is_empty select
purge_failures now s [] e = ground arith
purge_failures now s (n ∷ ns) e = ground arith

abbrev pub breaks : ℤ → ℕ → Neighbor → Bool
breaks now addr n = (n.hardware == addr) || closes now n

reject_closed :
    (now : ℤ) (addr : ℕ) (ns : List Neighbor)
    → reject (closes now) (close_hardware addr ns) ≡ reject (breaks now addr) ns
unfolding reject close_hardware closes
reject_closed now addr [] = refl
reject_closed now addr (n ∷ ns) = ground (arith, reject_closed now addr ns)

select_closed :
    (now : ℤ) (addr : ℕ) (ns : List Neighbor)
    → map (λ n. n.address) (select (closes now) (close_hardware addr ns))
      ≡ map (λ n. n.address) (select (breaks now addr) ns)
unfolding select close_hardware closes
select_closed now addr [] = refl
select_closed now addr (n ∷ ns) = ground (arith, select_closed now addr ns)

-- A transmission error towards a hardware address closes exactly the links to neighbors of that
-- address, with those that are over anyway, and the callback is called once for each, in the order
-- of the list, if one is set.
pub process_tx_error_lem :
    (now : ℤ) (addr : ℕ) (s : Neighbors)
    → let (s', failures) = process_tx_error now addr s in
      (s'.nb ≡ reject (breaks now addr) s.nb)
      × (failures
          ≡ (if s.has_callback then map (λ n. n.address) (select (breaks now addr) s.nb) else []))
unfolding process_tx_error
process_tx_error_lem now addr s = (
  purge-nb now (record s { nb = close_hardware addr s.nb }) ∙ reject_closed now addr s.nb,
  ground (
    arith,
    purge_failures now (record s { nb = close_hardware addr s.nb }) (close_hardware addr s.nb) refl,
    select_closed now addr s.nb,
  ),
)
