-- ===== src/Protocol/Reported.antt =====
-- After `RecvError` no valid route through the sender leads to a destination that it reported.
use madaodv_ns.Base.{
  ℕ, ◌≡◌, refl, false, some, [], ◌∷◌, ◌==◌, ◌&&◌, ◌||◌, is_some, any, arith, Option-cases,
  Bool-cases, inl, inr,
}
use madaodv_ns.Int.{ℤ}
use madaodv_ns.Map.{Map, find, insert, IsSorted}
use madaodv_ns.Map.Order.{find-insert, insert-SortedFrom}
use madaodv_ns.Entry.{Entry, valid, get_next_hop}
use madaodv_ns.RoutingTable.{RoutingTable, purge}
use madaodv_ns.RoutingTable
use madaodv_ns.RoutingTable.Spec.{purge-IsSorted}
use madaodv_ns.RoutingTable.Unreachable.{get_list_of_destination_with_next_hop_lem}
use madaodv_ns.Headers.{RerrHeader}
use madaodv_ns.Protocol.{World, Node}
use madaodv_ns.Protocol.Rerr.{
  keep_reached, fill_rerr, send_if_any, reached_through, invalidate_routes_with_dst, recv_error,
}
use madaodv_ns.Protocol.Sending.{Keeps, fill_rerr-KeepsFilled, send_if_any-Keeps}
use madaodv_ns.Protocol.BrokenLink.{Aged, purge-Aged, valid_after_invalidate}

any-find : (a : ℕ) (m : Map ℕ) → any (λ i. i.0 == a) m ≡ is_some (find a m)
unfolding any find
any-find a [] = refl
any-find a ((k, v) ∷ m) = ground (arith, any-find a m)

-- What is kept of the message: the destinations that are reached.
keep_reached_lem :
    (m reached acc : Map ℕ) (j : ℕ)
    → IsSorted acc
    → is_some (find j (keep_reached m reached acc))
      ≡ is_some (find j acc) || (is_some (find j m) && is_some (find j reached))
unfolding keep_reached find
keep_reached_lem [] reached acc j s = ground arith
keep_reached_lem ((a, v) ∷ m) reached acc j s = elim (Bool-cases (is_some (find a reached))) [
  | inl hit ↦
      rw (any-find a reached, hit)
        (ground (
          arith,
          hit,
          keep_reached_lem m reached (insert a v acc) j
              (insert-SortedFrom a v 0 acc (omega arith) s),
          find-insert j a v 0 acc s,
        ))
  | inr miss ↦
      rw (any-find a reached, miss) (ground (arith, miss, keep_reached_lem m reached acc j s))
]

-- No valid route through `src` leads to a destination of the message.
abbrev pub IsReported : Map ℕ → ℕ → RoutingTable → Type 0
IsReported unreachable src t =
    (j : ℕ) (e : Entry)
    → find j t.entries ≡ some e
    → e.flag ≡ valid
    → is_some (find j unreachable) && (get_next_hop e == src) ≡ false

invalidate-IsReported :
    (now : ℤ) (src : ℕ) (unreachable : Map ℕ) (t t' : RoutingTable)
    → IsSorted t.entries
    → Aged (purge now t) t'
    → let reached = (RoutingTable.get_list_of_destination_with_next_hop now src t).1 in
      IsReported unreachable src
        (RoutingTable.invalidate_routes_with_dst now (keep_reached unreachable reached []) t')
invalidate-IsReported now src unreachable t t' s (s', old) j e at f =
    let reached = (RoutingTable.get_list_of_destination_with_next_hop now src t).1 in
    let (before, unlisted) =
      valid_after_invalidate now (keep_reached unreachable reached []) t' j e s' at f in
    unfold find in
    ground (
      arith,
      unlisted,
      old j e before f,
      get_list_of_destination_with_next_hop_lem now src j t s,
      keep_reached_lem unreachable reached [] j tt,
    )

module _ (w : World) where
  open w use {ns, now}

  recv_error-Keeps :
      (h : RerrHeader) (src : ℕ) (n : Node)
      → IsSorted n.table.entries
      → Keeps (λ t q. IsReported h.unreachable src t) (recv_error w h src n)
  unfolding recv_error reached_through invalidate_routes_with_dst
      RoutingTable.get_list_of_destination_with_next_hop
  recv_error-Keeps h src n s =
      let t = purge now n.table in
      let reached = reached_through w src n in
      let m = keep_reached h.unreachable reached.1 [] in
      let h' = record h { unreachable = [] } in
      let filled_keeps =
        fill_rerr-KeepsFilled w (λ t' q. Aged t t') (λ t' q. purge-Aged now t t') m h' [] reached.0
          (purge-IsSorted now n.table s, λ j e at f. at) in
      elim (Option-cases (fill_rerr w m h' [] reached.0)) [
        | inl f ↦ rw (recv_error, f) tt
        | inr ((g, xs, k), f) ↦
            let aged = rw f at filled_keeps in
            elim (Option-cases (send_if_any w g xs k)) [
              | inl e ↦ rw (recv_error, f, e) tt
              | inr (n', e) ↦
                  rw (recv_error, f, e)
                    (invalidate-IsReported now src h.unreachable n.table n'.table s (
                      rw e at (
                        send_if_any-Keeps w (λ t' q. Aged t t') (λ t' q. purge-Aged now t t') g xs k
                          aged)))
            ]
      ]

-- After RecvError on a table whose keys rise, if it fails no assertion, no valid route through the
-- sender leads to a destination of the message.
pub recv_error_lem :
    (w : World) (h : RerrHeader) (src : ℕ) (n n' : Node)
    → IsSorted n.table.entries
    → recv_error w h src n ≡ some n'
    → IsReported h.unreachable src n'.table
recv_error_lem w h src n n' s e = rw e at (recv_error-Keeps w h src n s)
