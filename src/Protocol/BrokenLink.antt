-- ===== src/Protocol/BrokenLink.antt =====
-- After `SendRerrWhenBreaksLinkToNextHop` no valid route goes through the neighbor that was lost.
use madaodv_ns.Base.{
  ℕ, ◌≡◌, refl, ◌∙◌, sym, ap, false, none, some, [], ◌==◌, ◌&&◌, is_some, if◌then◌else◌, arith,
  Option-cases, inl, inr,
}
use madaodv_ns.Int.{ℤ}
use madaodv_ns.Map.{Map, find, insert, IsSorted}
use madaodv_ns.Map.Order.{find-insert}
use madaodv_ns.Entry.{Entry, valid, flag_eq, get_next_hop, invalidate, get_precursors}
use madaodv_ns.RoutingTable.{RoutingTable, found, purge}
use madaodv_ns.RoutingTable
use madaodv_ns.RoutingTable.Lookup.{valid_after_purge}
use madaodv_ns.RoutingTable.Unreachable.{get_list_of_destination_with_next_hop_lem, list-IsSorted}
use madaodv_ns.RoutingTable.Spec.{apply, apply_refines, invalidates, find-purge, purge-IsSorted}
use madaodv_ns.Headers.{RerrHeader}
use madaodv_ns.Headers
use madaodv_ns.Protocol.{World, Node, lookup_route, blank}
use madaodv_ns.Protocol.Sending.{Keeps, lookup-keeps, fill_rerr-KeepsFilled, send_if_any-Keeps}
use madaodv_ns.Protocol.Rerr.{
  fill_rerr, send_if_any, invalidate_routes_with_dst, reached_through, break_link,
  send_rerr_when_breaks_link_to_next_hop,
}

-- A table whose valid routes are all routes of the earlier table `t`.
abbrev pub Aged : RoutingTable → RoutingTable → Type 0
Aged t t' =
    IsSorted t'.entries
    × ((j : ℕ) (e : Entry)
        → find j t'.entries ≡ some e
        → e.flag ≡ valid
        → find j t.entries ≡ some e)

pub purge-Aged : (now : ℤ) (t t' : RoutingTable) → Aged t t' → Aged t (purge now t')
purge-Aged now t t' (s, old) =
    (purge-IsSorted now t' s, λ j e at f. old j e (valid_after_purge now j e t' s at f).0 f)

-- No valid route leads to the neighbor or goes through it.
abbrev pub IsLost : ℕ → RoutingTable → Type 0
IsLost next_hop t =
    (j : ℕ) (e : Entry)
    → find j t.entries ≡ some e
    → e.flag ≡ valid
    → ((j == next_hop) ≡ false) × ((get_next_hop e == next_hop) ≡ false)

survivor :
    (now bad : ℤ) (m : Map ℕ) (j : ℕ) (old e : Entry)
    → some (if is_some (find j m) && flag_eq old.flag valid then invalidate now bad old else old)
      ≡ some e
    → e.flag ≡ valid
    → (old ≡ e) × (find j m ≡ none)
unfolding invalidate flag_eq
survivor now bad m j old e h f = ground arith

find-invalidated :
    (now : ℤ) (m : Map ℕ) (t : RoutingTable) (j : ℕ)
    → IsSorted t.entries
    → find j (RoutingTable.invalidate_routes_with_dst now m t).entries
      ≡ elim (find j (purge now t).entries) [
        | none ↦ none
        | some e ↦ some (
            if is_some (find j m) && flag_eq e.flag valid
            then invalidate now t.bad_link_lifetime e
            else e)
      ]
unfolding apply
find-invalidated now m t j s = rw (find-purge now t j s) (apply_refines (invalidates now m) t j s)

pub valid_after_invalidate :
    (now : ℤ) (m : Map ℕ) (t : RoutingTable) (j : ℕ) (e : Entry)
    → IsSorted t.entries
    → find j (RoutingTable.invalidate_routes_with_dst now m t).entries ≡ some e
    → e.flag ≡ valid
    → (find j t.entries ≡ some e) × (find j m ≡ none)
valid_after_invalidate now m t j e s at f =
    let after = find-invalidated now m t j s in
    elim (Option-cases (find j (purge now t).entries)) [
      | inl gone ↦ ground (arith, after, gone)
      | inr (old, before) ↦
          let same = survivor now t.bad_link_lifetime m j old e (ground (arith, after, before)) f in
          ((valid_after_purge now j e t s (before ∙ ap some same.0) f).0, same.1)
    ]

-- What is listed is no longer valid afterwards, and every route through the neighbor is listed.
invalidate-IsLost :
    (now : ℤ) (next_hop seq_no : ℕ) (t t' : RoutingTable)
    → IsSorted t.entries
    → Aged (purge now t) t'
    → let reached = (RoutingTable.get_list_of_destination_with_next_hop now next_hop t).1 in
      IsLost next_hop
        (RoutingTable.invalidate_routes_with_dst now (insert next_hop seq_no reached) t')
invalidate-IsLost now next_hop seq_no t t' s (s', old) j e at f =
    let reached = (RoutingTable.get_list_of_destination_with_next_hop now next_hop t).1 in
    let (before, unlisted) =
      valid_after_invalidate now (insert next_hop seq_no reached) t' j e s' at f in
    ground (
      arith,
      unlisted,
      old j e before f,
      get_list_of_destination_with_next_hop_lem now next_hop j t s,
      find-insert j next_hop seq_no 0 reached (list-IsSorted now next_hop t s),
    )

module _ (w : World) where
  open w use {ns, now}

  break_link-IsLost :
      (next_hop : ℕ) (to_next_hop : Entry) (n : Node)
      → IsSorted n.table.entries
      → Keeps (λ t q. IsLost next_hop t) (break_link w next_hop to_next_hop n)
  unfolding break_link reached_through invalidate_routes_with_dst
      RoutingTable.get_list_of_destination_with_next_hop
  break_link-IsLost next_hop to_next_hop n s =
      elim (Option-cases
        (Headers.add_un_destination next_hop to_next_hop.seq_no Headers.make_rerr)) [
          | inl no_header ↦ rw (break_link, no_header) tt
          | inr (h, header) ↦
              let reached = reached_through w next_hop n in
              let filled_keeps =
                fill_rerr-KeepsFilled w (λ t q. Aged (purge now n.table) t)
                  (λ t q. purge-Aged now (purge now n.table) t) reached.1 h
                  (get_precursors to_next_hop []) reached.0
                  (purge-IsSorted now n.table s, λ j e at f. at) in
              elim (Option-cases
                (fill_rerr w reached.1 h (get_precursors to_next_hop []) reached.0)) [
                  | inl f ↦ rw (break_link, header, f) tt
                  | inr ((h', xs, m), f) ↦
                      let aged = (rw f at filled_keeps) in
                      elim (Option-cases (send_if_any w h' xs m)) [
                        | inl g ↦ rw (break_link, header, f, g) tt
                        | inr (n', g) ↦
                            rw (break_link, header, f, g)
                              (invalidate-IsLost now next_hop to_next_hop.seq_no n.table n'.table s
                                (rw g at (
                                  send_if_any-Keeps w (λ t q. Aged (purge now n.table) t)
                                    (λ t q. purge-Aged now (purge now n.table) t) h' xs m aged)))
                      ]
                ]
        ]

breaks_found :
    (w : World) (next_hop : ℕ) (n : Node) (e : Entry)
    → find next_hop (purge w.now n.table).entries ≡ some e
    → send_rerr_when_breaks_link_to_next_hop w next_hop n
      ≡ break_link w next_hop e (lookup_route w next_hop (blank w) n).0
unfolding send_rerr_when_breaks_link_to_next_hop lookup_route found RoutingTable.lookup_route
breaks_found w next_hop n e at = rw at refl

-- Where the table has an entry for the neighbor and its keys rise, no valid route leads to it or through it after
-- SendRerrWhenBreaksLinkToNextHop, if that fails no assertion: whatever was sent, and to whom.
pub send_rerr_when_breaks_link_to_next_hop_lem :
    (w : World) (next_hop : ℕ) (n n' : Node) (e : Entry)
    → IsSorted n.table.entries
    → find next_hop (purge w.now n.table).entries ≡ some e
    → send_rerr_when_breaks_link_to_next_hop w next_hop n ≡ some n'
    → IsLost next_hop n'.table
send_rerr_when_breaks_link_to_next_hop_lem w next_hop n n' e s at h =
    let m = (lookup_route w next_hop (blank w) n).0 in
    let sorted =
      lookup-keeps w (λ t q. IsSorted t.entries) (λ t q. purge-IsSorted w.now t) next_hop (blank w)
        n s in
    rw (sym (breaks_found w next_hop n e at) ∙ h) at (break_link-IsLost w next_hop e m sorted)
