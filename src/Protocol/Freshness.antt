-- ===== src/Protocol/Freshness.antt =====
-- A route reply never makes a route older: which reply replaces an entry, and what follows.
use madaodv_ns.Base.{
  ◌⊎◌, ◌≢◌, ◌<◌, ℕ, ◌≤◌, ◌≡◌, refl, true, false, Option, none, some, arith, Option-cases,
  Bool-cases, inl, inr,
}
use madaodv_ns.Int.{ℤ, pos, ltb_ℤ}
use madaodv_ns.Map.{find}
use madaodv_ns.Entry.{Entry, valid, flag_eq, get_destination, make_entry}
use madaodv_ns.RoutingTable.{RoutingTable, found, purge, update, reset_unless_in_search}
use madaodv_ns.RoutingTable
use madaodv_ns.RoutingTable.Invariant.{IsValid, purge-IsValid}
use madaodv_ns.RoutingTable.Stays.{find-purge-none, find-update, find-add_route}
use madaodv_ns.Headers.{RrepHeader}
use madaodv_ns.Protocol
use madaodv_ns.Protocol.{World, Node, lookup_route, update_route, blank}
use madaodv_ns.Protocol.Routes.{seq_diff}
use madaodv_ns.Protocol.RecvReply.{replaces, reply_entry, forward_route}

-- `b` is newer than `a`, in the circular order of the sequence numbers.
abbrev pub Newer : ℕ → ℕ → Type 0
Newer a b = (d : ℤ) × (seq_diff b a ≡ some d) × (ltb_ℤ (pos 0) d ≡ true)

-- The entry `new` replaces `old`: the sequence number of `old` was not valid, or that of `new` is
-- newer, or it is the same and the route was inactive or `new` is shorter.
abbrev pub Fresher : Entry → Entry → Type 0
Fresher old new =
    (old.valid_seq_no ≡ false)
    ⊎ (Newer old.seq_no new.seq_no
        ⊎ ((new.seq_no ≡ old.seq_no) × ((flag_eq old.flag valid ≡ false) ⊎ (new.hops < old.hops))))

-- It does not: the number of `old` was valid, and that of `new` can be compared with it and is not
-- newer, and if it is the same, the route was active and `new` is not shorter.
abbrev pub Staler : Entry → Entry → Type 0
Staler old new =
    (old.valid_seq_no ≡ true)
    × ((d : ℤ) × (seq_diff new.seq_no old.seq_no ≡ some d) × (ltb_ℤ (pos 0) d ≡ false))
    × ((new.seq_no ≢ old.seq_no) ⊎ ((flag_eq old.flag valid ≡ true) × (old.hops ≤ new.hops)))

replaces-Fresher :
    (old new : Entry) → replaces new.seq_no new.hops old ≡ some true → Fresher old new
unfolding replaces
replaces-Fresher old new h = elim (Option-cases (seq_diff new.seq_no old.seq_no)) [
  | inl over ↦ ground (arith, over)
  | inr (d, e) ↦ elim (Bool-cases (ltb_ℤ (pos 0) d)) [
    | inl up ↦ inr (inl (d, e, up))
    | inr same ↦ ground (arith, e, same)
  ]
]

replaces-Staler : (old new : Entry) → replaces new.seq_no new.hops old ≡ some false → Staler old new
unfolding replaces
replaces-Staler old new h = elim (Option-cases (seq_diff new.seq_no old.seq_no)) [
  | inl over ↦ ground (arith, over)
  | inr (d, e) ↦
      let known : old.valid_seq_no ≡ true = ground (arith, e) in
      let low : ltb_ℤ (pos 0) d ≡ false = ground (arith, e) in
      (known, (d, e, low), ground (arith, e, known, low))
]

-- What a reply makes of the table `t`, the entries that had expired left out: where it meets no
-- entry for its destination, `new` is stored; an entry is replaced by `new` exactly where that is
-- fresher, and else kept; and it fails only where the sequence numbers cannot be compared.
abbrev pub Routed : ℕ → Entry → RoutingTable → Option (Node × Entry) → Type 0
Routed dst new t none =
    (old : Entry) × (find dst t.entries ≡ some old)
    × (old.valid_seq_no ≡ true)
    × (seq_diff new.seq_no old.seq_no ≡ none)
Routed dst new t (some (n', to_dst)) =
    let after = (let t' = n'.table in find dst t'.entries) in
    ((find dst t.entries ≡ none) × (after ≡ some new))
    ⊎ ((old : Entry) × (find dst t.entries ≡ some old)
        × (((after ≡ some old) × Staler old new) ⊎ ((after ≡ some new) × Fresher old new)))

pub reply_entry-reset :
    (w : World) (h : RrepHeader) (receiver sender : ℕ)
    → reset_unless_in_search (reply_entry w h receiver sender) ≡ reply_entry w h receiver sender
unfolding reset_unless_in_search reply_entry make_entry flag_eq
reply_entry-reset w h receiver sender = refl

pub reply_entry-fields :
    (w : World) (h : RrepHeader) (receiver sender : ℕ)
    → let e = reply_entry w h receiver sender in
      (get_destination e ≡ h.dst) × (e.seq_no ≡ h.dst_seq_no) × (e.hops ≡ h.hop_count)
unfolding reply_entry make_entry
reply_entry-fields w h receiver sender = (refl, refl, refl)

replaces-none :
    (seq_no hop : ℕ) (old : Entry)
    → replaces seq_no hop old ≡ none
    → (old.valid_seq_no ≡ true) × (seq_diff seq_no old.seq_no ≡ none)
unfolding replaces
replaces-none seq_no hop old h = ground arith

module _ (w : World) where
  open w use {ns, now}

  forward_route-Routed :
      (h : RrepHeader) (new : Entry) (n : Node)
      → IsValid n.table
      → (get_destination new ≡ h.dst) × (new.seq_no ≡ h.dst_seq_no) × (new.hops ≡ h.hop_count)
      → reset_unless_in_search new ≡ new
      → Routed h.dst new (purge now n.table) (forward_route w h new n)
  unfolding forward_route lookup_route found
  forward_route-Routed h new n v (d, s, k) r =
      let w' = purge-IsValid now n.table v in
      unfold RoutingTable.lookup_route in
      elim (Option-cases (find h.dst (purge now n.table).entries)) [
        | inl gone ↦ rw gone (
            unfold Protocol.add_route in
            inl (
              gone,
              find-add_route now h.dst new (purge now n.table) w' d r
                  (find-purge-none now h.dst (purge now n.table) w' gone),
            ))
        | inr (old, at) ↦ rw at (elim (Option-cases (replaces h.dst_seq_no h.hop_count old)) [
          | inl over ↦ rw over (
              let (known, none_) = replaces-none h.dst_seq_no h.hop_count old over in
              (old, at, known, rw s none_))
          | inr (true, e) ↦ rw e (
              unfold update_route in
              inr (
                old,
                at,
                inr (
                  ground (arith, at, find-update h.dst new old (purge now n.table) d r at),
                  replaces-Fresher old new (rw (s, k) e),
                ),
              ))
          | inr (false, e) ↦
              rw e (inr (old, at, inl (ground (arith, at), replaces-Staler old new (rw (s, k) e))))
        ])
      ]

-- After the part of RecvReply that makes the route, on a valid table without its expired entries,
-- the table holds at the destination the entry of the reply where there was none. Where there was
-- one, it holds that of the reply if its sequence number is newer, or the old one was not valid, or
-- the numbers are the same and the route was inactive or is longer; and else the old one. It fails
-- only where a valid number is compared and the comparison overflows.
pub forward_route_lem :
    (w : World) (h : RrepHeader) (receiver sender : ℕ) (n : Node)
    → IsValid n.table
    → let new = reply_entry w h receiver sender in
      Routed h.dst new (purge w.now n.table) (forward_route w h new n)
forward_route_lem w h receiver sender n v =
    forward_route-Routed w h (reply_entry w h receiver sender) n v
      (reply_entry-fields w h receiver sender) (reply_entry-reset w h receiver sender)
