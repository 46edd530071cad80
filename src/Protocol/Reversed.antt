-- ===== src/Protocol/Reversed.antt =====
-- The reverse route that `RecvRequest` makes towards the node that asks.
use madaodv_ns.Base.{
  ◌⊎◌, ℕ, ◌≡◌, refl, ◌∙◌, true, false, Option, none, some, arith, Option-cases, Bool-cases, inl,
  inr,
}
use madaodv_ns.Int.{ℤ, pos, ltb_ℤ}
use madaodv_ns.Map.{find}
use madaodv_ns.Map.Order.{find-write}
use madaodv_ns.Entry.{Entry, valid, flag_eq, get_destination, get_next_hop, make_entry}
use madaodv_ns.RoutingTable.{RoutingTable, found, purge, update, reset_unless_in_search}
use madaodv_ns.RoutingTable
use madaodv_ns.RoutingTable.Invariant.{IsValid, IsAt, purge-IsValid}
use madaodv_ns.RoutingTable.Stays.{find-purge-none, find-add_route}
use madaodv_ns.Map.Every.{find-Every}
use madaodv_ns.Headers.{RreqHeader}
use madaodv_ns.Protocol
use madaodv_ns.Protocol.{World, Node, lookup_route, update_route, blank, device_of, iface_of}
use madaodv_ns.Protocol.Freshness.{Newer}
use madaodv_ns.Protocol.Routes.{seq_diff}
use madaodv_ns.Protocol.RecvRequest.{newer_seq_no, reverse_entry, reverse_route, minimal_lifetime}

-- The number of the entry is valid, and `seq_no` can be compared with it and is not newer.
abbrev pub IsOlder : Entry → ℕ → Type 0
IsOlder old seq_no =
    (old.valid_seq_no ≡ true)
    × ((d : ℤ) × (seq_diff seq_no old.seq_no ≡ some d) × (ltb_ℤ (pos 0) d ≡ false))

-- What the entry `e` has from the one that there was, and from the request.
abbrev pub Follows : ℕ → Option Entry → Entry → Type 0
Follows seq_no none e = (e.seq_no ≡ seq_no) × (e.flag ≡ valid)
Follows seq_no (some old) e =
    (e.flag ≡ old.flag)
    × (((old.valid_seq_no ≡ false) × (e.seq_no ≡ seq_no))
        ⊎ ((Newer old.seq_no seq_no × (e.seq_no ≡ seq_no))
            ⊎ (IsOlder old seq_no × (e.seq_no ≡ old.seq_no))))

newer_seq_no_lem :
    (old : Entry) (s x : ℕ)
    → newer_seq_no old s ≡ some x
    → ((old.valid_seq_no ≡ false) × (x ≡ s))
      ⊎ ((Newer old.seq_no s × (x ≡ s)) ⊎ (IsOlder old s × (x ≡ old.seq_no)))
unfolding newer_seq_no
newer_seq_no_lem old s x h = elim (Bool-cases old.valid_seq_no) [
  | inr unknown ↦ inl (unknown, ground (arith, unknown))
  | inl known ↦ elim (Option-cases (seq_diff s old.seq_no)) [
    | inl over ↦ ground (arith, over, known)
    | inr (d, e) ↦ elim (Bool-cases (ltb_ℤ (pos 0) d)) [
      | inl up ↦ inr (inl ((d, e, up), ground (arith, e, up, known)))
      | inr same ↦ inr (inr ((known, (d, e, same)), ground (arith, e, same, known)))
    ]
  ]
]

-- The reverse route in the table.
pub record IsReverse (h : RreqHeader) (src : ℕ) (before after : Option Entry) : Type 0 where
  pub entry : Entry
  pub held : after ≡ some entry
  pub next_hop : get_next_hop entry ≡ src
  pub hops : entry.hops ≡ h.hop_count
  pub known : entry.valid_seq_no ≡ true
  pub follows : Follows h.origin_seq_no before entry

IsReverse-at :
    (h : RreqHeader) (src : ℕ) (before after : Option Entry) (e : Entry)
    → after ≡ some e
    → IsReverse h src before (some e)
    → IsReverse h src before after
IsReverse-at h src before after e at r = rw at r

pub find-update_route :
    (dst : ℕ) (new old : Entry) (t : RoutingTable)
    → get_destination new ≡ dst
    → find dst t.entries ≡ some old
    → find dst (update new t).0.entries ≡ some (reset_unless_in_search new)
unfolding update
find-update_route dst new old t d at =
    ground (arith, d, find-write dst dst (reset_unless_in_search new) t.entries)

module _ (w : World) where
  open w use {ns, now}

  reverse_entry-IsReverse :
      (h : RreqHeader) (receiver src s : ℕ) (t : ℤ) (old : Entry)
      → newer_seq_no old h.origin_seq_no ≡ some s
      → let new = reset_unless_in_search (reverse_entry w h receiver src s t old) in
        IsReverse h src (some old) (some new)
  unfolding reset_unless_in_search reverse_entry
  reverse_entry-IsReverse h receiver src s t old e =
      let from = newer_seq_no_lem old h.origin_seq_no s e in
      let new = reset_unless_in_search (reverse_entry w h receiver src s t old) in
      record {
        entry = new;
        held = refl;
        next_hop = ground arith;
        hops = ground arith;
        known = ground arith;
        follows = (
          ground arith,
          elim from [
            | inl (unknown, x) ↦ inl (unknown, ground (arith, x))
            | inr (inl (newer, x)) ↦ inr (inl (newer, ground (arith, x)))
            | inr (inr (older, x)) ↦ inr (inr (older, ground (arith, x)))
          ],
        );
      }

  reverse_entry-destination :
      (h : RreqHeader) (receiver src s : ℕ) (t : ℤ) (old : Entry)
      → get_destination (reverse_entry w h receiver src s t old) ≡ get_destination old
  unfolding reverse_entry
  reverse_entry-destination h receiver src s t old = refl

  new_entry-reset :
      (dev dst seq_no iface hops src : ℕ) (t : ℤ)
      → let new = make_entry ns now dev dst true seq_no iface hops src t in
        (get_destination new ≡ dst) × (reset_unless_in_search new ≡ new)
  unfolding make_entry reset_unless_in_search flag_eq
  new_entry-reset dev dst seq_no iface hops src t = (refl, refl)

  new_entry-IsReverse :
      (h : RreqHeader) (dev iface src : ℕ) (t : ℤ)
      → IsReverse h src none
          (some (make_entry ns now dev h.origin true h.origin_seq_no iface h.hop_count src t))
  unfolding make_entry
  new_entry-IsReverse h dev iface src t = record {
    entry = make_entry ns now dev h.origin true h.origin_seq_no iface h.hop_count src t;
    held = refl;
    next_hop = refl;
    hops = refl;
    known = refl;
    follows = (refl, refl);
  }

-- What `RecvRequest` has made of the table, of which `n` held `before` for the originator.
abbrev pub Reversed : RreqHeader → ℕ → Option Entry → Option (Node × Entry) → Type 0
Reversed h src none none = ⊥
Reversed h src (some old) none = seq_diff h.origin_seq_no old.seq_no ≡ none
Reversed h src before (some (n', to_origin)) =
    let t = n'.table in IsReverse h src before (find h.origin t.entries)

newer_seq_no-none : (old : Entry) (s : ℕ) → newer_seq_no old s ≡ none → seq_diff s old.seq_no ≡ none
unfolding newer_seq_no
newer_seq_no-none old s h = ground arith

-- The step of `RecvRequest` that makes the reverse route, with a request `h` whose hop count has been
-- incremented, at a node with a well-formed table: afterwards the table has an entry for the
-- originator, through the neighbor the request came from and with the hop count of `h`. If there was none (that had not expired), it is valid and
-- has the request's sequence number. If there was one, it stays valid, invalid or in search as it
-- was, and its sequence number is the request's if that is newer or the old one was not known, and
-- else the old one. It fails only where the comparison of the numbers overflows.
pub reverse_route_lem :
    (w : World) (h : RreqHeader) (receiver src : ℕ) (n : Node)
    → IsValid n.table
    → Reversed h src
        (find h.origin (purge w.now n.table).entries)
        (reverse_route w h receiver src n)
unfolding reverse_route lookup_route found update_route
reverse_route_lem w h receiver src n v =
    let live = purge w.now n.table in
    let v' = purge-IsValid w.now n.table v in
    unfold RoutingTable.lookup_route in
    elim (Option-cases (find h.origin live.entries)) [
      | inl gone ↦ rw gone (
          unfold Protocol.add_route in
          (let dev = device_of w receiver in
            let iface = iface_of w receiver in
            let life = minimal_lifetime w h.hop_count n in
            let new =
              make_entry w.ns w.now dev h.origin true h.origin_seq_no iface h.hop_count src life in
            let (dst, reset) =
              new_entry-reset w dev h.origin h.origin_seq_no iface h.hop_count src life in
            rw
              (find-add_route w.now h.origin new live v' dst reset
                (find-purge-none w.now h.origin live v' gone))
              (new_entry-IsReverse w h dev iface src life)))
      | inr (old, at) ↦ rw at (elim (Option-cases (newer_seq_no old h.origin_seq_no)) [
        | inl over ↦ rw over (newer_seq_no-none old h.origin_seq_no over)
        | inr (s, e) ↦ rw e (
            let life = minimal_lifetime w h.hop_count n in
            let new = reverse_entry w h receiver src s life old in
            let dst =
              reverse_entry-destination w h receiver src s life old
              ∙ find-Every IsAt h.origin old live.entries v'.keyed at in
            IsReverse-at h src (some old) _ (reset_unless_in_search new)
              (ground (arith, at, find-update_route h.origin new old live dst at))
              (reverse_entry-IsReverse w h receiver src s life old e))
      ])
    ]
