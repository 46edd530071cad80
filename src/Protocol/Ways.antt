-- ===== src/Protocol/Ways.antt =====
-- What a request does to the routing table: the route back to its originator, and that to the
-- neighbor it came from.
use madaodv_ns.Base.{
  ◌==◌, ℕ, ◌≡◌, refl, ap, ◌∙◌, Bool, if◌then◌else◌, true, false, Option, none, some, [], is_some,
  arith, Option-cases, inl, inr,
}
use madaodv_ns.Int.{ℤ, pos, ◌≤ℤ◌, ◌+ℤ◌, max_ℤ, +ℤ_cancel, max_ℤ_le_left, ltb_ℤ-false}
use madaodv_ns.Map.{find}
use madaodv_ns.Map.Every.{find-Every}
use madaodv_ns.Entry.{Entry, is_outdated, get_destination, get_life_time, make_entry, flag_eq}
use madaodv_ns.RoutingTable.{RoutingTable, purge, add_route, update, reset_unless_in_search}
use madaodv_ns.RoutingTable.Invariant.{
  IsValid, IsAt, purge-IsValid, update-IsValid, add_route-IsValid,
}
use madaodv_ns.RoutingTable.Stays.{find-purge-none, find-add_route}
use madaodv_ns.Headers.{RreqHeader}
use madaodv_ns.Neighbors
use madaodv_ns.Protocol
use madaodv_ns.Protocol.{
  World, Node, Message, Action, sends, rrep_message, lookup_route, update_route, blank, device_of,
  iface_of, is_my_own_address, find_socket, find_socket_with_interface_address, emit,
}
use madaodv_ns.Protocol.Routes.{seq_diff}
use madaodv_ns.Protocol.RecvRequest.{
  newer_seq_no, minimal_lifetime, reverse_entry, reverse_route, neighbor_route, neighbor_entry,
}
use madaodv_ns.Protocol.Rerr.{update_neighbor, handle_link_failures}
use madaodv_ns.Protocol.Reversed.{find-update_route}
use madaodv_ns.Protocol.Lacks.{Lacks, purge-Lacks, update-Lacks, add_route-Lacks}
use madaodv_ns.Protocol.LeadsBack.{
  Leads, LeadsBack, purge-LeadsBack, update-LeadsBack, add_route-LeadsBack, lookup_route-found,
  lookup_route-missed,
}

-- The sequence number of the request can be compared with that of the entry, if there is one.
abbrev pub Comparable : ℕ → Option Entry → Type 0
Comparable s none = Unit
Comparable s (some old) = is_some (seq_diff s old.seq_no) ≡ true

pub alive_lem :
    (now t : ℤ) (e : Entry) → e.life_time ≡ t +ℤ now → pos 0 ≤ℤ t → is_outdated now e ≡ false
unfolding is_outdated
alive_lem now t e l p = rw (l, +ℤ_cancel) (ltb_ℤ-false t (pos 0) p)

newer_seq_no-some :
    (old : Entry) (s : ℕ)
    → is_some (seq_diff s old.seq_no) ≡ true
    → (x : ℕ) × (newer_seq_no old s ≡ some x)
unfolding newer_seq_no
newer_seq_no-some old s h = elim (Option-cases (seq_diff s old.seq_no)) [
  | inl e ↦ absurd (ground (arith, e, h))
  | inr (d, e) ↦ elim (Option-cases (newer_seq_no old s)) [
    | inl f ↦ absurd (ground (arith, e, f))
    | inr f ↦ f
  ]
]

module _ (w : World) where
  open w use {ns, now}

  reverse_entry-Leads :
      (h : RreqHeader) (receiver src s : ℕ) (t : ℤ) (old : Entry)
      → pos 0 ≤ℤ t
      → Leads now src
          (iface_of w receiver)
          (reset_unless_in_search (reverse_entry w h receiver src s t old))
  unfolding reverse_entry reset_unless_in_search
  reverse_entry-Leads h receiver src s t old p =
      let rt = reverse_entry w h receiver src s t old in
      record {
        next_hop = ground arith;
        through = ground arith;
        alive =
            alive_lem now (max_ℤ t (get_life_time now old)) (reset_unless_in_search rt)
              (ground arith) (omega (arith, max_ℤ_le_left t (get_life_time now old)));
      }

  -- The node with the purged table.
  abbrev swept : Node → Node
  swept n = record n { table = purge now n.table }

  reverse_route-new :
      (h : RreqHeader) (receiver src : ℕ) (n : Node)
      → find h.origin (purge now n.table).entries ≡ none
      → reverse_route w h receiver src n
        ≡ some (
          Protocol.add_route w
              (make_entry ns now
                (device_of w receiver)
                h.origin
                true
                h.origin_seq_no
                (iface_of w receiver)
                h.hop_count
                src
                (minimal_lifetime w h.hop_count n))
              (swept n),
          blank w,
        )
  unfolding reverse_route
  reverse_route-new h receiver src n gone =
      rw (lookup_route-missed w h.origin (blank w) n gone) refl

  reverse_route-old :
      (h : RreqHeader) (receiver src s : ℕ) (n : Node) (old : Entry)
      → find h.origin (purge now n.table).entries ≡ some old
      → newer_seq_no old h.origin_seq_no ≡ some s
      → let new = reverse_entry w h receiver src s (minimal_lifetime w h.hop_count n) old in
        reverse_route w h receiver src n ≡ some (update_route new (swept n), new)
  unfolding reverse_route
  reverse_route-old h receiver src s n old at e =
      let life = minimal_lifetime w h.hop_count n in
      ap
        (λ (r : Node × Bool × Entry).
          if r.1
          then elim (newer_seq_no r.2 h.origin_seq_no) [
            | none ↦ none
            | some s' ↦
                let new = reverse_entry w h receiver src s' life r.2 in
                some (update_route new r.0, new)
          ]
          else some (
            Protocol.add_route w
                (make_entry ns now (device_of w receiver) h.origin true h.origin_seq_no
                  (iface_of w receiver) h.hop_count src life)
                r.0,
            r.2,
          ))
        (lookup_route-found w h.origin (blank w) old n at)
      ∙ rw e refl

  -- No entry is made but for one destination.
  abbrev pub KeepsOthers : ℕ → RoutingTable → RoutingTable → Type 0
  KeepsOthers k t t' = (dst : ℕ) → (dst == k) ≡ false → Lacks dst t → Lacks dst t'

  -- The table that the first step leaves.
  pub reverse_route-LeadsBack :
      (h : RreqHeader) (receiver src : ℕ) (n : Node)
      → IsValid n.table
      → Comparable h.origin_seq_no (find h.origin (purge now n.table).entries)
      → pos 0 ≤ℤ minimal_lifetime w h.hop_count n
      → (t : RoutingTable) × (rt : Entry) × (reverse_route w h receiver src n
          ≡ some (record n { table = t }, rt))
        × LeadsBack now h.origin src (iface_of w receiver) t
        × KeepsOthers h.origin n.table t
  reverse_route-LeadsBack h receiver src n v c p =
      let live = purge now n.table in
      let v' = purge-IsValid now n.table v in
      let life = minimal_lifetime w h.hop_count n in
      let iface = iface_of w receiver in
      elim (Option-cases (find h.origin live.entries)) [
        | inl gone ↦
            let new =
              make_entry ns now (device_of w receiver) h.origin true h.origin_seq_no iface
                h.hop_count src life in
            (
              (add_route now new live).0,
              blank w,
              unfold Protocol.add_route in reverse_route-new h receiver src n gone,
              record {
                table_valid = add_route-IsValid now new live v';
                entry = new;
                at =
                    find-add_route now h.origin new live v' (unfold make_entry in refl)
                      (unfold make_entry reset_unless_in_search flag_eq in refl)
                      (find-purge-none now h.origin live v' gone);
                leads = record {
                  next_hop = unfold make_entry in refl;
                  through = unfold make_entry in refl;
                  alive = alive_lem now life new (unfold make_entry in refl) p;
                };
              },
              λ d other l.
                  add_route-Lacks now d new live (unfold make_entry in other)
                    (purge-Lacks now d n.table l),
            )
        | inr (old, at) ↦
            let (s, e) = newer_seq_no-some old h.origin_seq_no (rw at at c) in
            let new = reverse_entry w h receiver src s life old in
            let dst : get_destination new ≡ h.origin =
              unfold reverse_entry in find-Every IsAt h.origin old live.entries v'.keyed at in
            (
              (update new live).0,
              new,
              unfold update_route in reverse_route-old h receiver src s n old at e,
              record {
                table_valid = update-IsValid new live v';
                entry = reset_unless_in_search new;
                at = find-update_route h.origin new old live dst at;
                leads = reverse_entry-Leads h receiver src s life old p;
              },
              λ d other l. update-Lacks d new live (rw dst other) (purge-Lacks now d n.table l),
            )
      ]

  -- The table that the step for the neighbor leaves.
  pub neighbor_route-LeadsBack :
      (h : RreqHeader) (receiver src : ℕ) (n : Node)
      → (let c = n.config in pos 0 ≤ℤ c.active_route_timeout)
      → LeadsBack now h.origin src (iface_of w receiver) n.table
      → (t : RoutingTable) × (neighbor_route w h receiver src n ≡ record n { table = t })
        × LeadsBack now h.origin src (iface_of w receiver) t
        × KeepsOthers src n.table t
  unfolding neighbor_route
  neighbor_route-LeadsBack h receiver src n p b =
      let c = n.config in
      let iface = iface_of w receiver in
      let live = purge now n.table in
      let b' = purge-LeadsBack now h.origin src iface n.table b in
      elim (Option-cases (find src live.entries)) [
        | inl gone ↦ (
          (add_route now
              (make_entry ns now (device_of w receiver) src false h.origin_seq_no iface 1 src
                c.active_route_timeout)
              live).0,
          rw (lookup_route-missed w src (blank w) n gone) (unfold Protocol.add_route in refl),
          add_route-LeadsBack now h.origin src iface _ live b',
          λ d other l.
              add_route-Lacks now d _ live (unfold make_entry in other)
                (purge-Lacks now d n.table l),
        )
        | inr (e, at) ↦
            let new = neighbor_entry w h receiver src c e in
            let v = b'.table_valid in
            let keyed : get_destination e ≡ src = find-Every IsAt src e live.entries v.keyed at in
            (
              (update new live).0,
              rw (lookup_route-found w src (blank w) e n at)
                  (unfold update_route neighbor_entry in refl),
              update-LeadsBack now h.origin src iface new live
                  (λ same.
                    unfold neighbor_entry in
                    record {
                      next_hop = refl;
                      through = refl;
                      alive =
                          alive_lem now c.active_route_timeout new (unfold neighbor_entry in refl)
                            p;
                    })
                  b',
              λ d other l.
                  update-Lacks d new live (unfold neighbor_entry in rw keyed other)
                    (purge-Lacks now d n.table l),
            )
      ]

  -- The neighbor is still there, and so is every other.
  pub update_neighbor-quiet :
      (a : ℕ) (t : ℤ) (n : Node)
      → (Neighbors.update w.arp now a t n.nb).1 ≡ []
      → update_neighbor w a t n ≡ some (record n { nb = (Neighbors.update w.arp now a t n.nb).0 })
  unfolding update_neighbor handle_link_failures
  update_neighbor-quiet a t n quiet = rw quiet refl
