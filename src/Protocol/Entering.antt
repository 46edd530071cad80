-- ===== src/Protocol/Entering.antt =====
-- A message comes in: `RecvMadaodv` updates the route to its sender, and hands it to its handler. A
-- search goes on, or its entry has become the route to the sender.
use madaodv_ns.Base.{
  ◌⊎◌, ◌==◌, ◌&&◌, ℕ, ◌≡◌, refl, ◌∙◌, false, Option, none, some, arith, Option-cases, Bool-cases,
  inl, inr,
}
use madaodv_ns.Int.{ℤ, max_ℤ}
use madaodv_ns.Map.{find}
use madaodv_ns.Map.Order.{find-insert}
use madaodv_ns.Entry.{
  Entry, in_search, flag_eq, get_destination, get_output_device, get_life_time, make_entry,
  invalidate, is_outdated,
}
use madaodv_ns.RoutingTable.{
  RoutingTable, purge, purge_entry, update, add_route, reset_unless_in_search,
}
use madaodv_ns.RoutingTable.Spec.{find-purge}
use madaodv_ns.RoutingTable.Invariant.{IsValid, purge-IsValid, update-IsValid, add_route-IsValid}
use madaodv_ns.RoutingTable.Agrees.{update-Agrees}
use madaodv_ns.RoutingTable.Stays.{find-update, find-purge-none, find-purge-in_search}
use madaodv_ns.Protocol
use madaodv_ns.Protocol.{
  World, Node, Message, update_route, lookup_route, blank, device_of, iface_of, ◌>>=◌,
}
use madaodv_ns.Protocol.Routes.{update_route_to_neighbor}
use madaodv_ns.Protocol.Handlers.{receiver_iface, dispatch, recv_madaodv}
use madaodv_ns.Protocol.LeadsBack.{lookup_route-found, lookup_route-missed}

-- A message comes in: the world at that time, its TTL, the socket with its interface, and the
-- neighbor that sent it.
pub record Step : Type 0 where
  pub w : World
  pub ttl : ℕ
  pub socket : ℕ
  pub iface : ℕ
  pub sender : ℕ

abbrev pub receiver : Step → ℕ
receiver x = let w = x.w in let ns = w.ns in ns.local x.iface

abbrev pub entering : Step → Node → Node
entering x n = update_route_to_neighbor x.w x.sender (receiver x) n

abbrev pub comes_in : Step → Message → Node → Option Node
comes_in x m n = recv_madaodv x.w x.socket x.sender x.ttl (some m) n

pub comes_in_lem :
    (x : Step) (m : Message) (n : Node)
    → receiver_iface x.socket n ≡ some x.iface
    → comes_in x m n ≡ dispatch x.w x.ttl m (receiver x) x.sender (entering x n)
unfolding recv_madaodv
comes_in_lem x m n at = rw at refl

pub receiver_iface_lem :
    (socket iface : ℕ) (n : Node)
    → find socket n.socket_addresses ≡ some iface
    → receiver_iface socket n ≡ some iface
unfolding receiver_iface
receiver_iface_lem socket iface n at = rw (receiver_iface, at) refl

-- The entry for `dst` in `t`, which was `e`: it is still that, or it is one without a valid sequence
-- number and not in search.
abbrev pub Ready : ℤ → ℕ → Entry → RoutingTable → Type 0
Ready now dst e t =
    (find dst t.entries ≡ some e)
    ⊎ ((e' : Entry) × (find dst (purge now t).entries ≡ some e')
        × (e'.valid_seq_no ≡ false)
        × (flag_eq e'.flag in_search ≡ false))

module _ (w : World) (dst sender receiver : ℕ) (e : Entry) where
  open w use {ns, now}

  met : ℤ → Entry
  met t = make_entry ns now (device_of w receiver) sender false 0 (iface_of w receiver) 1 sender t

  add_route-Ready :
      (t : ℤ) (live : RoutingTable)
      → IsValid live
      → find dst live.entries ≡ some e
      → e.flag ≡ in_search
      → find sender live.entries ≡ none
      → find dst (add_route now (met t) live).0.entries ≡ some e
  unfolding add_route met make_entry reset_unless_in_search flag_eq
  add_route-Ready t live v at s gone =
      let v' = purge-IsValid now live v in
      ground (
        arith,
        at,
        gone,
        find-purge-in_search now dst live e v at s,
        find-purge-none now sender live v gone,
        find-insert dst sender (met t) 0 (purge now live).entries v'.sorted,
      )

  -- The new entry is written as it is.
  met-reset :
      (t : ℤ) → (get_destination (met t) ≡ sender) × (reset_unless_in_search (met t) ≡ met t)
  unfolding met make_entry reset_unless_in_search flag_eq
  met-reset t = (refl, refl)

  update-others :
      (t : ℤ) (live : RoutingTable)
      → find dst live.entries ≡ some e
      → (dst == sender) ≡ false
      → find dst (update (met t) live).0.entries ≡ some e
  update-others t live at other =
      let (d, _) = met-reset t in (update-Agrees sender (met t) live d).0 dst other ∙ at

  met-aged :
      (bad t : ℤ)
      → (e' : Entry) × (purge_entry now bad dst (met t) ≡ some e')
        × (e'.valid_seq_no ≡ false)
        × (flag_eq e'.flag in_search ≡ false)
  unfolding purge_entry met make_entry invalidate flag_eq
  met-aged bad t = elim (Bool-cases (is_outdated now (met t))) [
    | inl old ↦ (invalidate now bad (met t), rw old refl, refl, refl)
    | inr fresh ↦ (met t, rw fresh refl, refl, refl)
  ]

  update-Ready :
      (t : ℤ) (live : RoutingTable)
      → IsValid live
      → find dst live.entries ≡ some e
      → Ready now dst e (update (met t) live).0
  update-Ready t live v at =
      let v' = update-IsValid (met t) live v in
      elim (Bool-cases (dst == sender)) [
        | inr other ↦ inl (update-others t live at other)
        | inl same ↦
            let (d, reset) = met-reset t in
            let t' = (update (met t) live).0 in
            let here : sender ≡ dst = ground (arith, same) in
            let written = find-update dst (met t) e live (d ∙ here) reset at in
            let (e', aged, unknown, settled) = met-aged t'.bad_link_lifetime t in
            inr
              (e', ground (arith, written, aged, find-purge now t' dst v'.sorted), unknown, settled)
      ]

  pub update_route_to_neighbor-Ready :
      (n : Node)
      → IsValid n.table
      → find dst n.table.entries ≡ some e
      → e.flag ≡ in_search
      → (t : RoutingTable) × (update_route_to_neighbor w sender receiver n ≡ record n { table = t })
        × IsValid t
        × Ready now dst e t
  unfolding update_route_to_neighbor met
  update_route_to_neighbor-Ready n v at s =
      let c = n.config in
      let live = purge now n.table in
      let v1 = purge-IsValid now n.table v in
      let at1 = find-purge-in_search now dst n.table e v at s in
      elim (Option-cases (find sender live.entries)) [
        | inl gone ↦ (
          (add_route now (met c.active_route_timeout) live).0,
          rw (lookup_route-missed w sender (blank w) n gone) (unfold Protocol.add_route in refl),
          add_route-IsValid now _ live v1,
          inl (add_route-Ready c.active_route_timeout live v1 at1 s gone),
        )
        | inr (old, known) ↦
            elim (Bool-cases (
              old.valid_seq_no
              && ((old.hops == 1) && (get_output_device old == device_of w receiver)))) [
                | inl kept ↦ (
                  live,
                  rw (lookup_route-found w sender (blank w) old n known) (rw kept refl),
                  v1,
                  inl at1,
                )
                | inr new ↦ (
                  (update (met (max_ℤ c.active_route_timeout (get_life_time now old))) live).0,
                  rw (lookup_route-found w sender (blank w) old n known)
                      (rw new (unfold update_route in refl)),
                  update-IsValid _ live v1,
                  update-Ready _ live v1 at1,
                )
              ]
      ]
