-- ===== src/Protocol/Duplicates.antt =====
-- A route request is processed once: what `RecvRequest` makes of one that it has met before, and of
-- one that the node itself sent.
use madaodv_ns.Base.{
  ℕ, ◌≡◌, true, false, Option, some, [], ◌∷◌, ◌==◌, any, arith, Option-cases, Bool-cases, inl, inr,
}
use madaodv_ns.Int.{ℤ, ◌≤ℤ◌, ◌+ℤ◌, ltb_ℤ-false}
use madaodv_ns.Map.{Map, find}
use madaodv_ns.RoutingTable.{found, purge}
use madaodv_ns.RoutingTable
use madaodv_ns.IdCache.{IdCache, is_duplicate}
use madaodv_ns.IdCache
use madaodv_ns.IdCache.Memory.{remembers, is_duplicate_lem, remembers-is_duplicate}
use madaodv_ns.Headers.{RreqHeader}
use madaodv_ns.Protocol.{World, Node, lookup_route, send_later, emit}
use madaodv_ns.Protocol.Request.{broadcast_rreq}
use madaodv_ns.Protocol.RecvRequest.{recv_request}

-- The node after a request that it ignores: expired routes, and perhaps expired ids, are gone.
abbrev pub IsIgnored : World → Node → Option Node → Type 0
IsIgnored w n result =
    (c : IdCache) × (result ≡ some (record n { table = purge w.now n.table; rreq_id_cache = c }))

-- A request whose originator and id the cache remembers is ignored, whoever sent it on.
pub recv_request-IsIgnored :
    (w : World) (ttl : ℕ) (h : RreqHeader) (receiver src : ℕ) (n : Node)
    → remembers w.now h.origin h.request_id n.rreq_id_cache ≡ true
    → IsIgnored w n (recv_request w ttl h receiver src n)
unfolding recv_request lookup_route found
recv_request-IsIgnored w ttl h receiver src n m =
    unfold RoutingTable.lookup_route in
    let seen = is_duplicate_lem w.now h.origin h.request_id n.rreq_id_cache in
    elim (Option-cases (find src (purge w.now n.table).entries)) [
      | inl gone ↦ (
        (is_duplicate w.now h.origin h.request_id n.rreq_id_cache).0,
        ground (arith, gone, seen, m),
      )
      | inr (e, at) ↦ elim (Bool-cases e.black_list_state) [
        | inl black ↦ (n.rreq_id_cache, ground (arith, at, black))
        | inr white ↦ (
          (is_duplicate w.now h.origin h.request_id n.rreq_id_cache).0,
          ground (arith, at, white, seen, m),
        )
      ]
    ]

is_duplicate-lifetime :
    (now : ℤ) (addr id : ℕ) (c : IdCache) → (is_duplicate now addr id c).0.lifetime ≡ c.lifetime
unfolding is_duplicate IdCache.purge
is_duplicate-lifetime now addr id c = ground arith

module _ (w : World) where
  open w use {ns, now}

  broadcast_rreq-keeps_ids :
      (until : ℤ) (a i : ℕ) (ttl : ℕ) (h : RreqHeader) (sockets : Map ℕ) (n : Node)
      → now ≤ℤ until
      → remembers until a i n.rreq_id_cache ≡ true
      → remembers until a i (broadcast_rreq w ttl h sockets n).rreq_id_cache ≡ true
  unfolding broadcast_rreq send_later emit
  broadcast_rreq-keeps_ids until a i ttl h [] n l m = m
  broadcast_rreq-keeps_ids until a i ttl h ((socket, iface) ∷ sockets) n l m =
      broadcast_rreq-keeps_ids until a i ttl h sockets _ l (
        ground (
          arith,
          remembers-is_duplicate now until (ns.local iface) n.request_id a i n.rreq_id_cache l,
        ))

  broadcast_rreq-remembers :
      (until : ℤ) (addr : ℕ) (ttl : ℕ) (h : RreqHeader) (sockets : Map ℕ) (n : Node)
      → now ≤ℤ until
      → until ≤ℤ n.rreq_id_cache.lifetime +ℤ now
      → any (λ s. addr == ns.local s.1) sockets ≡ true
      → remembers now addr n.request_id n.rreq_id_cache ≡ false
      → remembers until addr n.request_id (broadcast_rreq w ttl h sockets n).rreq_id_cache ≡ true
  unfolding broadcast_rreq send_later emit any
  broadcast_rreq-remembers until addr ttl h [] n l u m new = ground (arith, m)
  broadcast_rreq-remembers until addr ttl h ((socket, iface) ∷ sockets) n l u m new =
      elim (Bool-cases (addr == ns.local iface)) [
        | inl same ↦ broadcast_rreq-keeps_ids until addr n.request_id ttl h sockets _ l (
            ground (
              arith,
              same,
              new,
              u,
              ltb_ℤ-false (n.rreq_id_cache.lifetime +ℤ now) until u,
              remembers-is_duplicate now until (ns.local iface) n.request_id addr n.request_id
                  n.rreq_id_cache l,
            ))
        | inr other ↦
            broadcast_rreq-remembers until addr ttl h sockets _ l
              (rw (is_duplicate-lifetime now (ns.local iface) n.request_id n.rreq_id_cache) u)
              (ground (arith, other, m))
              (ground (
                arith,
                other,
                new,
                remembers-is_duplicate now now (ns.local iface) n.request_id addr n.request_id
                    n.rreq_id_cache (omega arith),
              ))
      ]

-- A request that the node has just sent through all its sockets is ignored when a neighbor sends it
-- back, through whichever socket it went out, until the lifetime of the id cache is over; if its id
-- was new.
pub broadcast_rreq-IsIgnored :
    (w w' : World) (addr receiver src ttl back : ℕ) (h g : RreqHeader) (sockets : Map ℕ) (n : Node)
    → w.now ≤ℤ w'.now
    → w'.now ≤ℤ n.rreq_id_cache.lifetime +ℤ w.now
    → any (λ s. addr == w.ns.local s.1) sockets ≡ true
    → remembers w.now addr n.request_id n.rreq_id_cache ≡ false
    → g.origin ≡ addr
    → g.request_id ≡ n.request_id
    → let sent = broadcast_rreq w ttl h sockets n in
      IsIgnored w' sent (recv_request w' back g receiver src sent)
broadcast_rreq-IsIgnored w w' addr receiver src ttl back h g sockets n l u m new o i =
    recv_request-IsIgnored w' back g receiver src (broadcast_rreq w ttl h sockets n)
      (rw (o, i) (broadcast_rreq-remembers w w'.now addr ttl h sockets n l u m new))
