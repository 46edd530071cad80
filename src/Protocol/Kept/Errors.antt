-- ===== src/Protocol/Kept/Errors.antt =====
-- The sending of route errors, `RecvError`, and the calls of the list of neighbors.
use madaodv_ns.Base.{ℕ, Option, none, some, List, [], ◌∷◌}
use madaodv_ns.Int.{ℤ}
use madaodv_ns.Map.{Map, insert}
use madaodv_ns.Entry.{Entry, get_precursors}
use madaodv_ns.RoutingTable.{RoutingTable, purge}
use madaodv_ns.RequestQueue.{RequestQueue}
use madaodv_ns.RoutingTable.Spec.{purges, apply}
use madaodv_ns.Headers.{RerrHeader, make_rerr, add_un_destination}
use madaodv_ns.Protocol.{◌>>=◌, World, Node, Message, blank, emit}
use madaodv_ns.Protocol.Rerr.{
  fill_rerr, send_if_any, invalidate_routes_with_dst, reached_through, break_link,
  send_rerr_when_breaks_link_to_next_hop, broadcast_now, send_rerr_to_origin, suppress_rerr,
  send_rerr_when_no_route_to_forward, recv_error, handle_link_failures, update_neighbor,
  notify_tx_error, neighbor_timer_expire,
}
use madaodv_ns.Protocol.Sending.{Keeps, KeepsFilled, fill_rerr-KeepsFilled, send_if_any-Keeps}
use madaodv_ns.Protocol.After.{
  After, fails, gives, bind-After, any-After, elim-After, if-both, elim-both,
}
use madaodv_ns.Protocol.Kept.{
  Law, Kept, lookup_route-Kept, lookup_valid_route-Kept, reached_through-Kept,
  invalidate_routes_with_dst-Kept,
}

module _ (w : World) (l : Law) where
  open w use {ns, now}

  abbrev Filled : Type 0
  Filled = RerrHeader × List ℕ × Node

  abbrev FilledKept : Filled → Type 0
  FilledKept (h, xs, n) = Kept l n

  purge-kept : (t : RoutingTable) (q : RequestQueue) → l.Holds t q → l.Holds (purge now t) q
  unfolding apply
  purge-kept t q p = l.kept (purges now) t q p

  Keeps-After : (x : Option Node) → Keeps l.Holds x → After (Kept l) x
  Keeps-After none p = fails
  Keeps-After (some n) p = gives (record { holds = p })

  KeepsFilled-After : (x : Option Filled) → KeepsFilled l.Holds x → After FilledKept x
  KeepsFilled-After none p = fails
  KeepsFilled-After (some (h, xs, n)) p = gives (record { holds = p })

  send_if_any-Kept :
      (h : RerrHeader) (xs : List ℕ) (n : Node) → Kept l n → After (Kept l) (send_if_any w h xs n)
  send_if_any-Kept h xs n p = Keeps-After _ (send_if_any-Keeps w l.Holds purge-kept h xs n p.holds)

  fill_rerr-Kept :
      (m : Map ℕ) (h : RerrHeader) (xs : List ℕ) (n : Node)
      → Kept l n
      → After FilledKept (fill_rerr w m h xs n)
  fill_rerr-Kept m h xs n p =
      KeepsFilled-After _ (fill_rerr-KeepsFilled w l.Holds purge-kept m h xs n p.holds)

  -- The message is filled and sent, and then the routes are invalidated.
  report-Kept :
      (u m : Map ℕ) (h : RerrHeader) (xs : List ℕ) (n : Node)
      → Kept l n
      → After (Kept l) (do
        filled ← fill_rerr w u h xs n
        n' ← send_if_any w filled.0 filled.1 filled.2
        some (invalidate_routes_with_dst w m n'))
  report-Kept u m h xs n p =
      bind-After FilledKept (Kept l) _ _ (fill_rerr-Kept u h xs n p) (λ filled q.
        bind-After (Kept l) (Kept l) _ _ (send_if_any-Kept filled.0 filled.1 filled.2 q)
          (λ n' q'. gives (invalidate_routes_with_dst-Kept w l m n' q')))

  break_link-Kept :
      (a : ℕ) (rt : Entry) (n : Node) → Kept l n → After (Kept l) (break_link w a rt n)
  unfolding break_link
  break_link-Kept a rt n p =
      let u = (reached_through w a n).1 in
      bind-After (λ h. Unit) (Kept l) (add_un_destination a rt.seq_no make_rerr) _ (any-After _)
        (λ h q.
          report-Kept u (insert a rt.seq_no u) h (get_precursors rt []) _
            (reached_through-Kept w l a n p))

  pub send_rerr_when_breaks_link_to_next_hop-Kept :
      (a : ℕ) (n : Node) → Kept l n → After (Kept l) (send_rerr_when_breaks_link_to_next_hop w a n)
  unfolding send_rerr_when_breaks_link_to_next_hop
  send_rerr_when_breaks_link_to_next_hop-Kept a n p =
      let p' = lookup_route-Kept w l a (blank w) n p in
      if-both (After (Kept l)) _ (break_link-Kept a _ _ p') (gives p')

  broadcast_now-Kept :
      (m : Message) (s : Map ℕ) (n : Node) → Kept l n → Kept l (broadcast_now w m s n)
  unfolding broadcast_now emit
  broadcast_now-Kept m [] n p = p
  broadcast_now-Kept m ((socket, i) ∷ s) n p = broadcast_now-Kept m s _ (record { holds = p.holds })

  send_rerr_to_origin-Kept :
      (h : RerrHeader) (a : ℕ) (n : Node) → Kept l n → After (Kept l) (send_rerr_to_origin w h a n)
  unfolding send_rerr_to_origin emit
  send_rerr_to_origin-Kept h a n p =
      let p' = lookup_valid_route-Kept w l a (blank w) n p in
      if-both (After (Kept l)) _
        (elim-both (After (Kept l)) _ fails (λ s. gives (record { holds = p'.holds })))
        (gives (broadcast_now-Kept _ _ _ p'))

  pub send_rerr_when_no_route_to_forward-Kept :
      (dst seq_no origin : ℕ) (n : Node)
      → Kept l n
      → After (Kept l) (send_rerr_when_no_route_to_forward w dst seq_no origin n)
  unfolding send_rerr_when_no_route_to_forward suppress_rerr
  send_rerr_when_no_route_to_forward-Kept dst seq_no origin n p =
      if-both (After (Kept l)) _ (if-both (After (Kept l)) _ (gives p) fails)
        (elim-both (After (Kept l)) _ fails (λ h. send_rerr_to_origin-Kept h origin n p))

  pub recv_error-Kept :
      (h : RerrHeader) (src : ℕ) (n : Node) → Kept l n → After (Kept l) (recv_error w h src n)
  unfolding recv_error
  recv_error-Kept h src n p = report-Kept _ _ _ _ _ (reached_through-Kept w l src n p)

  pub handle_link_failures-Kept :
      (xs : List ℕ) (n : Node) → Kept l n → After (Kept l) (handle_link_failures w xs n)
  unfolding handle_link_failures
  handle_link_failures-Kept [] n p = gives p
  handle_link_failures-Kept (a ∷ xs) n p =
      elim-After (Kept l) (Kept l) _ (send_rerr_when_breaks_link_to_next_hop-Kept a n p)
        (handle_link_failures-Kept xs)

  pub update_neighbor-Kept :
      (a : ℕ) (t : ℤ) (n : Node) → Kept l n → After (Kept l) (update_neighbor w a t n)
  unfolding update_neighbor
  update_neighbor-Kept a t n p = handle_link_failures-Kept _ _ (record { holds = p.holds })

  pub notify_tx_error-Kept :
      (mac : ℕ) (n : Node) → Kept l n → After (Kept l) (notify_tx_error w mac n)
  unfolding notify_tx_error
  notify_tx_error-Kept mac n p = handle_link_failures-Kept _ _ (record { holds = p.holds })

  pub neighbor_timer_expire-Kept :
      (n : Node) → Kept l n → After (Kept l) (neighbor_timer_expire w n)
  unfolding neighbor_timer_expire
  neighbor_timer_expire-Kept n p = handle_link_failures-Kept _ _ (record { holds = p.holds })
