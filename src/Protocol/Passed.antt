-- ===== src/Protocol/Passed.antt =====
-- `RecvReply` as a whole, at a node between the two ends.
use madaodv_ns.Base.{◌==◌, ℕ, ◌+◌, ◌%◌, ◌≡◌, false, some, ◌++◌}
use madaodv_ns.Int.{pos, ◌≤ℤ◌}
use madaodv_ns.Map.{find}
use madaodv_ns.Entry.{in_search, flag_eq}
use madaodv_ns.RoutingTable.{purge}
use madaodv_ns.Headers.{RrepHeader, get_ack_required, set_ack_required}
use madaodv_ns.Protocol.{World, Node, iface_of, is_my_own_address, find_socket}
use madaodv_ns.Protocol.RecvReply.{acknowledge, handle_reply, recv_reply}
use madaodv_ns.Protocol.LeadsBack.{LeadsBack}
use madaodv_ns.Protocol.Passing.{Replaced, passed_to, forward_route-Both, relay_reply-Stays}

abbrev pub passed : RrepHeader → RrepHeader
passed h = record h { hop_count = (h.hop_count + 1) % 256 }

-- The reply `h` has come from the neighbor `sender` through `receiver` to `n`, which is not the node
-- that asked but has a route back to that through `back` and the interface `out`, where it has a
-- socket; the reply is newer than what `n` has of the destination, if anything, its lifetime is not
-- negative, and it asks for no acknowledgement.
pub record Forwards (w : World) (h : RrepHeader) (receiver sender back out socket : ℕ) (n : Node)
    : Type 0 where
  pub way : LeadsBack w.now h.origin back out n.table
  pub settled : (let e = way.entry in flag_eq e.flag in_search) ≡ false
  pub newer : Replaced (passed h) (find h.dst (purge w.now n.table).entries)
  pub no_hello : (h.dst == h.origin) ≡ false
  pub real : (h.dst == (let ns = w.ns in ns.no_address)) ≡ false
  pub no_ack : get_ack_required h ≡ false
  pub not_own : is_my_own_address w h.origin n ≡ false
  pub lasting : pos 0 ≤ℤ w.of_ms h.life_time
  pub listens : find_socket out n.socket_addresses ≡ some socket

-- What `RecvReply` leaves: the route to the destination, and the reply at the end of the trace.
abbrev pub Passed : World → ℕ → RrepHeader → ℕ → ℕ → ℕ → ℕ → Node → Node → Type 0
Passed w ttl h receiver sender back socket n n' =
    LeadsBack w.now h.dst sender (iface_of w receiver) n'.table
    × (n'.trace ≡ n.trace ++ passed_to w ttl socket back (set_ack_required false (passed h)))

-- `RecvReply` with a reply for another node, under the conditions of `Forwards`: it returns, the
-- table has an entry for the destination of the reply that goes through the neighbor `sender` and
-- the interface of the reply, and has not expired, and the reply is sent on to `back`, the next hop of the route
-- to the node that asked, with the hop count one higher and the TTL one lower, and nothing else, or nothing
-- if the TTL was below 2.
pub recv_reply-Passed :
    (w : World) (ttl : ℕ) (h : RrepHeader) (receiver sender back out socket : ℕ) (n : Node)
    → Forwards w h receiver sender back out socket n
    → (n' : Node) × (recv_reply w ttl h receiver sender n ≡ some n')
      × Passed w ttl h receiver sender back socket n n'
unfolding recv_reply handle_reply acknowledge is_my_own_address get_ack_required set_ack_required
recv_reply-Passed w ttl h receiver sender back out socket n a =
    let h1 = passed h in
    let way = a.way in
    let (t, old, e1, b) =
      forward_route-Both w h1 receiver sender back out n way a.newer a.no_hello a.lasting in
    let (n', e2, leads, sent) =
      relay_reply-Stays w ttl (set_ack_required false h1) sender (iface_of w receiver) back out
        socket way.entry old (record n { table = t }) (record { forth = b.forth; at = b.at })
        way.leads a.settled a.no_hello a.real a.listens in
    (n', rw a.no_hello (rw e1 (rw a.no_ack (rw a.not_own e2))), (leads, sent))
