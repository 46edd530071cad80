-- ===== src/Protocol/Asking.antt =====
-- The steps of a route discovery: a node asks, the request is answered, and the reply comes back.
use mathlib.Core.Path.{subst}
use madaodv_ns.Base.{
  inl, inr, ℕ, ◌+◌, ◌%◌, ◌<◌, ◌≡◌, refl, sym, ◌∙◌, true, false, some, [], ◌∷◌, any, reject, ◌==◌,
  arith,
}
use madaodv_ns.Int.{pos, ◌≤ℤ◌}
use madaodv_ns.Map.{Map, find, IsSorted}
use madaodv_ns.Map.Every.{Every, find-Every}
use madaodv_ns.Entry.{valid, make_entry}
use madaodv_ns.RoutingTable.{RoutingTable}
use madaodv_ns.RoutingTable.Invariant.{IsValid, apply-IsValid}
use madaodv_ns.RequestQueue.{is_expired}
use madaodv_ns.Headers.{RreqHeader, RrepHeader, make_rrep, get_ack_required, get_bit}
use madaodv_ns.Protocol.{rrep_message, rreq_message, World, Node, is_my_own_address, owns, iface_of}
use madaodv_ns.Protocol.Kept.Discovery.{send_request-Kept}
use madaodv_ns.Protocol.Kept.Events.{After-table}
use madaodv_ns.Protocol.Request.{send_request}
use madaodv_ns.Protocol.RecvReply.{recv_reply, reply_entry}
use madaodv_ns.Protocol.Searched.{IsRing, CountsBelow}
use madaodv_ns.Protocol.Limits.{IsSearching, send_request_lem}
use madaodv_ns.Protocol.Drain.{stuck}
use madaodv_ns.Protocol.Asked.{Broadcast, asked, asked_ttl, requests, send_request-Broadcast}
use madaodv_ns.Protocol.Smalls.{send_request-Smalls}
use madaodv_ns.Protocol.LeadsBack.{LeadsBack}
use madaodv_ns.Protocol.Ways.{alive_lem}
use madaodv_ns.Protocol.Answers.{reply_header}
use madaodv_ns.Protocol.Heard.{IsSmall}
use madaodv_ns.Protocol.Answered.{Arrives, Answered, recv_request-Answered}
use madaodv_ns.Protocol.Routes.{update_route_to_neighbor}
use madaodv_ns.Protocol.Handlers.{receiver_iface, dispatch}
use madaodv_ns.Protocol.Entering.{
  Step, receiver, entering, comes_in, comes_in_lem, receiver_iface_lem,
  update_route_to_neighbor-Ready,
}
use madaodv_ns.Protocol.Settled.{recv_reply-settled}
use madaodv_ns.Protocol.Discovered.{released, recv_reply-released}

-- The node may ask for `dst`: it is under the rate limit, and its state is consistent.
pub record MayAsk (w : World) (dst : ℕ) (n : Node) : Type 0 where
  pub under_limit : (let c = n.config in n.rreq_count == c.rreq_rate_limit) ≡ false
  pub table_valid : IsValid n.table
  pub smalls : (let t = n.table in Every IsSmall t.entries)
  pub timers_sorted : IsSorted n.address_req_timer
  pub ring : IsRing n.config
  pub few : CountsBelow w.now 31 dst n.table

-- The request as it leaves from an interface.
abbrev pub request_from : World → ℕ → ℕ → Node → RreqHeader
request_from w dst iface n =
    let ns = w.ns in let h = asked w dst n in record h { origin = ns.local iface }

abbrev pub hopped : RrepHeader → RrepHeader
hopped h = record h { hop_count = (h.hop_count + 1) % 256 }

-- What the way back needs: the node that asked still has its address and is not the one that it
-- asked for, the other's sequence number and the lifetime of the reply are in the ordinary range,
-- and no packet that waits for the route has a tag that fixes another interface.
pub record ComesBack (w1 w2 : World) (dst iface : ℕ) (r : RrepHeader) (receiver sender : ℕ)
    (n : Node) : Type 0 where
  pub same : (let ns = w2.ns in ns.local iface) ≡ (let ns = w1.ns in ns.local iface)
  pub other : (dst == (let ns = w1.ns in ns.local iface)) ≡ false
  pub small : r.dst_seq_no < 2147483648
  pub lasting : pos 0 ≤ℤ w2.of_ms r.life_time
  pub free :
      (let q = n.queue in
        let new = reply_entry w2 (hopped r) receiver sender in
        any (stuck w2.ns r.dst new.route) (reject (is_expired w2.now) q.queue))
      ≡ false

owns-find :
    (w : World) (s i x : ℕ) (m : Map ℕ)
    → find s m ≡ some i
    → (let ns = w.ns in ns.local i) ≡ x
    → owns w x m ≡ true
unfolding owns find any
owns-find w s i x [] e h = cc
owns-find w s i x ((j, k) ∷ m) e h = ground (arith, owns-find w s i x m)

send_request-IsValid :
    (w : World) (dst : ℕ) (n n' : Node)
    → IsValid n.table
    → send_request w dst n ≡ some n'
    → IsValid n'.table
send_request-IsValid w dst n n' v e =
    After-table IsValid apply-IsValid (send_request w dst) (λ l m k. send_request-Kept w l dst m k)
      n n' v e

-- The first half: the search is on, and the requests are out.
pub record IsAsking (w : World) (dst : ℕ) (n n' : Node) : Type 0 where
  pub sent : send_request w dst n ≡ some n'
  pub on : IsSearching dst n'
  pub out :
      Broadcast w n n' (requests w (asked_ttl w dst n) (asked w dst n) n.draws n.socket_addresses)
  pub table_valid : IsValid n'.table
  pub smalls : (let t = n'.table in Every IsSmall t.entries)

pub send_request-IsAsking :
    (w : World) (dst : ℕ) (n : Node) → MayAsk w dst n → (n' : Node) × IsAsking w dst n n'
send_request-IsAsking w dst n a =
    let (n', e, on, count) =
      rw (a.under_limit) at (send_request_lem w dst n a.table_valid a.timers_sorted a.ring a.few) in
    (
      n',
      record {
        sent = e;
        on = on;
        out = send_request-Broadcast w dst n n' a.under_limit e;
        table_valid = send_request-IsValid w dst n n' a.table_valid e;
        smalls = send_request-Smalls w dst n n' a.smalls e;
      },
    )

-- The second half: the reply comes in.
asking-own :
    (w1 w2 : World) (dst s iface : ℕ) (r : RrepHeader) (receiver sender : ℕ) (n n' : Node)
    → IsAsking w1 dst n n'
    → ComesBack w1 w2 dst iface r receiver sender n
    → find s n.socket_addresses ≡ some iface
    → r.origin ≡ (let ns = w1.ns in ns.local iface)
    → is_my_own_address w2 r.origin n' ≡ true
unfolding is_my_own_address
asking-own w1 w2 dst s iface r receiver sender n n' a c open_ o =
    let out = a.out in
    rw out.sockets (owns-find w2 s iface r.origin n.socket_addresses open_ (c.same ∙ sym o))

-- Before the reply is read, the search is still on, or has ended with the route to the sender.
reply-read :
    (w1 w2 : World) (dst s iface ttl : ℕ) (r : RrepHeader) (receiver sender : ℕ) (n n' : Node)
    → IsAsking w1 dst n n'
    → ComesBack w1 w2 dst iface r receiver sender n
    → find s n.socket_addresses ≡ some iface
    → r.dst ≡ dst
    → r.origin ≡ (let ns = w1.ns in ns.local iface)
    → get_ack_required r ≡ false
    → (routed : Node) × (recv_reply w2 ttl r receiver sender
          (update_route_to_neighbor w2 sender receiver n')
        ≡ some routed)
      × IsValid routed.table
      × (let t = routed.table in
          find r.dst t.entries ≡ some (reply_entry w2 (hopped r) receiver sender))
unfolding is_my_own_address
reply-read w1 w2 dst s iface ttl r receiver sender n n' a c open_ d o ack =
    let on = a.on in
    let out = a.out in
    let table = n'.table in
    let e = on.entry in
    let at : find r.dst table.entries ≡ some e = rw d on.at in
    let own = asking-own w1 w2 dst s iface r receiver sender n n' a c open_ o in
    let other : (r.dst == r.origin) ≡ false = rw (d, o) c.other in
    let (t, same, v, ready) =
      update_route_to_neighbor-Ready w2 r.dst sender receiver e n' a.table_valid at on.searching in
    let m = record n' { table = t } in
    elim ready [
      | inl still ↦
          let (t', read, v', at', _) = recv_reply-released w2 ttl r receiver sender m (record {
            table_valid = v;
            entry = e;
            at = still;
            searching = on.searching;
            small = c.small;
            old_small = find-Every IsSmall dst e table.entries a.smalls on.at;
            no_hello = other;
            no_ack = ack;
            own = own;
            lasting = c.lasting;
            free = rw out.queue c.free;
          }) in
          (
            released w2 r.dst (reply_entry w2 (hopped r) receiver sender) t' m,
            rw same read,
            v',
            at',
          )
      | inr (e', at', unknown, settled) ↦
          let (n'', read, v', held) = recv_reply-settled w2 ttl r receiver sender m (record {
            table_valid = v;
            entry = e';
            at = at';
            unknown = unknown;
            settled = settled;
            no_hello = other;
            no_ack = ack;
            own = own;
            lasting = c.lasting;
            free = rw out.queue c.free;
          }) in
          (n'', rw same read, v', held)
    ]

pub reply_header-dst :
    (w : World) (h : RreqHeader) (n : Node)
    → let r = reply_header w h n in
      (r.dst ≡ h.dst) × (r.origin ≡ h.origin) × (get_ack_required r ≡ false)
unfolding make_rrep get_ack_required get_bit
reply_header-dst w h n = (refl, refl, refl)

released-LeadsBack :
    (w : World) (dst : ℕ) (r : RrepHeader) (receiver sender : ℕ) (t : RoutingTable)
    → pos 0 ≤ℤ w.of_ms r.life_time
    → IsValid t
    → find dst t.entries ≡ some (reply_entry w (hopped r) receiver sender)
    → (b : LeadsBack w.now dst sender (iface_of w receiver) t) × (let e = b.entry in e.flag ≡ valid)
unfolding reply_entry make_entry
released-LeadsBack w dst r receiver sender t p v at =
    let e = reply_entry w (hopped r) receiver sender in
    (
      record {
        table_valid = v;
        entry = e;
        at = at;
        leads = record {
          next_hop = refl;
          through = refl;
          alive = alive_lem w.now (w.of_ms r.life_time) e refl p;
        };
      },
      refl,
    )

-- A reply that comes back to the node that asked gives it the route.
pub reply-routes :
    (w1 : World) (dst s iface : ℕ) (x : Step) (r : RrepHeader) (n n' : Node)
    → IsAsking w1 dst n n'
    → ComesBack w1 x.w dst iface r (receiver x) x.sender n
    → find s n.socket_addresses ≡ some iface
    → find x.socket n.socket_addresses ≡ some x.iface
    → r.dst ≡ dst
    → r.origin ≡ (let ns = w1.ns in ns.local iface)
    → get_ack_required r ≡ false
    → (routed : Node) × (comes_in x (rrep_message r) n' ≡ some routed)
      × ((b : LeadsBack x.w.now dst x.sender (iface_of x.w (receiver x)) routed.table) × (let e =
              b.entry in
            e.flag ≡ valid))
unfolding dispatch
reply-routes w1 dst s iface x r n n' a c open_ through d o ack =
    let out = a.out in
    let at = receiver_iface_lem x.socket x.iface n' (rw out.sockets through) in
    let (routed, read, v, held) =
      reply-read w1 x.w dst s iface x.ttl r (receiver x) x.sender n n' a c open_ d o ack in
    let t = routed.table in
    let (leads, is_valid) = released-LeadsBack x.w dst r (receiver x) x.sender t c.lasting v (
      subst (λ k. find k t.entries ≡ some (reply_entry x.w (hopped r) (receiver x) x.sender)) d
        held) in
    (routed, comes_in_lem x (rrep_message r) n' at ∙ read, (leads, is_valid))

-- A request that comes to its destination is answered.
pub request-Answered :
    (x : Step) (h : RreqHeader) (socket : ℕ) (n : Node)
    → receiver_iface x.socket n ≡ some x.iface
    → Arrives x.w h (receiver x) x.sender socket (entering x n)
    → (n' : Node) × (comes_in x (rreq_message h) n ≡ some n')
      × Answered x.w h (receiver x) x.sender socket (entering x n) n'
unfolding dispatch
request-Answered x h socket n at a =
    let (n', e, answered) =
      recv_request-Answered x.w x.ttl h (receiver x) x.sender socket (entering x n) a in
    (n', comes_in_lem x (rreq_message h) n at ∙ e, answered)
