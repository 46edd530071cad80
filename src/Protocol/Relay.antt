-- ===== src/Protocol/Relay.antt =====
-- Three nodes in a row: one asks for a route to the last, and gets it through the one between.
use madaodv_ns.Base.{arith, ℕ, ◌≡◌, refl, ◌∙◌, false, some}
use mathlib.Core.Path.{subst}
use madaodv_ns.Map.{find}
use madaodv_ns.Entry.{valid}
use madaodv_ns.Headers.{make_rrep, set_bit, get_bit, RrepHeader, get_ack_required, set_ack_required}
use madaodv_ns.Protocol.{rreq_message, rrep_message, World, Node, iface_of}
use madaodv_ns.Protocol.Asked.{asked-dst}
use madaodv_ns.Protocol.LeadsBack.{LeadsBack}
use madaodv_ns.Protocol.Heard.{farther}
use madaodv_ns.Protocol.Answers.{reply_header}
use madaodv_ns.Protocol.Answered.{Arrives, Answered}
use madaodv_ns.Protocol.Relayed.{Passes, Relayed, recv_request-Relayed}
use madaodv_ns.Protocol.Passed.{Forwards, Passed, passed, recv_reply-Passed}
use madaodv_ns.Protocol.Handlers.{receiver_iface, dispatch}
use madaodv_ns.Protocol.Entering.{Step, receiver, entering, comes_in, comes_in_lem}
use madaodv_ns.Protocol.Asking.{
  request-Answered, MayAsk, ComesBack, IsAsking, send_request-IsAsking, request_from,
  reply_header-dst, reply-routes,
}

-- The reply as the node between sends it on.
abbrev pub sent_back : RrepHeader → RrepHeader
sent_back r = set_ack_required false (passed r)

-- The reply of `c` to the request that it had through another node.
abbrev pub far_reply : World → ℕ → ℕ → Step → Node → Node → RrepHeader
far_reply w1 dst iface last a c =
    reply_header last.w (farther (request_from w1 dst iface a)) (entering last c)

-- What has come of it: the search at `a`; the request passed on by `b`, the answer of `c`, the reply
-- passed on by `b`, and the route at `a`.
pub record IsFound (w1 : World) (dst s iface socket back socket_b : ℕ)
    (there last again home : Step) (a b b1 c : Node) : Type 0 where
  pub asking : Node
  pub is_asking : IsAsking w1 dst a asking
  pub relayed :
      Relayed there.w there.ttl
        (request_from w1 dst iface a)
        (receiver there)
        there.sender
        (entering there b)
        b1
  pub answered : Node
  pub answers :
      comes_in last (rreq_message (farther (request_from w1 dst iface a))) c ≡ some answered
  pub is_answered :
      Answered last.w
        (farther (request_from w1 dst iface a))
        (receiver last)
        last.sender
        socket
        (entering last c)
        answered
  pub passed_on : Node
  pub passes : comes_in again (rrep_message (far_reply w1 dst iface last a c)) b1 ≡ some passed_on
  pub is_passed :
      Passed again.w again.ttl
        (far_reply w1 dst iface last a c)
        (receiver again)
        again.sender
        back
        socket_b
        (entering again b1)
        passed_on
  pub routed : Node
  pub arrives :
      comes_in home (rrep_message (sent_back (far_reply w1 dst iface last a c))) asking
      ≡ some routed
  pub leads : LeadsBack home.w.now dst home.sender (iface_of home.w (receiver home)) routed.table
  pub is_valid : (let e = leads.entry in e.flag ≡ valid)

-- Route discovery over a relay, where every message comes in through RecvMadaodv. A node `a` that
-- may ask for `dst` does so. Its request comes in at a node `b` that knows nothing of `dst` and
-- becomes `b1`; the request with its hop count raised comes in at a node `c` that `dst` belongs to;
-- the reply of `c` comes in at `b1`, which still has its route back; and the reply with its hop
-- count raised comes in at `a`, where nothing else has happened in between. Then, under the
-- conditions of MayAsk and ComesBack, and those of Passes, Arrives and Forwards on the nodes with
-- the route to the sender updated, every handler returns; `b` has a route to the originator, and
-- sends the request on, or nothing if its TTL is below 2; `c` answers; `b1` gets a route to `dst`
-- and sends the reply on to its next hop to the originator, or nothing if its TTL is below 2; and
-- `a` gets a valid route to `dst` through the neighbor that it had the reply from.
pub relayed_discovery :
    (w1 : World) (dst s iface socket back out socket_b : ℕ) (there last again home : Step)
    (a b b1 c : Node)
    → MayAsk w1 dst a
    → find s a.socket_addresses ≡ some iface
    → receiver_iface there.socket b ≡ some there.iface
    → Passes there.w (request_from w1 dst iface a) (receiver there) there.sender (entering there b)
    → comes_in there (rreq_message (request_from w1 dst iface a)) b ≡ some b1
    → receiver_iface last.socket c ≡ some last.iface
    → Arrives last.w
        (farther (request_from w1 dst iface a))
        (receiver last)
        last.sender
        socket
        (entering last c)
    → receiver_iface again.socket b1 ≡ some again.iface
    → Forwards again.w
        (far_reply w1 dst iface last a c)
        (receiver again)
        again.sender
        back
        out
        socket_b
        (entering again b1)
    → find home.socket a.socket_addresses ≡ some home.iface
    → ComesBack w1 home.w dst iface
        (sent_back (far_reply w1 dst iface last a c))
        (receiver home)
        home.sender
        a
    → IsFound w1 dst s iface socket back socket_b there last again home a b b1 c
unfolding set_ack_required get_ack_required make_rrep set_bit get_bit dispatch
relayed_discovery w1 dst s iface socket back out socket_b there last again home a b b1 c may open_
      at_b passes e at_c arrives at_b1 forwards through comes =
    let h = request_from w1 dst iface a in
    let r = far_reply w1 dst iface last a c in
    let (a1, asking) = send_request-IsAsking w1 dst a may in
    let (b', e', relayed) =
      recv_request-Relayed there.w there.ttl h (receiver there) there.sender (entering there b)
        passes in
    let e2 = comes_in_lem there (rreq_message h) b at_b ∙ e' in
    let same : b' ≡ b1 = ground (arith, e, e2) in
    let (c1, answers, answered) = request-Answered last (farther h) socket c at_c arrives in
    let (b2, passes2, passed2) =
      recv_reply-Passed again.w again.ttl r (receiver again) again.sender back out socket_b
        (entering again b1) forwards in
    let (d, o, _) = reply_header-dst last.w (farther h) (entering last c) in
    let (a2, arrives2, (leads, is_valid)) =
      reply-routes w1 dst s iface home (sent_back r) a a1 asking comes open_ through
        (d ∙ asked-dst w1 dst a) o refl in
    record {
      asking = a1;
      is_asking = asking;
      relayed =
          subst
            (λ x. Relayed there.w there.ttl h (receiver there) there.sender (entering there b) x)
            same relayed;
      answered = c1;
      answers = answers;
      is_answered = answered;
      passed_on = b2;
      passes = comes_in_lem again (rrep_message r) b1 at_b1 ∙ passes2;
      is_passed = passed2;
      routed = a2;
      arrives = arrives2;
      leads = leads;
      is_valid = is_valid;
    }
