-- ===== src/Protocol/Discovery.antt =====
-- Two neighbors: one asks for a route to the other, and gets it.
use madaodv_ns.Base.{ℕ, ◌≡◌, ◌∙◌, some}
use madaodv_ns.Map.{find}
use madaodv_ns.Entry.{valid}
use madaodv_ns.Protocol.{rrep_message, rreq_message, World, Node, iface_of}
use madaodv_ns.Protocol.Asked.{
  Traces, append-Traces, outgoing, requests-Traces, asked, asked_ttl, asked-dst,
}
use madaodv_ns.Protocol.LeadsBack.{LeadsBack}
use madaodv_ns.Protocol.Answers.{reply_header}
use madaodv_ns.Protocol.Answered.{Arrives, Answered}
use madaodv_ns.Protocol.Handlers.{receiver_iface}
use madaodv_ns.Protocol.Entering.{Step, receiver, entering, comes_in}
use madaodv_ns.Protocol.Asking.{
  MayAsk, ComesBack, IsAsking, send_request-IsAsking, request_from, reply_header-dst, reply-routes,
  request-Answered,
}

-- What has come of it: the search, the answer, and the route.
pub record IsDiscovered (w1 : World) (dst s iface socket : ℕ) (there home : Step) (a b : Node)
    : Type 0 where
  pub asking : Node
  pub is_asking : IsAsking w1 dst a asking
  pub delay : ℕ
  pub is_sent :
      Traces (outgoing w1 delay (asked_ttl w1 dst a) (asked w1 dst a) s iface) asking.trace
  pub answered : Node
  pub answers : comes_in there (rreq_message (request_from w1 dst iface a)) b ≡ some answered
  pub is_answered :
      Answered there.w
        (request_from w1 dst iface a)
        (receiver there)
        there.sender
        socket
        (entering there b)
        answered
  pub routed : Node
  pub arrives :
      comes_in home
        (rrep_message (reply_header there.w (request_from w1 dst iface a) (entering there b)))
        asking
      ≡ some routed
  pub leads : LeadsBack home.w.now dst home.sender (iface_of home.w (receiver home)) routed.table
  pub is_valid : (let e = leads.entry in e.flag ≡ valid)

-- Route discovery between neighbors. A node `a` that may ask for `dst` does so: SendRequest
-- returns, with the search on and a request scheduled from each socket. The request from one comes
-- in at a node `b` that `dst` belongs to: RecvMadaodv returns there, with a route back to the
-- address that the request has as its originator, through the neighbor that it was received from,
-- and the reply sent there. That reply comes in at a socket of `a`, where nothing else has happened
-- in between: RecvMadaodv returns, and `a` has a valid route to `dst` through the neighbor that
-- the reply was received from, be that `dst` itself or another. The conditions of Arrives are those
-- of `b` with the route to the sender updated; the times of the three steps and the TTLs do not
-- matter, under the conditions of MayAsk, Arrives and ComesBack.
pub discovery :
    (w1 : World) (dst s iface socket : ℕ) (there home : Step) (a b : Node)
    → MayAsk w1 dst a
    → find s a.socket_addresses ≡ some iface
    → receiver_iface there.socket b ≡ some there.iface
    → Arrives there.w
        (request_from w1 dst iface a)
        (receiver there)
        there.sender
        socket
        (entering there b)
    → find home.socket a.socket_addresses ≡ some home.iface
    → ComesBack w1 home.w dst iface
        (reply_header there.w (request_from w1 dst iface a) (entering there b))
        (receiver home)
        home.sender
        a
    → IsDiscovered w1 dst s iface socket there home a b
discovery w1 dst s iface socket there home a b may open_ at arrives through comes =
    let h = request_from w1 dst iface a in
    let r = reply_header there.w h (entering there b) in
    let (a1, asking) = send_request-IsAsking w1 dst a may in
    let out = asking.out in
    let (delay, sent) =
      requests-Traces w1 (asked_ttl w1 dst a) a.draws s iface (asked w1 dst a) a.socket_addresses
        open_ in
    let (b1, answers, answered) = request-Answered there h socket b at arrives in
    let (d, o, ack) = reply_header-dst there.w h (entering there b) in
    let (routed, gets, (leads, is_valid)) =
      reply-routes w1 dst s iface home r a a1 asking comes open_ through (d ∙ asked-dst w1 dst a) o
        ack in
    record {
      asking = a1;
      is_asking = asking;
      delay = delay;
      is_sent = rw out.trace (append-Traces _ a.trace _ sent);
      answered = b1;
      answers = answers;
      is_answered = answered;
      routed = routed;
      arrives = gets;
      leads = leads;
      is_valid = is_valid;
    }
