-- ===== src/Protocol/Answered.antt =====
-- `RecvRequest` as a whole, at the destination of the request.
use madaodv_ns.Base.{◌∙◌, ◌⊎◌, ◌≢◌, ℕ, ◌+◌, ◌%◌, ◌≡◌, refl, true, false, some, [], ◌∷◌, ◌++◌, arith}
use madaodv_ns.RoutingTable.{purge}
use madaodv_ns.Headers.{make_rrep, RreqHeader, get_unknown_seqno}
use madaodv_ns.Protocol.{World, Node, sends, iface_of, is_my_own_address, find_socket}
use madaodv_ns.Protocol.Reply.{reply_seq_no}
use madaodv_ns.Protocol.RecvRequest.{recv_request}
use madaodv_ns.Protocol.LeadsBack.{LeadsBack, purge-LeadsBack}
use madaodv_ns.Protocol.Answers.{reply_to, reply_header, answer-sends}
use madaodv_ns.Protocol.Heard.{Hears, farther, hearing, recv_request-Heard}

-- The request `h` has come through `receiver` from the neighbor `src` to its destination `n`, under
-- the conditions of `Hears`, and `n` has a socket at the interface.
pub record Arrives (w : World) (h : RreqHeader) (receiver src socket : ℕ) (n : Node) : Type 0 where
  pub hears : Hears w h receiver src n
  pub own : is_my_own_address w h.dst n ≡ true
  pub listens : find_socket (iface_of w receiver) n.socket_addresses ≡ some socket

-- The own sequence number, before and after the answer: the request asks for the next one and this
-- is it, or it is left.
abbrev pub AnswersAs : RreqHeader → ℕ → ℕ → Type 0
AnswersAs h s t =
    ((get_unknown_seqno h ≡ false) × (h.dst_seq_no ≡ (s + 1) % 4294967296) × (t ≡ h.dst_seq_no))
    ⊎ ((get_unknown_seqno h ≡ false → h.dst_seq_no ≢ (s + 1) % 4294967296) × (t ≡ s))

reply_seq_no-AnswersAs : (h : RreqHeader) (s : ℕ) → AnswersAs h s (reply_seq_no h s)
unfolding reply_seq_no
reply_seq_no-AnswersAs h s = ground arith

-- What `RecvRequest` leaves: the route back, the own sequence number, which the reply carries, and
-- the reply at the end of the trace.
abbrev pub Answered : World → RreqHeader → ℕ → ℕ → ℕ → Node → Node → Type 0
Answered w h receiver src socket n n' =
    LeadsBack w.now h.origin src (iface_of w receiver) n'.table
    × AnswersAs h n.seq_no n'.seq_no
    × (let r = reply_header w h n in r.dst_seq_no ≡ n'.seq_no)
    × ((k : ℕ) × (n'.trace ≡ n.trace ++ sends socket src k (reply_to w h n) ∷ []))

-- `RecvRequest` with a request that has come to its destination, under the conditions of `Arrives`:
-- it returns, and has sent one message, the reply with the destination's own sequence number, to the neighbor that the request came from,
-- and the table has an entry for the originator that goes through this neighbor and the interface
-- of the request, and has not expired. The own sequence number is raised to the one that the
-- request asks for if this is the next, and is else as before.
pub recv_request-Answered :
    (w : World) (ttl : ℕ) (h : RreqHeader) (receiver src socket : ℕ) (n : Node)
    → Arrives w h receiver src socket n
    → (n' : Node) × (recv_request w ttl h receiver src n ≡ some n')
      × Answered w h receiver src socket n n'
unfolding make_rrep is_my_own_address reply_seq_no get_unknown_seqno
recv_request-Answered w ttl h receiver src socket n a =
    let iface = iface_of w receiver in
    let (t, rt, e, b) = recv_request-Heard w h receiver src ttl n a.hears in
    let n1 = hearing w h receiver src n t in
    let (k, sent) = answer-sends w ttl (farther h) src iface socket rt n1 a.own a.listens b.leads in
    (
      record n1 {
        table = purge w.now t;
        seq_no = reply_seq_no h n1.seq_no;
        trace = n1.trace ++ sends socket src k (reply_to w h n1) ∷ [];
      },
      e ∙ sent,
      (
        purge-LeadsBack w.now h.origin src iface t b.leads,
        reply_seq_no-AnswersAs h n.seq_no,
        refl,
        (k, refl),
      ),
    )
