-- ===== src/Protocol/Kept/Messages.antt =====
-- HELLO messages, and the sending of replies and acknowledgements.
use madaodv_ns.Base.{ℕ, Bool, [], ◌∷◌}
use madaodv_ns.Map.{Map}
use madaodv_ns.Entry.{Entry}
use madaodv_ns.Headers.{RreqHeader, RrepHeader}
use madaodv_ns.Protocol.{World, Node, Message, blank, emit, send_later}
use madaodv_ns.Protocol.Hello.{
  broadcast_hello, send_hello, hello_timer_expire, hello_route, process_hello,
}
use madaodv_ns.Protocol.Reply.{
  send_through, send_reply, ask_ack, answer_gratuitously, send_reply_by_intermediate_node,
  send_reply_ack, recv_reply_ack,
}
use madaodv_ns.Protocol.After.{After, fails, gives, bind-After, if-both, elim-both}
use madaodv_ns.Protocol.Kept.{Law, Kept, lookup_route-Kept, update_route-Kept, add_route-Kept}
use madaodv_ns.Protocol.Kept.Errors.{update_neighbor-Kept}

module _ (w : World) (l : Law) where
  broadcast_hello-Kept : (s : Map ℕ) (n : Node) → Kept l n → Kept l (broadcast_hello w s n)
  unfolding broadcast_hello send_later emit
  broadcast_hello-Kept [] n p = p
  broadcast_hello-Kept ((socket, i) ∷ s) n p = broadcast_hello-Kept s _ (record { holds = p.holds })

  pub hello_timer_expire-Kept : (n : Node) → Kept l n → Kept l (hello_timer_expire w n)
  unfolding hello_timer_expire send_hello
  hello_timer_expire-Kept n p = record {
    holds = (if-both (Kept l) _ p (broadcast_hello-Kept _ n p)).holds;
  }

  hello_route-Kept : (h : RrepHeader) (r : ℕ) (n : Node) → Kept l n → Kept l (hello_route w h r n)
  unfolding hello_route
  hello_route-Kept h r n p =
      let p' = lookup_route-Kept w l h.dst (blank w) n p in
      if-both (Kept l) _ (update_route-Kept w l _ _ p') (add_route-Kept w l _ _ p')

  pub process_hello-Kept :
      (h : RrepHeader) (r : ℕ) (n : Node) → Kept l n → After (Kept l) (process_hello w h r n)
  unfolding process_hello
  process_hello-Kept h r n p =
      let p' = hello_route-Kept h r n p in
      if-both (After (Kept l)) _ (update_neighbor-Kept w l _ _ _ p') (gives p')

  pub send_through-Kept :
      (i a ttl : ℕ) (m : Message) (n : Node) → Kept l n → After (Kept l) (send_through i a ttl m n)
  unfolding send_through emit
  send_through-Kept i a ttl m n p =
      elim-both (After (Kept l)) _ fails (λ s. gives (record { holds = p.holds }))

  pub send_reply-Kept :
      (h : RreqHeader) (rt : Entry) (n : Node) → Kept l n → After (Kept l) (send_reply w h rt n)
  unfolding send_reply
  send_reply-Kept h rt n p = send_through-Kept _ _ _ _ _ (record { holds = p.holds })

  ask_ack-Kept :
      (rt rt' : Entry) (h : RrepHeader) (n : Node) → Kept l n → Kept l (ask_ack w rt rt' h n).0
  unfolding ask_ack
  ask_ack-Kept rt rt' h n p =
      if-both {A = Node × RrepHeader} (λ r. Kept l r.0) _ (lookup_route-Kept w l _ (blank w) n p) p

  answer_gratuitously-Kept :
      (g : Bool) (rt rt' : Entry) (n : Node)
      → Kept l n
      → After (Kept l) (answer_gratuitously w g rt rt' n)
  unfolding answer_gratuitously
  answer_gratuitously-Kept g rt rt' n p =
      if-both (After (Kept l)) g (send_through-Kept _ _ _ _ n p) (gives p)

  pub send_reply_by_intermediate_node-Kept :
      (rt rt' : Entry) (g : Bool) (n : Node)
      → Kept l n
      → After (Kept l) (send_reply_by_intermediate_node w rt rt' g n)
  unfolding send_reply_by_intermediate_node
  send_reply_by_intermediate_node-Kept rt rt' g n p =
      let asked = ask_ack-Kept rt rt' _ n p in
      bind-After (Kept l) (Kept l) _ _
        (send_through-Kept _ _ _ _ _ (update_route-Kept w l _ _ (update_route-Kept w l _ _ asked)))
        (answer_gratuitously-Kept g _ _)

  pub send_reply_ack-Kept : (a : ℕ) (n : Node) → Kept l n → After (Kept l) (send_reply_ack w a n)
  unfolding send_reply_ack
  send_reply_ack-Kept a n p = send_through-Kept _ _ _ _ _ (lookup_route-Kept w l a (blank w) n p)

  pub recv_reply_ack-Kept : (a : ℕ) (n : Node) → Kept l n → Kept l (recv_reply_ack w a n)
  unfolding recv_reply_ack
  recv_reply_ack-Kept a n p =
      let p' = lookup_route-Kept w l a (blank w) n p in
      if-both (Kept l) _ (update_route-Kept w l _ _ p') p'
