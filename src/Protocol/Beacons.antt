-- ===== src/Protocol/Beacons.antt =====
-- The rounds of the HELLO timer.
use mathlib.Core.List.{append_assoc, append-nil}
use madaodv_ns.Base.{
  some, ℕ, ◌+◌, ◌≡◌, refl, sym, ◌∙◌, ap, List, [], ◌∷◌, ◌++◌, if◌then◌else◌, arith, Bool-cases, inl,
  inr,
}
use madaodv_ns.Int.{ℤ, pos, ◌+ℤ◌, ◌-ℤ◌, max_ℤ, ltb_ℤ, +ℤ_parts, -ℤ_parts, eq_of_parts}
use madaodv_ns.Map.{Map}
use madaodv_ns.Headers.{RrepHeader, make_rrep, to_u32}
use madaodv_ns.Protocol.{
  World, Node, Action, schedules_send, rrep_message, send_later, emit, broadcast_address,
}
use madaodv_ns.Protocol.Hello.{
  hello_lifetime, hello_header, broadcast_hello, send_hello, hello_timer_expire,
}

module _ (w : World) where
  open w use {ns, now}

  -- A HELLO: a reply about the address of the interface itself.
  abbrev pub hello : ℕ → Node → RrepHeader
  hello iface n = record {
    flags = 0;
    prefix_size = 0;
    hop_count = 0;
    dst = ns.local iface;
    dst_seq_no = n.seq_no;
    origin = ns.local iface;
    life_time = to_u32 (w.to_ms (hello_lifetime n.config));
  }

  -- One HELLO from each socket, to the broadcast address of its interface with TTL 1; `k` draws of a
  -- delay have been made before.
  pub hellos : Node → ℕ → Map ℕ → List Action
  hellos n k [] = []
  hellos n k ((socket, iface) ∷ sockets) =
      schedules_send (w.jitter k) socket (broadcast_address w iface) 1
        (rrep_message (hello iface n))
      ∷ hellos n (k + 1) sockets

  broadcast_hello-hellos :
      (sockets : Map ℕ) (n m : Node)
      → m.seq_no ≡ n.seq_no
      → m.config ≡ n.config
      → (broadcast_hello w sockets m).trace ≡ m.trace ++ hellos n m.draws sockets
  unfolding broadcast_hello hellos send_later emit hello_header make_rrep
  broadcast_hello-hellos [] n m s c = sym (append-nil m.trace)
  broadcast_hello-hellos ((socket, iface) ∷ sockets) n m s c =
      broadcast_hello-hellos sockets n _ s c ∙ append_assoc m.trace _ _ ∙ rw (s, c) refl

due_after :
    (now interval last : ℤ)
    → max_ℤ (pos 0) (interval -ℤ (now -ℤ last)) +ℤ now ≡ max_ℤ now (last +ℤ interval)
unfolding max_ℤ
due_after now interval last = ground (
  arith,
  -ℤ_parts now last,
  -ℤ_parts interval (now -ℤ last),
  +ℤ_parts (interval -ℤ (now -ℤ last)) now,
  +ℤ_parts (pos 0) now,
  +ℤ_parts last interval,
  eq_of_parts (interval -ℤ (now -ℤ last) +ℤ now) (last +ℤ interval),
  eq_of_parts (pos 0 +ℤ now) now,
)

due_from :
    (now interval : ℤ) → max_ℤ (pos 0) (interval -ℤ pos 0) +ℤ now ≡ max_ℤ now (now +ℤ interval)
unfolding max_ℤ
due_from now interval = ground (
  arith,
  -ℤ_parts interval (pos 0),
  +ℤ_parts (interval -ℤ pos 0) now,
  +ℤ_parts (pos 0) now,
  +ℤ_parts now interval,
  eq_of_parts (interval -ℤ pos 0 +ℤ now) (now +ℤ interval),
  eq_of_parts (pos 0 +ℤ now) now,
)

-- The next round is due an interval after the last broadcast, but not before now.
due_lem :
    (now interval last : ℤ)
    → let offset = if ltb_ℤ (pos 0) last then now -ℤ last else pos 0 in
      max_ℤ (pos 0) (interval -ℤ offset) +ℤ now
      ≡ max_ℤ now ((if ltb_ℤ (pos 0) last then last else now) +ℤ interval)
due_lem now interval last = elim (Bool-cases (ltb_ℤ (pos 0) last)) [
  | inl recent ↦ rw recent (due_after now interval last)
  | inr quiet ↦ rw quiet (due_from now interval)
]

-- When the HELLO timer expires: if there was a broadcast since the last round, nothing is sent, and
-- the next round is due an interval after that broadcast, or now if that has passed. If there was
-- none, one HELLO is scheduled from each socket, with the own address and sequence number, to the
-- broadcast address with TTL 1, and nothing else; and the next round is due an interval from now, or
-- now if the interval is negative. The time of the last broadcast is reset.
pub hello_timer_expire_lem :
    (w : World) (n : Node)
    → let n' = hello_timer_expire w n in
      let recent = ltb_ℤ (pos 0) n.last_bcast_time in
      let start = if recent then n.last_bcast_time else w.now in
      (n'.trace ≡ n.trace ++ (if recent then [] else hellos w n n.draws n.socket_addresses))
      × (n'.htimer ≡ some (max_ℤ w.now (start +ℤ n.config.hello_interval)))
      × (n'.last_bcast_time ≡ pos 0)
unfolding hello_timer_expire send_hello
hello_timer_expire_lem w n = (
  elim (Bool-cases (ltb_ℤ (pos 0) n.last_bcast_time)) [
    | inl recent ↦ rw recent (sym (append-nil n.trace))
    | inr quiet ↦ rw quiet (broadcast_hello-hellos w n.socket_addresses n n refl refl)
  ],
  ap some (due_lem w.now n.config.hello_interval n.last_bcast_time),
  refl,
)
