-- ===== src/Protocol/Hello.antt =====
-- HELLO messages: `SendHello`, `HelloTimerExpire` and `ProcessHello`.
use madaodv_ns.Base.{ℕ, true, Option, some, [], ◌∷◌, if◌then◌else◌}
use madaodv_ns.Int.{ℤ, pos, ◌+ℤ◌, ◌-ℤ◌, ◌*ℤ◌, max_ℤ, ltb_ℤ}
use madaodv_ns.Map.{Map}
use madaodv_ns.Entry.{
  valid, make_entry, set_flag, set_hop, set_interface, set_life_time, get_life_time, set_next_hop,
  set_output_device, set_seq_no, set_valid_seq_no,
}
use madaodv_ns.Headers.{RrepHeader, make_rrep}
use madaodv_ns.Protocol.{
  World, Config, Node, rrep_message, lookup_route, add_route, update_route, send_later,
  broadcast_address, blank, device_of, iface_of,
}
use madaodv_ns.Protocol.Rerr.{update_neighbor}

-- `m_allowedHelloLoss * m_helloInterval`.
abbrev pub hello_lifetime : Config → ℤ
hello_lifetime c = c.allowed_hello_loss *ℤ c.hello_interval

module _ (w : World) where
  open w use {ns, now}

  unfoldable pub hello_header : ℕ → Node → RrepHeader
  hello_header iface n =
      make_rrep 0 0 (ns.local iface) n.seq_no (ns.local iface) (w.to_ms (hello_lifetime n.config))

  -- The loop of `SendHello`.
  unfoldable pub broadcast_hello : Map ℕ → Node → Node
  broadcast_hello [] n = n
  broadcast_hello ((socket, iface) ∷ sockets) n =
      broadcast_hello sockets
        (send_later w socket (broadcast_address w iface) 1 (rrep_message (hello_header iface n)) n)

  unfoldable pub send_hello : Node → Node
  send_hello n = broadcast_hello n.socket_addresses n

  -- A HELLO is left out if something was broadcast since the last round, and the next round comes
  -- that much sooner.
  unfoldable pub hello_timer_expire : Node → Node
  hello_timer_expire n =
      let c = n.config in
      let recent = ltb_ℤ (pos 0) n.last_bcast_time in
      let offset = if recent then now -ℤ n.last_bcast_time else pos 0 in
      let n' = if recent then n else send_hello n in
      record n' {
        htimer = some (max_ℤ (pos 0) (c.hello_interval -ℤ offset) +ℤ now);
        last_bcast_time = pos 0;
      }

  -- The route to the neighbor that sent the HELLO.
  unfoldable pub hello_route : RrepHeader → ℕ → Node → Node
  hello_route h receiver n =
      let (n', ok, to_neighbor) = lookup_route w h.dst (blank w) n in
      if ok
      then update_route
          (set_next_hop h.dst (
            set_hop 1 (
              set_interface (iface_of w receiver) (
                set_output_device (device_of w receiver) (
                  set_flag valid (
                    set_valid_seq_no true (
                      set_seq_no h.dst_seq_no (
                        set_life_time now
                          (max_ℤ (hello_lifetime n.config) (get_life_time now to_neighbor))
                          to_neighbor))))))))
          n'
      else add_route w
          (make_entry ns now (device_of w receiver) h.dst true h.dst_seq_no (iface_of w receiver) 1
            h.dst (w.of_ms h.life_time))
          n'

  unfoldable pub process_hello : RrepHeader → ℕ → Node → Option Node
  process_hello h receiver n =
      let c = n.config in
      let n' = hello_route h receiver n in
      if c.enable_hello then update_neighbor w h.dst (hello_lifetime c) n' else some n'
