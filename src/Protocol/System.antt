-- ===== src/Protocol/System.antt =====
-- A node in the simulator: what may happen to it, and the states that it can come to. Each event
-- is a call by which ns-3 enters `RoutingProtocol`, or a timer of it, or a scheduled call.
use madaodv_ns.Base.{◌≡◌, ℕ, Bool, Option, some}
use madaodv_ns.Int.{ℤ}
use madaodv_ns.Ipv4.{Packet, Ipv4Header}
use madaodv_ns.Protocol.{World, Config, Node, Message, ◌>>=◌}
use madaodv_ns.Protocol.Request.{send_request}
use madaodv_ns.Protocol.Rerr.{notify_tx_error, neighbor_timer_expire}
use madaodv_ns.Protocol.Hello.{hello_timer_expire}
use madaodv_ns.Protocol.Handlers.{
  route_request_timer_expire, rreq_rate_limit_timer_expire, rerr_rate_limit_timer_expire,
  ack_timer_expire, recv_madaodv,
}
use madaodv_ns.Protocol.RouteOutput.{route_output}
use madaodv_ns.Protocol.RouteInput.{route_input}
use madaodv_ns.Protocol.Interfaces.{
  notify_interface_up, notify_interface_down, notify_add_address, notify_remove_address,
}
use madaodv_ns.Protocol.Setup.{
  make_node, configure_queue_len, configure_queue_time, do_dispose, set_ipv4, start, do_initialize,
}

pub data Event : Type 0 where
  -- An attribute that is a plain field gets a value; the two that reach the queue.
  configures : Config → Event
  configures_queue_len : ℕ → Event
  configures_queue_time : ℤ → Event
  sets_ipv4 starts disposes : Event
  initializes : ℕ → Event
  brings_up adds_address : ℕ → ℕ → ℕ → Event
  brings_down : ℕ → Event
  removes_address : ℕ → ℕ → ℕ → ℕ → Event
  outputs : Option Packet → Ipv4Header → ℕ → Event
  inputs : Packet → Ipv4Header → ℕ → ℕ → Option ℕ → ℕ → Event
  receives : ℕ → ℕ → ℕ → Option Message → Event
  loses_frame : ℕ → Event
  expires_hello expires_rreq_limit expires_rerr_limit expires_neighbors : Event
  expires_request requests : ℕ → Event
  expires_ack : ℕ → ℤ → Event

unfoldable pub handle : World → Event → Node → Option Node
handle w (configures c) n = some (record n { config = c })
handle w (configures_queue_len len) n = some (configure_queue_len len n)
handle w (configures_queue_time t) n = some (configure_queue_time t n)
handle w sets_ipv4 n = set_ipv4 w n
handle w starts n = some (start w n)
handle w disposes n = some (do_dispose n)
handle w (initializes start_time) n = some (do_initialize w start_time n)
handle w (brings_up i unicast broadcast) n = notify_interface_up w i unicast broadcast n
handle w (adds_address i unicast broadcast) n = notify_add_address w i unicast broadcast n
handle w (brings_down i) n = notify_interface_down w i n
handle w (removes_address i address unicast broadcast) n =
    notify_remove_address w i address unicast broadcast n
handle w (outputs p header oif) n = route_output w p header oif n >>= λ o. some o.node
handle w (inputs p header idev ucb lcb ecb) n =
    route_input w p header idev ucb lcb ecb n >>= λ r. some r.0
handle w (receives socket sender ttl message) n = recv_madaodv w socket sender ttl message n
handle w (loses_frame mac) n = notify_tx_error w mac n
handle w expires_hello n = some (hello_timer_expire w n)
handle w expires_rreq_limit n = some (rreq_rate_limit_timer_expire w n)
handle w expires_rerr_limit n = some (rerr_rate_limit_timer_expire w n)
handle w expires_neighbors n = neighbor_timer_expire w n
handle w (expires_request dst) n = route_request_timer_expire w dst n
handle w (requests dst) n = send_request w dst n
handle w (expires_ack neighbor timeout) n = some (ack_timer_expire w neighbor timeout n)

-- An event in some world, that is at some instant, takes one node to the next.
pub data Step : Node → Node → Type 0 where
  step : {n m : Node} (w : World) (e : Event) → handle w e n ≡ some m → Step n m

-- The nodes that come about from the constructor by any events, in any order.
pub data Reach (seconds milli_seconds : ℕ → ℤ) : Node → Type 0 where
  made :
      (enable_broadcast : Bool)
      → Reach seconds milli_seconds (make_node seconds milli_seconds enable_broadcast)
  later : {n m : Node} → Reach seconds milli_seconds n → Step n m → Reach seconds milli_seconds m
