-- ===== src/Protocol/Setup.antt =====
-- How a node begins and ends: the constructor of `RoutingProtocol`, its attributes, `SetIpv4`,
-- `Start`, `DoInitialize` and `DoDispose`.
use madaodv_ns.Base.{
  ℕ, ◌+◌, Bool, true, false, Option, none, some, [], ◌++◌, map, ◌==◌, if◌then◌else◌, ◌&&◌, ◌||◌,
}
use madaodv_ns.Int.{ℤ, pos, ◌+ℤ◌, ◌*ℤ◌, max_ℤ}
use madaodv_ns.Entry.{make_entry}
use madaodv_ns.RoutingTable.{empty_table}
use madaodv_ns.IdCache.{IdCache}
use madaodv_ns.RequestQueue.{RequestQueue, set_max_queue_len, set_queue_timeout}
use madaodv_ns.Neighbors.{Neighbors, schedule_timer}
use madaodv_ns.Protocol.{World, Config, Node, closes_socket, schedules_start, emit, add_route}

-- The constructors of the components.
unfoldable pub make_id_cache : ℤ → IdCache
make_id_cache lifetime = record { ids = []; lifetime = lifetime }

unfoldable pub make_request_queue : ℕ → ℤ → RequestQueue
make_request_queue max_len route_to_queue_timeout = record {
  queue = [];
  max_len = max_len;
  queue_timeout = route_to_queue_timeout;
}

unfoldable pub make_neighbors : ℤ → Neighbors
make_neighbors delay = record {
  has_callback = false;
  delay = delay;
  timer = none;
  nb = [];
  arp = [];
}

-- `seconds` is `Seconds` of a number of tenths, and `milli_seconds` is `MilliSeconds`.
module _ (seconds milli_seconds : ℕ → ℤ) where
  -- What the constructor sets; it leaves `m_enableBroadcast` alone.
  unfoldable pub initial_config : Bool → Config
  initial_config enable_broadcast =
      let active = seconds 30 in
      let node = milli_seconds 40 in
      let net = 70 *ℤ node in
      let path = 2 *ℤ net in
      let hello = seconds 10 in
      record {
        rreq_retries = 2;
        ttl_start = 1;
        ttl_increment = 2;
        ttl_threshold = 7;
        timeout_buffer = 2;
        rreq_rate_limit = 10;
        rerr_rate_limit = 10;
        active_route_timeout = active;
        net_diameter = 35;
        node_traversal_time = node;
        net_traversal_time = net;
        path_discovery_time = path;
        my_route_timeout = 2 *ℤ max_ℤ path active;
        hello_interval = hello;
        allowed_hello_loss = 2;
        delete_period = 5 *ℤ max_ℤ active hello;
        next_hop_wait = node +ℤ milli_seconds 10;
        black_list_timeout = 2 *ℤ net;
        max_queue_len = 64;
        max_queue_time = seconds 300;
        destination_only = false;
        gratuitous_reply = true;
        enable_hello = false;
        enable_broadcast = enable_broadcast;
      }

  unfoldable pub make_node : Bool → Node
  make_node enable_broadcast =
      let c = initial_config enable_broadcast in
      record {
        config = c;
        has_ipv4 = false;
        lo = 0;
        socket_addresses = [];
        socket_subnet_broadcast_addresses = [];
        table = empty_table c.delete_period;
        queue = make_request_queue c.max_queue_len c.max_queue_time;
        request_id = 0;
        seq_no = 0;
        rreq_id_cache = make_id_cache c.path_discovery_time;
        dpd = make_id_cache c.path_discovery_time;
        nb = (let nb = make_neighbors c.hello_interval in record nb { has_callback = true });
        rreq_count = 0;
        rerr_count = 0;
        htimer = none;
        rreq_rate_limit_timer = none;
        rerr_rate_limit_timer = none;
        address_req_timer = [];
        last_bcast_time = seconds 0;
        draws = 0;
        trace = [];
      }

-- The setters of the flags.
unfoldable pub set_destination_only_flag : Bool → Node → Node
set_destination_only_flag f n =
    let c = n.config in record n { config = record c { destination_only = f } }

unfoldable pub set_gratuitous_reply_flag : Bool → Node → Node
set_gratuitous_reply_flag f n =
    let c = n.config in record n { config = record c { gratuitous_reply = f } }

unfoldable pub set_hello_enable : Bool → Node → Node
set_hello_enable f n = let c = n.config in record n { config = record c { enable_hello = f } }

unfoldable pub set_broadcast_enable : Bool → Node → Node
set_broadcast_enable f n =
    let c = n.config in record n { config = record c { enable_broadcast = f } }

-- `SetMaxQueueLen` and `SetMaxQueueTime`.
unfoldable pub configure_queue_len : ℕ → Node → Node
configure_queue_len len n =
    let c = n.config in
    record n { config = record c { max_queue_len = len }; queue = set_max_queue_len len n.queue }

unfoldable pub configure_queue_time : ℤ → Node → Node
configure_queue_time t n =
    let c = n.config in
    record n { config = record c { max_queue_time = t }; queue = set_queue_timeout t n.queue }

-- The initial values of the attributes, which ns-3 gives them after the constructor.
module _ (seconds milli_seconds : ℕ → ℤ) where
  unfoldable pub initial_attributes : Config → Config
  initial_attributes c = record c {
    hello_interval = seconds 10;
    ttl_start = 1;
    ttl_increment = 2;
    ttl_threshold = 7;
    timeout_buffer = 2;
    rreq_retries = 2;
    rreq_rate_limit = 10;
    rerr_rate_limit = 10;
    node_traversal_time = milli_seconds 40;
    next_hop_wait = milli_seconds 50;
    active_route_timeout = seconds 30;
    my_route_timeout = seconds 112;
    black_list_timeout = seconds 56;
    delete_period = seconds 150;
    net_diameter = 35;
    net_traversal_time = seconds 28;
    path_discovery_time = seconds 56;
    allowed_hello_loss = 2;
  }

  unfoldable pub set_attributes : Node → Node
  set_attributes n =
      let n1 = record n { config = initial_attributes n.config } in
      let n2 = configure_queue_time (seconds 300) (configure_queue_len 64 n1) in
      let n3 = set_destination_only_flag false (set_gratuitous_reply_flag true n2) in
      set_broadcast_enable true (set_hello_enable true n3)

-- `Close` of each socket, in both maps.
unfoldable pub do_dispose : Node → Node
do_dispose n = record n {
  has_ipv4 = false;
  socket_addresses = [];
  socket_subnet_broadcast_addresses = [];
  trace =
      n.trace
      ++ map (λ s. closes_socket s.0) n.socket_addresses
      ++ map (λ s. closes_socket s.0) n.socket_subnet_broadcast_addresses;
}

module _ (w : World) where
  open w use {ns, now}

  -- The only interface is the loopback, the device of which is kept with a route to it; `none`
  -- fails an assertion.
  unfoldable pub set_ipv4 : Node → Option Node
  set_ipv4 n =
      let lo = ns.net_device (pos 0) in
      if n.has_ipv4 || (lo == 0)
      then none
      else if (ns.n_interfaces == 1) && (ns.local (ns.address (pos 0)) == ns.loopback)
      then some (
          emit schedules_start (
            add_route w
              (make_entry ns now lo ns.loopback true 0 ns.loopback_iface 1 ns.loopback ns.max_time)
              (record n { has_ipv4 = true; lo = lo })))
      else none

  -- The timers of the limits are due in a second.
  unfoldable pub start : Node → Node
  start n =
      let c = n.config in
      record n {
        nb = if c.enable_hello then schedule_timer now n.nb else n.nb;
        rreq_rate_limit_timer = some (w.of_ms 1000 +ℤ now);
        rerr_rate_limit_timer = some (w.of_ms 1000 +ℤ now);
      }

  -- `start_time` is what `GetInteger(0, 100)` draws.
  unfoldable pub do_initialize : ℕ → Node → Node
  do_initialize start_time n =
      let c = n.config in
      if c.enable_hello
      then record n { htimer = some (w.of_ms start_time +ℤ now); draws = n.draws + 1 }
      else n
