-- ===== src/Tests/Data.antt =====
-- A small network around one node: its interfaces 10 and 20 have the addresses 10 and 20.
use madaodv_ns.Base.{ℕ, true, false, none, some, [], ◌∷◌}
use madaodv_ns.Int.{ℤ, pos}
use madaodv_ns.Ns3.{Ns3}
use madaodv_ns.Ipv4.{Packet, Ipv4Header}
use madaodv_ns.Entry.{Entry, RouteFlags, valid, in_search}
use madaodv_ns.RoutingTable.{RoutingTable}
use madaodv_ns.RequestQueue.{QueueEntry, RequestQueue}
use madaodv_ns.Neighbors.{Arp, Neighbors}
use madaodv_ns.Protocol.{World, Config, Node}

abbrev pub test_ns : Ns3
test_ns = record {
  local = λ i. i;
  broadcast = λ i. 255;
  is_host_mask = λ i. false;
  no_address = 0;
  no_iface = 0;
  loopback = 127;
  loopback_iface = 127;
  all_hosts = 255;
  is_multicast = λ a. false;
  is_broadcast = λ a. false;
  interface_for_address = λ a. pos 1;
  interface_for_device = λ d. pos 1;
  net_device = λ i. 7;
  address = λ i. 10;
  is_destination_address = λ a i. false;
  is_forwarding = λ i. true;
  n_interfaces = 1;
  n_addresses = λ i. 1;
  is_up = λ i. true;
  arp_cache = λ i. 9;
  has_wifi = λ d. true;
  has_mac = λ d. true;
  has_adhoc_mac = λ d. true;
  udp_protocol = 17;
  max_time = pos 1000000;
}

abbrev pub test_arp : Arp
test_arp = record { lookup = λ c a. none; no_mac = 0 }

abbrev pub world : World
world = record {
  ns = test_ns;
  arp = test_arp;
  now = pos 1000;
  jitter = λ k. pos 3;
  to_ms = λ t. t;
  of_ms = λ n. pos n;
}

abbrev pub test_config : Config
test_config = record {
  rreq_retries = 2;
  ttl_start = 1;
  ttl_increment = 2;
  ttl_threshold = 7;
  timeout_buffer = 2;
  rreq_rate_limit = 10;
  rerr_rate_limit = 10;
  active_route_timeout = pos 3000;
  net_diameter = 35;
  node_traversal_time = pos 40;
  net_traversal_time = pos 2800;
  path_discovery_time = pos 5600;
  my_route_timeout = pos 11200;
  hello_interval = pos 1000;
  allowed_hello_loss = 2;
  delete_period = pos 15000;
  next_hop_wait = pos 50;
  black_list_timeout = pos 5600;
  max_queue_len = 64;
  max_queue_time = pos 30000;
  destination_only = false;
  gratuitous_reply = true;
  enable_hello = false;
  enable_broadcast = true;
}

abbrev pub test_entry : ℕ → ℕ → ℕ → ℕ → RouteFlags → ℤ → Entry
test_entry dst next_hop seq_no hops flag life_time = record {
  valid_seq_no = true;
  seq_no = seq_no;
  hops = hops;
  life_time = life_time;
  route = record { destination = dst; gateway = next_hop; source = 10; output_device = 7 };
  iface = 10;
  flag = flag;
  precursors = 20 ∷ [];
  req_count = 0;
  black_list_state = false;
  black_list_timeout = pos 0;
}

-- 50 is a neighbor, through which 60 is reached; 70 has expired; 80 is being searched.
abbrev pub test_table : RoutingTable
test_table = record {
  entries =
      (50, test_entry 50 50 4 1 valid (pos 5000))
      ∷ (60, test_entry 60 50 8 3 valid (pos 5000))
      ∷ (70, test_entry 70 50 8 3 valid (pos 500))
      ∷ (80, test_entry 80 0 2 35 in_search (pos 5000))
      ∷ [];
  bad_link_lifetime = pos 15000;
}

abbrev pub test_packet : ℕ → Packet
test_packet uid = record { uid = uid; deferred_tag = some (pos 1); udp_port = 9 }

abbrev pub test_header : ℕ → Ipv4Header
test_header dst = record { source = 10; destination = dst; ttl = 64; protocol = 17 }

abbrev pub queued : ℕ → ℕ → ℤ → QueueEntry
queued uid dst expire = record {
  packet = test_packet uid;
  header = test_header dst;
  ucb = 1;
  ecb = 2;
  expire = expire;
}

-- Two packets for 60, one of which has expired, and one for 80.
abbrev pub test_queue : RequestQueue
test_queue = record {
  queue = queued 1 60 (pos 10) ∷ queued 2 80 (pos 9000) ∷ queued 3 60 (pos 9000) ∷ [];
  max_len = 3;
  queue_timeout = pos 30000;
}

abbrev pub test_neighbors : Neighbors
test_neighbors = record {
  has_callback = true;
  delay = pos 1000;
  timer = none;
  nb =
      record { address = 50; hardware = 5; expire_time = pos 5000; close = false }
      ∷ record { address = 51; hardware = 6; expire_time = pos 10; close = false }
      ∷ [];
  arp = [];
}

abbrev pub node : Node
node = record {
  config = test_config;
  has_ipv4 = true;
  lo = 3;
  socket_addresses = (1, 10) ∷ (2, 20) ∷ [];
  socket_subnet_broadcast_addresses = [];
  table = test_table;
  queue = test_queue;
  request_id = 41;
  seq_no = 17;
  rreq_id_cache = record { ids = []; lifetime = pos 5600 };
  dpd = record { ids = []; lifetime = pos 5600 };
  nb = test_neighbors;
  rreq_count = 0;
  rerr_count = 0;
  htimer = none;
  rreq_rate_limit_timer = some (pos 2000);
  rerr_rate_limit_timer = some (pos 2000);
  address_req_timer = (80, some (pos 1200)) ∷ [];
  last_bcast_time = pos 0;
  draws = 0;
  trace = [];
}
