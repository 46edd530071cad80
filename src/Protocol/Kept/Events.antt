-- ===== src/Protocol/Kept/Events.antt =====
-- The events, and the states that a node comes to.
use madaodv_ns.Base.{ℕ, ◌≡◌, true, Option, none, some, arith}
use madaodv_ns.Int.{ℤ}
use madaodv_ns.RoutingTable.{RoutingTable, empty_table}
use madaodv_ns.RequestQueue.{RequestQueue, enqueue}
use madaodv_ns.RoutingTable.Spec.{Call, apply}
use madaodv_ns.Protocol.{World, Node}
use madaodv_ns.Protocol.Handlers.{rreq_rate_limit_timer_expire, rerr_rate_limit_timer_expire}
use madaodv_ns.Protocol.Setup.{
  initial_config, make_node, configure_queue_len, configure_queue_time, do_dispose, start,
  do_initialize,
}
use madaodv_ns.Protocol.System.{
  Event, configures, configures_queue_len, configures_queue_time, sets_ipv4, starts, disposes,
  initializes, brings_up, adds_address, brings_down, removes_address, outputs, inputs, receives,
  loses_frame, expires_hello, expires_rreq_limit, expires_rerr_limit, expires_neighbors,
  expires_request, requests, expires_ack, handle, Step, step, Reach, made, later,
}
use madaodv_ns.Protocol.After.{After, fails, gives, bind-After, if-both}
use madaodv_ns.Protocol.Kept.{Law, Kept}
use madaodv_ns.Protocol.Kept.Discovery.{send_request-Kept}
use madaodv_ns.Protocol.Kept.Errors.{notify_tx_error-Kept, neighbor_timer_expire-Kept}
use madaodv_ns.Protocol.Kept.Messages.{hello_timer_expire-Kept}
use madaodv_ns.Protocol.Kept.Entries.{
  route_request_timer_expire-Kept, ack_timer_expire-Kept, recv_madaodv-Kept,
}
use madaodv_ns.Protocol.Kept.DataPath.{TakenKept, OutputKept, route_input-Kept, route_output-Kept}
use madaodv_ns.Protocol.Kept.Links.{
  set_ipv4-Kept, notify_interface_up-Kept, notify_interface_down-Kept, notify_add_address-Kept,
  notify_remove_address-Kept,
}

-- Wherever `SetMaxQueueLen` is called, the queue stands the new limit.
abbrev pub Asks : (ℕ → RequestQueue → Type 0) → Event → RequestQueue → Type 0
Asks P (configures_queue_len len) q = P len q
Asks P e q = Unit

abbrev pub Stood : (P : ℕ → RequestQueue → Type 0) {n m : Node} → Step n m → Type 0
Stood P {n} (step w e h) = Asks P e n.queue

abbrev pub Sized :
    (P : ℕ → RequestQueue → Type 0) {seconds milli_seconds : ℕ → ℤ} {n : Node}
    → Reach seconds milli_seconds n
    → Type 0
Sized P (made enable_broadcast) = Unit
Sized P (later r s) = Stood P s × Sized P r

module _ (l : Law) where
  do_initialize-Kept :
      (w : World) (start_time : ℕ) (n : Node) → Kept l n → Kept l (do_initialize w start_time n)
  unfolding do_initialize
  do_initialize-Kept w start_time n p =
      let c = n.config in if-both (Kept l) c.enable_hello (record { holds = p.holds }) p

  handle-Kept :
      (w : World) (e : Event) (n : Node)
      → Asks l.Stands e n.queue
      → Kept l n
      → After (Kept l) (handle w e n)
  unfolding handle configure_queue_len configure_queue_time do_dispose start
      rreq_rate_limit_timer_expire rerr_rate_limit_timer_expire
  handle-Kept w (configures c) n a p = gives (record { holds = p.holds })
  handle-Kept w (configures_queue_len len) n a p =
      gives (record { holds = l.resizes len n.table n.queue a p.holds })
  handle-Kept w (configures_queue_time t) n a p =
      gives (record { holds = l.retimes t n.table n.queue p.holds })
  handle-Kept w sets_ipv4 n a p = set_ipv4-Kept w l n p
  handle-Kept w starts n a p = gives (record { holds = p.holds })
  handle-Kept w disposes n a p = gives (record { holds = p.holds })
  handle-Kept w (initializes t) n a p = gives (do_initialize-Kept w t n p)
  handle-Kept w (brings_up i s b) n a p = notify_interface_up-Kept w l i s b n p
  handle-Kept w (adds_address i s b) n a p = notify_add_address-Kept w l i s b n p
  handle-Kept w (brings_down i) n a p = notify_interface_down-Kept w l i n p
  handle-Kept w (removes_address i d s b) n a p = notify_remove_address-Kept w l i d s b n p
  handle-Kept w (outputs x h oif) n a p =
      bind-After (OutputKept w l) (Kept l) _ _ (route_output-Kept w l x h oif n p) (λ o q. gives q)
  handle-Kept w (inputs x h idev ucb lcb ecb) n a p =
      bind-After (TakenKept w l) (Kept l) _ _ (route_input-Kept w l x h idev ucb lcb ecb n p)
        (λ r q. gives q)
  handle-Kept w (receives socket src ttl m) n a p = recv_madaodv-Kept w l socket src ttl m n p
  handle-Kept w (loses_frame mac) n a p = notify_tx_error-Kept w l mac n p
  handle-Kept w expires_hello n a p = gives (hello_timer_expire-Kept w l n p)
  handle-Kept w expires_rreq_limit n a p = gives (record { holds = p.holds })
  handle-Kept w expires_rerr_limit n a p = gives (record { holds = p.holds })
  handle-Kept w expires_neighbors n a p = neighbor_timer_expire-Kept w l n p
  handle-Kept w (expires_request dst) n a p = route_request_timer_expire-Kept w l dst n p
  handle-Kept w (requests dst) n a p = send_request-Kept w l dst n p
  handle-Kept w (expires_ack b t) n a p = gives (ack_timer_expire-Kept w l b t n p)

  given : (x : Option Node) (m : Node) → After (Kept l) x → x ≡ some m → Kept l m
  given none m q e = cc
  given (some n) m (gives q) e = ground arith

  Step-Kept : {n m : Node} (s : Step n m) → Stood l.Stands s → Kept l n → Kept l m
  Step-Kept {n} {m} (step w e h) a p = given (handle w e n) m (handle-Kept w e n a p) h

  pub Reach-Kept :
      {seconds milli_seconds : ℕ → ℤ} {n : Node} (r : Reach seconds milli_seconds n)
      → Sized l.Stands r
      → Kept l (make_node seconds milli_seconds true)
      → Kept l n
  unfolding make_node initial_config
  Reach-Kept (made enable_broadcast) a base = record { holds = base.holds }
  Reach-Kept (later r s) (b, a) base = Step-Kept s b (Reach-Kept r a base)

-- Any queue stands any limit.
Asks-any : (e : Event) (q : RequestQueue) → Asks (λ len q. Unit) e q
Asks-any (configures_queue_len len) q = tt
Asks-any e q = tt

Stood-any : {n m : Node} (s : Step n m) → Stood (λ len q. Unit) s
Stood-any {n} (step w e h) = Asks-any e n.queue

pub Sized-any :
    {seconds milli_seconds : ℕ → ℤ} {n : Node} (r : Reach seconds milli_seconds n)
    → Sized (λ len q. Unit) r
Sized-any (made enable_broadcast) = tt
Sized-any (later r s) = (Stood-any s, Sized-any r)

always-After {ℓ} : {A : Type ℓ} {P : Type 0} (x : Option A) → P → After (λ a. P) x
always-After none p = fails
always-After (some a) p = gives p

-- A property of the table alone.
pub table_law :
    (P : RoutingTable → Type 0) → ((c : Call) (t : RoutingTable) → P t → P (apply c t)) → Law
table_law P kept = record {
  Holds = λ t q. P t;
  Stands = λ len q. Unit;
  kept = λ c t q p. kept c t p;
  enqueues = λ now e t q p. always-After (enqueue now e q) p;
  dequeues = λ now dst t q p. p;
  drops = λ now dst t q p. p;
  resizes = λ len t q a p. p;
  retimes = λ d t q p. p;
}

pub After-table :
    (P : RoutingTable → Type 0) (kept : (c : Call) (t : RoutingTable) → P t → P (apply c t))
    (f : Node → Option Node)
    → ((l : Law) (n : Node) → Kept l n → After (Kept l) (f n))
    → (n n' : Node) → P n.table
    → f n ≡ some n'
    → P n'.table
unfolding table_law
After-table P kept f k n n' p e =
    let l = table_law P kept in (given l (f n) n' (k l n (record { holds = p })) e).holds

pub Reach-table :
    (P : RoutingTable → Type 0) (kept : (c : Call) (t : RoutingTable) → P t → P (apply c t))
    {seconds milli_seconds : ℕ → ℤ} {n : Node}
    → P (empty_table (initial_config seconds milli_seconds true).delete_period)
    → Reach seconds milli_seconds n
    → P n.table
unfolding make_node table_law
Reach-table P kept base r =
    (Reach-Kept (table_law P kept) r (Sized-any r) (record { holds = base })).holds
