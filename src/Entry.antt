-- ===== src/Entry.antt =====
-- `RoutingTableEntry` of model/madaodv-rtable.h and model/madaodv-rtable.cc. The instant that
-- `Simulator::Now()` returns is the argument `now`. Copies of an entry share one `Ipv4Route`
-- object; each handler that changes it writes the entry back at once, so the route is kept by
-- value. `m_routeRequestTimout` is never used, and `m_ackTimer` is never scheduled: no field.
pub mod Precursors
use madaodv_ns.Base.{
  ℕ, ◌+◌, ◌%◌, Bool, true, false, not, List, [], ◌∷◌, ◌++◌, ◌==◌, if◌then◌else◌, any, reject,
}
use madaodv_ns.Int.{ℤ, pos, ◌+ℤ◌, ◌-ℤ◌, ltb_ℤ}
use madaodv_ns.Ns3.{Ns3}

pub data RouteFlags : Type 0 where
  valid invalid in_search : RouteFlags

unfoldable pub flag_eq : RouteFlags → RouteFlags → Bool
flag_eq valid valid = true
flag_eq invalid invalid = true
flag_eq in_search in_search = true
flag_eq _ _ = false

pub record Route : Type 0 where
  pub destination : ℕ
  pub gateway : ℕ
  pub source : ℕ
  pub output_device : ℕ

pub record Entry : Type 0 where
  pub valid_seq_no : Bool
  pub seq_no : ℕ
  pub hops : ℕ
  pub life_time : ℤ
  pub route : Route
  pub iface : ℕ
  pub flag : RouteFlags
  pub precursors : List ℕ
  pub req_count : ℕ
  pub black_list_state : Bool
  pub black_list_timeout : ℤ

-- The constructor.
unfoldable pub make_entry : Ns3 → ℤ → ℕ → ℕ → Bool → ℕ → ℕ → ℕ → ℕ → ℤ → Entry
make_entry ns now dev dst v_seq_no seq_no iface hops next_hop lifetime = record {
  valid_seq_no = v_seq_no;
  seq_no = seq_no;
  hops = hops;
  life_time = lifetime +ℤ now;
  route = record {
    destination = dst;
    gateway = next_hop;
    source = ns.local iface;
    output_device = dev;
  };
  iface = iface;
  flag = valid;
  precursors = [];
  req_count = 0;
  black_list_state = false;
  black_list_timeout = now;
}

-- `RoutingTableEntry rt;`, with the constructor's default arguments.
unfoldable pub default_entry : Ns3 → ℤ → Entry
unfolding make_entry
default_entry ns now = make_entry ns now 0 ns.no_address false 0 ns.no_iface 0 ns.no_address now

abbrev pub get_destination : Entry → ℕ
get_destination e = e.route.destination

abbrev pub get_next_hop : Entry → ℕ
get_next_hop e = e.route.gateway

abbrev pub get_output_device : Entry → ℕ
get_output_device e = e.route.output_device

abbrev pub set_next_hop : ℕ → Entry → Entry
set_next_hop h e = let r = e.route in record e { route = record r { gateway = h } }

abbrev pub set_output_device : ℕ → Entry → Entry
set_output_device d e = let r = e.route in record e { route = record r { output_device = d } }

abbrev pub set_interface : ℕ → Entry → Entry
set_interface i e = record e { iface = i }

abbrev pub set_valid_seq_no : Bool → Entry → Entry
set_valid_seq_no s e = record e { valid_seq_no = s }

abbrev pub set_seq_no : ℕ → Entry → Entry
set_seq_no sn e = record e { seq_no = sn }

abbrev pub set_hop : ℕ → Entry → Entry
set_hop h e = record e { hops = h }

abbrev pub set_life_time : ℤ → ℤ → Entry → Entry
set_life_time now lt e = record e { life_time = lt +ℤ now }

-- What is left of the lifetime; below zero for an outdated entry.
abbrev pub get_life_time : ℤ → Entry → ℤ
get_life_time now e = e.life_time -ℤ now

abbrev pub set_flag : RouteFlags → Entry → Entry
set_flag f e = record e { flag = f }

abbrev pub set_rreq_cnt : ℕ → Entry → Entry
set_rreq_cnt n e = record e { req_count = n }

-- The counter is a `uint8_t`.
abbrev pub increment_rreq_cnt : Entry → Entry
increment_rreq_cnt e = record e { req_count = (e.req_count + 1) % 256 }

abbrev pub set_unidirectional : Bool → Entry → Entry
set_unidirectional u e = record e { black_list_state = u }

abbrev pub set_blacklist_timeout : ℤ → Entry → Entry
set_blacklist_timeout t e = record e { black_list_timeout = t }

unfoldable pub lookup_precursor : ℕ → Entry → Bool
unfolding any
lookup_precursor id e = any (λ i. i == id) e.precursors

unfoldable pub insert_precursor : ℕ → Entry → Entry × Bool
unfolding lookup_precursor
insert_precursor id e =
    if not (lookup_precursor id e)
    then (record e { precursors = e.precursors ++ id ∷ [] }, true)
    else (e, false)

-- `std::remove` returns the end of the vector exactly when nothing equals `id`.
unfoldable pub delete_precursor : ℕ → Entry → Entry × Bool
unfolding lookup_precursor reject
delete_precursor id e =
    if not (lookup_precursor id e)
    then (e, false)
    else (record e { precursors = reject (λ i. i == id) e.precursors }, true)

unfoldable pub delete_all_precursors : Entry → Entry
delete_all_precursors e = record e { precursors = [] }

unfoldable pub is_precursor_list_empty : Entry → Bool
is_precursor_list_empty e = elim e.precursors [ [] ↦ true | _ ∷ _ ↦ false ]

-- The loops of `GetPrecursors`: push what is not yet in `prec`, which grows on the way.
unfoldable pub push_missing : List ℕ → List ℕ → List ℕ
unfolding any
push_missing [] prec = prec
push_missing (i ∷ is) prec =
    push_missing is (if any (λ j. j == i) prec then prec else prec ++ i ∷ [])

unfoldable pub get_precursors : Entry → List ℕ → List ℕ
unfolding is_precursor_list_empty push_missing
get_precursors e prec = if is_precursor_list_empty e then prec else push_missing e.precursors prec

unfoldable pub invalidate : ℤ → ℤ → Entry → Entry
unfolding flag_eq
invalidate now bad_link_lifetime e =
    if flag_eq e.flag invalid
    then e
    else record e { flag = invalid; req_count = 0; life_time = bad_link_lifetime +ℤ now }

-- `GetLifeTime() < Seconds(0)`.
unfoldable pub is_outdated : ℤ → Entry → Bool
is_outdated now e = ltb_ℤ (get_life_time now e) (pos 0)
