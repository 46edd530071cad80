-- ===== src/Protocol/RouteOutput.antt =====
-- Where a packet leaves: `RouteOutput` and `LoopbackRoute`.
use madaodv_ns.Base.{
  ℕ, Bool, true, false, not, Option, none, some, [], ◌∷◌, ◌==◌, if◌then◌else◌, ◌&&◌, is_some,
}
use madaodv_ns.Int.{ℤ, negsuc}
use madaodv_ns.Map.{Map}
use madaodv_ns.Ipv4.{Packet, Ipv4Header}
use madaodv_ns.Entry.{Route}
use madaodv_ns.Protocol.{World, Node, lookup_valid_route, blank, ◌>>=◌}
use madaodv_ns.Protocol.Routes.{update_route_life_time}

-- `Socket::ERROR_NOTERROR` and `Socket::ERROR_NOROUTETOHOST`.
pub data SockErr : Type 0 where
  no_error no_route_to_host : SockErr

-- What `RouteOutput` leaves behind: the node, the packet with its tags, the route unless it is
-- null, and what is written to `sockerr`, if anything is.
pub record Output : Type 0 where
  pub node : Node
  pub packet : Option Packet
  pub route : Option Route
  pub sockerr : Option SockErr

unfoldable pub has_no_sockets : Node → Bool
has_no_sockets n = elim n.socket_addresses [ [] ↦ true | s ∷ sockets ↦ false ]

-- `AddPacketTag`, unless the packet has the tag.
unfoldable pub tag_interface : ℤ → Packet → Packet
tag_interface oif p = if is_some p.deferred_tag then p else record p { deferred_tag = some oif }

module _ (w : World) where
  open w use {ns, now}

  -- The loop over the sockets: the first address on the device.
  unfoldable pub source_on : ℕ → Map ℕ → Option ℕ
  source_on oif [] = none
  source_on oif ((socket, iface) ∷ sockets) =
      if oif == ns.net_device (ns.interface_for_address (ns.local iface))
      then some (ns.local iface)
      else source_on oif sockets

  -- The source address, without an output device that of the first socket; `none` where there is
  -- no such socket, and the iterator is dereferenced at the end.
  unfoldable pub loopback_source : ℕ → Map ℕ → Option ℕ
  loopback_source oif sockets =
      if oif == 0
      then elim sockets [ [] ↦ none | s ∷ rest ↦ some (ns.local s.1) ]
      else elim (source_on oif sockets) [ none ↦ some ns.no_address | some a ↦ some a ]

  unfoldable pub loopback_route : Ipv4Header → ℕ → Node → Option Route
  loopback_route header oif n =
      if n.lo == 0 then none else elim (loopback_source oif n.socket_addresses) [
        | none ↦ none
        | some source ↦
            if source == ns.no_address
            then none
            else some (record {
              destination = header.destination;
              gateway = ns.loopback;
              source = source;
              output_device = n.lo;
            })
      ]

  -- A valid route, unless it leaves through another device than the caller wants.
  unfoldable pub output_through : Packet → ℕ → ℕ → Route → Node → Output
  output_through p dst oif route n =
      if not (oif == 0) && not (route.output_device == oif)
      then (record { node = n; packet = some p; route = none; sockerr = some no_route_to_host })
      else (let c = n.config in
          let n1 = (update_route_life_time w dst c.active_route_timeout n).0 in
          let n2 = (update_route_life_time w route.gateway c.active_route_timeout n1).0 in
          record { node = n2; packet = some p; route = some route; sockerr = some no_error })

  -- The interface that the tag fixes.
  unfoldable pub output_interface : ℕ → ℤ
  output_interface oif = if oif == 0 then negsuc 0 else ns.interface_for_device oif

  unfoldable pub output_loopback : Packet → Ipv4Header → ℕ → Node → Option Output
  output_loopback p header oif n = do
    route ← loopback_route header oif n
    some (record {
      node = n;
      packet = some (tag_interface (output_interface oif) p);
      route = some route;
      sockerr = some no_error;
    })

  unfoldable pub output_packet : Packet → Ipv4Header → ℕ → Node → Option Output
  output_packet p header oif n =
      let (n', ok, rt) = lookup_valid_route w header.destination (blank w) n in
      if ok
      then some (output_through p header.destination oif rt.route n')
      else output_loopback p header oif n'

  unfoldable pub route_output : Option Packet → Ipv4Header → ℕ → Node → Option Output
  route_output none header oif n = do
    route ← loopback_route header oif n
    some (record { node = n; packet = none; route = some route; sockerr = none })
  route_output (some p) header oif n =
      if has_no_sockets n
      then some
          (record { node = n; packet = some p; route = none; sockerr = some no_route_to_host })
      else output_packet p header oif n
