-- ===== src/Protocol/Routes.antt =====
-- `UpdateRouteLifeTime` and `UpdateRouteToNeighbor`, and the comparison of sequence numbers.
use madaodv_ns.Base.{ℕ, ◌-◌, Bool, true, false, Option, none, some, ◌==◌, if◌then◌else◌, ◌&&◌, ltb}
use madaodv_ns.Int.{ℤ, pos, negsuc, ◌-ℤ◌, max_ℤ, ltb_ℤ}
use madaodv_ns.Entry.{
  valid, flag_eq, make_entry, get_output_device, get_life_time, set_life_time, set_rreq_cnt,
}
use madaodv_ns.Protocol.{
  World, Node, lookup_route, add_route, update_route, blank, device_of, iface_of,
}

-- `int32_t(n)` of a `uint32_t`.
unfoldable pub to_i32 : ℕ → ℤ
to_i32 n = if ltb n 2147483648 then pos n else negsuc (4294967295 - n)

-- `int32_t(a) - int32_t(b)`; `none` for the undefined behaviour of an overflow.
unfoldable pub seq_diff : ℕ → ℕ → Option ℤ
seq_diff a b =
    let d = to_i32 a -ℤ to_i32 b in
    if ltb_ℤ d (negsuc 2147483647) then none else if ltb_ℤ (pos 2147483647) d then none else some d

module _ (w : World) where
  open w use {ns, now}

  unfoldable pub update_route_life_time : ℕ → ℤ → Node → Node × Bool
  update_route_life_time addr lifetime n =
      let (n', ok, rt) = lookup_route w addr (blank w) n in
      if ok && flag_eq rt.flag valid
      then (
        update_route (set_life_time now (max_ℤ lifetime (get_life_time now rt)) (set_rreq_cnt 0 rt))
            n',
        true,
      )
      else (n', false)

  -- Where the entry for the neighbor is kept, its lifetime is raised in a local copy only.
  unfoldable pub update_route_to_neighbor : ℕ → ℕ → Node → Node
  update_route_to_neighbor sender receiver n =
      let (n', ok, to_neighbor) = lookup_route w sender (blank w) n in
      let timeout = (let c = n.config in c.active_route_timeout) in
      let dev = device_of w receiver in
      if ok
      then (if to_neighbor.valid_seq_no
            && ((to_neighbor.hops == 1) && (get_output_device to_neighbor == dev))
          then n'
          else update_route
              (make_entry ns now dev sender false 0 (iface_of w receiver) 1 sender
                (max_ℤ timeout (get_life_time now to_neighbor)))
              n')
      else add_route w (make_entry ns now dev sender false 0 (iface_of w receiver) 1 sender timeout)
          n'
