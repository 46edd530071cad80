-- ===== src/Protocol/LoopedBack.antt =====
-- A packet that `RouteOutput` loops back for want of a route: `RouteInput` puts it off, and it goes
-- out through the interface that was asked for.
use madaodv_ns.Base.{ℕ, ◌≡◌, true, ◌⊎◌}
use madaodv_ns.Int.{negsuc}
use madaodv_ns.Ns3.{Ns3}
use madaodv_ns.Entry.{Route}
use madaodv_ns.Protocol.Queue.{eq_ℤ}

-- The packet can leave through the device, as far as its tag goes.
abbrev pub Through : Ns3 → ℕ → Route → Type 0
Through ns oif route =
    (oif ≡ 0)
    ⊎ (eq_ℤ (ns.interface_for_device oif) (negsuc 0) ≡ true)
    ⊎ (eq_ℤ (ns.interface_for_device oif) (ns.interface_for_device route.output_device) ≡ true)
