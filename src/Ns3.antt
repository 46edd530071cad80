-- ===== src/Ns3.antt =====
-- What the model takes from ns-3, which is not part of this repository: the getters of an
-- `Ipv4InterfaceAddress`, constants of `Ipv4Address`, and the node's IPv4 stack.
-- An `Ipv4Address` is the number that its `Get` returns. A value of `Ipv4InterfaceAddress` is
-- named by a number, one for all values that `==` identifies. A pointer (`Ptr<NetDevice>`,
-- `Ptr<Socket>`) is its address, 0 for `nullptr`.
use madaodv_ns.Base.{ℕ, Bool}
use madaodv_ns.Int.{ℤ}

pub record Ns3 : Type 0 where
  -- `Ipv4InterfaceAddress::GetLocal`, `GetBroadcast`, and `GetMask() == Ipv4Mask::GetOnes()`.
  pub local : ℕ → ℕ
  pub broadcast : ℕ → ℕ
  pub is_host_mask : ℕ → Bool
  -- `Ipv4Address()`, `Ipv4InterfaceAddress()`, and three constants.
  pub no_address : ℕ
  pub no_iface : ℕ
  -- `Ipv4Address::GetLoopback()`, which is `Ipv4Address("127.0.0.1")`.
  pub loopback : ℕ
  pub loopback_iface : ℕ
  pub all_hosts : ℕ
  pub is_multicast : ℕ → Bool
  pub is_broadcast : ℕ → Bool
  -- `Ipv4::GetInterfaceForAddress`, `GetInterfaceForDevice`, `GetNetDevice`, `GetAddress(i, 0)`.
  pub interface_for_address : ℕ → ℤ
  pub interface_for_device : ℕ → ℤ
  pub net_device : ℤ → ℕ
  pub address : ℤ → ℕ
  -- `Ipv4::IsDestinationAddress` and `Ipv4::IsForwarding`.
  pub is_destination_address : ℕ → ℤ → Bool
  pub is_forwarding : ℤ → Bool
  -- `GetNInterfaces`, `GetNAddresses(i)`, `IsUp(i)`, and `GetInterface(i)->GetArpCache()`.
  pub n_interfaces : ℕ
  pub n_addresses : ℤ → ℕ
  pub is_up : ℤ → Bool
  pub arp_cache : ℤ → ℕ
  -- Whether a device has a `WifiNetDevice`; whether this has a `GetMac()`; and whether that has an
  -- `AdhocWifiMac`.
  pub has_wifi : ℕ → Bool
  pub has_mac : ℕ → Bool
  pub has_adhoc_mac : ℕ → Bool
  -- `UdpL4Protocol::PROT_NUMBER`.
  pub udp_protocol : ℕ
  -- `Simulator::GetMaximumSimulationTime`.
  pub max_time : ℤ
