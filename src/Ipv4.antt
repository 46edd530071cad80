-- ===== src/Ipv4.antt =====
-- The parts of ns-3's `Packet` and `Ipv4Header` that the routing protocol reads: each field is the
-- value of a getter. A callback is named by a number.
use madaodv_ns.Base.{ℕ, Option}
use madaodv_ns.Int.{ℤ}

pub record Packet : Type 0 where
  pub uid : ℕ
  -- The interface in the packet's `DeferredRouteOutputTag`, if it has the tag; -1 for none.
  pub deferred_tag : Option ℤ
  -- The destination port, if the packet begins with a UDP header.
  pub udp_port : ℕ

pub record Ipv4Header : Type 0 where
  pub source : ℕ
  pub destination : ℕ
  pub ttl : ℕ
  pub protocol : ℕ
