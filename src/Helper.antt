-- ===== src/Helper.antt =====
-- `MadaodvHelper::AssignStreams` (helper/madaodv-helper.cc), which gives the random variables of
-- the agents their streams, and `RoutingProtocol::AssignStreams`
-- (model/madaodv-routing-protocol.cc). An agent is the number of its object; what the dynamic casts
-- of ns-3 find is part of the argument.
pub mod Assigned
use madaodv_ns.Base.{
  ℕ, ◌≡◌, refl, ◌∙◌, ap, sym, Option, none, some, List, [], ◌∷◌, ◌++◌, map, arith, length,
  if◌then◌else◌, ◌||◌,
}
use madaodv_ns.Protocol.{◌>>=◌}
use madaodv_ns.Int.{ℤ, pos, negsuc, ◌+ℤ◌, ◌-ℤ◌, ◌≤ℤ◌, ltb_ℤ, int_laws}

-- The routing protocol of a node: an agent, a list of protocols, of which some are agents, or
-- another one.
pub data Routing : Type 0 where
  agent : ℕ → Routing
  list_routing : List (Option ℕ) → Routing
  other : Routing

-- A node: its IPv4 stack, if it has one, with its routing protocol, if it has one.
abbrev pub NodeStack : Type 0
NodeStack = Option (Option Routing)

abbrev pub min_i64 : ℤ
min_i64 = negsuc 9223372036854775807

abbrev pub max_i64 : ℤ
max_i64 = pos 9223372036854775807

-- The result of an operation on `int64_t`; `none` for the undefined behaviour of an overflow.
unfoldable pub to_i64 : ℤ → Option ℤ
to_i64 a = if ltb_ℤ a min_i64 || ltb_ℤ max_i64 a then none else some a

-- The running stream, and the calls of `SetStream` so far.
pub record Streams : Type 0 where
  pub current : ℤ
  pub given : List (ℕ × ℤ)

-- `RoutingProtocol::AssignStreams`: the call of `SetStream`, and the streams used.
unfoldable pub agent_assign_streams : ℕ → ℤ → (ℕ × ℤ) × ℤ
agent_assign_streams a stream = ((a, stream), pos 1)

unfoldable pub assign_agent : ℕ → Streams → Option Streams
assign_agent a s = do
  let (call, used) = agent_assign_streams a s.current
  current ← to_i64 (s.current +ℤ used)
  some (record { current = current; given = s.given ++ call ∷ [] })

-- The loop over a list of protocols, which ends at the first agent.
unfoldable pub assign_list : List (Option ℕ) → Streams → Option Streams
assign_list [] s = some s
assign_list (some a ∷ ps) s = assign_agent a s
assign_list (none ∷ ps) s = assign_list ps s

-- One round of the loop over the nodes; `none` for a failed assertion.
unfoldable pub assign_node : NodeStack → Streams → Option Streams
assign_node none s = none
assign_node (some none) s = none
assign_node (some (some (agent a))) s = assign_agent a s
assign_node (some (some (list_routing ps))) s = assign_list ps s
assign_node (some (some other)) s = some s

unfoldable pub assign_nodes : List NodeStack → Streams → Option Streams
assign_nodes [] s = some s
assign_nodes (n ∷ ns) s = do s' ← assign_node n s; assign_nodes ns s'

-- The calls of `SetStream`, and the number of streams used.
unfoldable pub assign_streams : List NodeStack → ℤ → Option (List (ℕ × ℤ) × ℤ)
assign_streams ns stream = do
  s ← assign_nodes ns (record { current = stream; given = [] })
  used ← to_i64 (s.current -ℤ stream)
  some (s.given, used)
