-- ===== src/Tests/Agents.antt =====
-- Streams for the agents of five nodes, and the tag of a waiting packet.
use madaodv_ns.Protocol.Routes
use madaodv_ns.Headers
use madaodv_ns.Int
use madaodv_ns.Helper
use madaodv_ns.Base.{ℕ, ◌≡◌, refl, some, none, List, [], ◌∷◌, ◌+◌, ◌*◌, ◌/◌, ◌%◌, ◌++◌, arith}
use madaodv_ns.Int.{ℤ, pos, negsuc}
use madaodv_ns.Helper.{Routing, agent, list_routing, other, assign_streams}
use madaodv_ns.Helper.Assigned.{installed, agents, numbered, assign_streams_lem}
use madaodv_ns.Protocol.Tag.{TagBuffer, make_tag, get_interface, serialize_tag, deserialize_tag}

abbrev stacks : List Routing
stacks =
    agent 4
    ∷ other
    ∷ list_routing (none ∷ some 7 ∷ some 8 ∷ [])
    ∷ list_routing (none ∷ [])
    ∷ agent 5
    ∷ []

three_streams :
    assign_streams (installed stacks) (pos 100)
    ≡ some ((4, pos 100) ∷ (7, pos 101) ∷ (5, pos 102) ∷ [], pos 3)
unfolding assign_streams Helper.assign_nodes Helper.assign_node Helper.assign_agent Helper.to_i64
    Int.◌+ℤ◌ Helper.agent_assign_streams Helper.assign_list Int.◌-ℤ◌
three_streams = refl

no_stack : assign_streams (none ∷ []) (pos 0) ≡ none
unfolding assign_streams Helper.assign_nodes Helper.assign_node
no_stack = refl

assign_streams_lem_example :
    assign_streams (installed stacks) (pos 100) ≡ some (numbered (pos 100) (agents stacks), pos 3)
unfolding Int.◌+ℤ◌
assign_streams_lem_example =
    assign_streams_lem stacks (pos 100) (omega arith) (omega arith) (omega arith)

abbrev read_word : List ℕ → ℕ × List ℕ
read_word (a ∷ b ∷ c ∷ d ∷ rest) = (a * 16777216 + b * 65536 + c * 256 + d, rest)
read_word rest = (0, rest)

-- A buffer that writes the highest byte first.
abbrev tag_buffer : TagBuffer
tag_buffer = record {
  write_u32 = λ x. x / 16777216 ∷ (x / 65536) % 256 ∷ (x / 256) % 256 ∷ x % 256 ∷ [];
  read_u32 = read_word;
}

tag_back :
    get_interface (
      deserialize_tag tag_buffer
        (serialize_tag tag_buffer (make_tag (negsuc 0)) ++ 9 ∷ [])
        (make_tag (pos 3)))
    ≡ negsuc 0
unfolding deserialize_tag Routes.to_i32 serialize_tag Headers.to_u32
tag_back = refl
