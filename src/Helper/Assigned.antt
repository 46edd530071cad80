-- ===== src/Helper/Assigned.antt =====
-- The streams that `AssignStreams` of the helper gives.
use mathlib.Core.List.{append_assoc, append-nil}
use madaodv_ns.Base.{
  ℕ, suc, ◌+◌, ◌<◌, ◌≡◌, ◌∙◌, ap, sym, Option, none, some, List, [], ◌∷◌, ◌++◌, map, arith, length,
  length-append,
}
use madaodv_ns.Int.{ℤ, pos, ◌+ℤ◌, ◌-ℤ◌, ◌≤ℤ◌, int_laws}
use madaodv_ns.Protocol.{◌>>=◌}
use madaodv_ns.Helper.{
  Routing, agent, list_routing, other, NodeStack, min_i64, max_i64, to_i64, Streams,
  agent_assign_streams, assign_agent, assign_list, assign_node, assign_nodes, assign_streams,
}

-- The agents that a node has: of a list only the first.
abbrev pub first_agent : List (Option ℕ) → List ℕ
first_agent [] = []
first_agent (some a ∷ ps) = a ∷ []
first_agent (none ∷ ps) = first_agent ps

abbrev pub agents_of : Routing → List ℕ
agents_of (agent a) = a ∷ []
agents_of (list_routing ps) = first_agent ps
agents_of other = []

abbrev pub agents : List Routing → List ℕ
agents [] = []
agents (r ∷ rs) = agents_of r ++ agents rs

-- Each agent with its stream, counted from the first.
abbrev pub numbered : ℤ → List ℕ → List (ℕ × ℤ)
numbered stream [] = []
numbered stream (a ∷ rest) = (a, stream) ∷ numbered (stream +ℤ pos 1) rest

abbrev pub installed : List Routing → List NodeStack
installed rs = map (λ r. some (some r)) rs

after : List ℕ → Streams → Streams
after rest s = record {
  current = s.current +ℤ pos (length rest);
  given = s.given ++ numbered s.current rest;
}

Fits : List ℕ → Streams → Type 0
Fits rest s = (min_i64 ≤ℤ s.current) × (s.current +ℤ pos (length rest) ≤ℤ max_i64)

to_i64_lem : (a : ℤ) → min_i64 ≤ℤ a → a ≤ℤ max_i64 → to_i64 a ≡ some a
unfolding to_i64
to_i64_lem a l h = ground arith

add_zero : (a : ℤ) → a +ℤ pos 0 ≡ a
add_zero a = omega int_laws

add_suc : (a : ℤ) (n : ℕ) → a +ℤ pos 1 +ℤ pos n ≡ a +ℤ pos (suc n)
add_suc a n = omega int_laws

add_add : (a : ℤ) (m n : ℕ) → a +ℤ pos m +ℤ pos n ≡ a +ℤ pos (m + n)
add_add a m n = omega int_laws

sum_sub : (a : ℤ) (n : ℕ) → a +ℤ pos n -ℤ a ≡ pos n
sum_sub a n = omega int_laws

after-nil : (s : Streams) → s ≡ after [] s
unfolding after
after-nil s =
    λ i. record { current = sym (add_zero s.current) i; given = sym (append-nil s.given) i }

assign_agent_lem :
    (a : ℕ) (s : Streams) → Fits (a ∷ []) s → assign_agent a s ≡ some (after (a ∷ []) s)
unfolding assign_agent agent_assign_streams Fits after
assign_agent_lem a s f =
    ap (λ o. o >>= λ c. some (record { current = c; given = s.given ++ (a, s.current) ∷ [] }))
      (to_i64_lem (s.current +ℤ pos 1) (omega (int_laws, f)) f.1)

assign_list_lem :
    (ps : List (Option ℕ)) (s : Streams)
    → Fits (first_agent ps) s
    → assign_list ps s ≡ some (after (first_agent ps) s)
unfolding assign_list
assign_list_lem [] s f = ap some (after-nil s)
assign_list_lem (some a ∷ ps) s f = assign_agent_lem a s f
assign_list_lem (none ∷ ps) s f = assign_list_lem ps s f

assign_node_lem :
    (r : Routing) (s : Streams)
    → Fits (agents_of r) s
    → assign_node (some (some r)) s ≡ some (after (agents_of r) s)
unfolding assign_node
assign_node_lem (agent a) s f = assign_agent_lem a s f
assign_node_lem (list_routing ps) s f = assign_list_lem ps s f
assign_node_lem other s f = ap some (after-nil s)

numbered-append :
    (xs ys : List ℕ) (z : ℤ)
    → numbered z (xs ++ ys) ≡ numbered z xs ++ numbered (z +ℤ pos (length xs)) ys
numbered-append [] ys z = ap (λ x. numbered x ys) (sym (add_zero z))
numbered-append (x ∷ xs) ys z = ap (◌∷◌ (x, z)) (
    numbered-append xs ys (z +ℤ pos 1)
    ∙ ap (λ a. numbered (z +ℤ pos 1) xs ++ numbered a ys) (add_suc z (length xs)))

after-append : (xs ys : List ℕ) (s : Streams) → after ys (after xs s) ≡ after (xs ++ ys) s
unfolding after
after-append xs ys s =
    let p : s.current +ℤ pos (length xs) +ℤ pos (length ys) ≡ s.current +ℤ pos (length (xs ++ ys)) =
      add_add s.current (length xs) (length ys)
      ∙ ap (λ n. s.current +ℤ pos n) (sym (length-append xs ys)) in
    let q : (s.given ++ numbered s.current xs) ++ numbered (s.current +ℤ pos (length xs)) ys
        ≡ s.given ++ numbered s.current (xs ++ ys) =
      append_assoc s.given (numbered s.current xs) _
      ∙ ap (◌++◌ s.given) (sym (numbered-append xs ys s.current)) in
    λ i. record { current = p i; given = q i }

Fits-left : (xs ys : List ℕ) (s : Streams) → Fits (xs ++ ys) s → Fits xs s
unfolding Fits
Fits-left xs ys s f = (f.0, omega (int_laws, f.1, length-append xs ys))

Fits-right : (xs ys : List ℕ) (s : Streams) → Fits (xs ++ ys) s → Fits ys (after xs s)
unfolding Fits after
Fits-right xs ys s f = (omega (int_laws, f), omega (int_laws, f.1, length-append xs ys))

assign_nodes_lem :
    (rs : List Routing) (s : Streams)
    → Fits (agents rs) s
    → assign_nodes (installed rs) s ≡ some (after (agents rs) s)
unfolding assign_nodes
assign_nodes_lem [] s f = ap some (after-nil s)
assign_nodes_lem (r ∷ rs) s f =
    ap (λ o. o >>= assign_nodes (installed rs))
      (assign_node_lem r s (Fits-left (agents_of r) (agents rs) s f))
    ∙ assign_nodes_lem rs (after (agents_of r) s) (Fits-right (agents_of r) (agents rs) s f)
    ∙ ap some (after-append (agents_of r) (agents rs) s)

-- If every node has IPv4 and a routing protocol, and all streams are in the range of an `int64_t`,
-- `AssignStreams` returns: the agents of the nodes, one at most from each, get consecutive streams from the one
-- given, in the order of the nodes, and the result is how many they are.
pub assign_streams_lem :
    (rs : List Routing) (stream : ℤ)
    → min_i64 ≤ℤ stream
    → stream +ℤ pos (length (agents rs)) ≤ℤ max_i64
    → length (agents rs) < 9223372036854775808
    → assign_streams (installed rs) stream
      ≡ some (numbered stream (agents rs), pos (length (agents rs)))
unfolding assign_streams after Fits
assign_streams_lem rs stream l h n =
    ap (λ o. o >>= λ s. to_i64 (s.current -ℤ stream) >>= λ used. some (s.given, used))
      (assign_nodes_lem rs (record { current = stream; given = [] }) (l, h))
    ∙ ap (λ o. o >>= λ used. some (numbered stream (agents rs), used))
        (ap to_i64 (sum_sub stream (length (agents rs)))
          ∙ to_i64_lem (pos (length (agents rs))) (omega arith) (omega arith))
