-- ===== src/Protocol/Serial.antt =====
-- The comparison of sequence numbers against that of RFC 3561, section 6.1: the signed value of the
-- unsigned difference.
use madaodv_ns.Base.{
  ◌≢◌, ℕ, ◌+◌, ◌-◌, ◌%◌, ◌<◌, ◌≡◌, Option, none, some, ltb, arith, Option-cases, inl, inr,
}
use madaodv_ns.Int.{ℤ, ◌-ℤ◌}
use madaodv_ns.Protocol.Routes.{to_i32, seq_diff}

-- The difference of two numbers of 32 bits, that wraps around.
abbrev pub wrapped : ℕ → ℕ → ℤ
wrapped a b = to_i32 ((a + 4294967296 - b) % 4294967296)

-- The result is the wrapped difference; there is none only if the numbers lie in different halves of
-- the range.
abbrev pub AgreesWith : ℕ → ℕ → Option ℤ → Type 0
AgreesWith a b none = ltb a 2147483648 ≢ ltb b 2147483648
AgreesWith a b (some d) = d ≡ wrapped a b

-- The difference of two sequence numbers, as `RecvRequest` and `RecvReply` compute it, is the one
-- that wraps around, wherever it does not overflow; and it overflows only for numbers of which one
-- is below 2^31 and the other is not.
pub seq_diff-AgreesWith :
    (a b : ℕ) → a < 4294967296 → b < 4294967296 → AgreesWith a b (seq_diff a b)
unfolding seq_diff to_i32 ◌-ℤ◌
seq_diff-AgreesWith a b h k = elim (Option-cases (seq_diff a b)) [
  | inl e ↦ rw e (ground arith)
  | inr (d, e) ↦ rw e (ground arith)
]
