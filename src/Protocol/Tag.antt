-- ===== src/Protocol/Tag.antt =====
-- `DeferredRouteOutputTag` (model/madaodv-routing-protocol.cc), which keeps the interface that was
-- asked for with a packet that waits for a route. The buffer of a tag is a parameter.
use madaodv_ns.Base.{ℕ, ◌≡◌, ◌<◌, ◌∙◌, ap, List, ◌++◌, arith, length}
use madaodv_ns.Int.{ℤ, pos, negsuc}
use madaodv_ns.Wire.{u32_mod}
use madaodv_ns.Headers.{to_u32}
use madaodv_ns.Protocol.Routes.{to_i32}

-- `WriteU32` and `ReadU32` of a `TagBuffer`.
pub record TagBuffer : Type 0 where
  pub write_u32 : ℕ → List ℕ
  pub read_u32 : List ℕ → ℕ × List ℕ

-- What is written takes four bytes, and is read back.
pub record Keeps (b : TagBuffer) : Type 0 where
  pub length-u32 : (x : ℕ) → length (b.write_u32 x) ≡ 4
  pub read-u32 :
      (x : ℕ) (rest : List ℕ) → x < u32_mod → b.read_u32 (b.write_u32 x ++ rest) ≡ (x, rest)

pub record DeferredRouteOutputTag : Type 0 where
  pub oif : ℤ

-- The default argument of the constructor.
abbrev pub any_interface : ℤ
any_interface = negsuc 0

abbrev pub make_tag : ℤ → DeferredRouteOutputTag
make_tag o = record { oif = o }

abbrev pub get_interface : DeferredRouteOutputTag → ℤ
get_interface t = t.oif

abbrev pub set_interface : ℤ → DeferredRouteOutputTag → DeferredRouteOutputTag
set_interface oif t = record t { oif = oif }

abbrev pub tag_serialized_size : ℕ
tag_serialized_size = 4

unfoldable pub serialize_tag : TagBuffer → DeferredRouteOutputTag → List ℕ
serialize_tag b t = b.write_u32 (to_u32 t.oif)

unfoldable pub deserialize_tag :
    TagBuffer → List ℕ → DeferredRouteOutputTag → DeferredRouteOutputTag
deserialize_tag b i t = set_interface (to_i32 (b.read_u32 i).0) t

-- The range of an `int32_t`.
abbrev pub IsI32 : ℤ → Type 0
IsI32 (pos n) = n < 2147483648
IsI32 (negsuc n) = n < 2147483648

to_u32_lt : (a : ℤ) → IsI32 a → to_u32 a < u32_mod
unfolding to_u32
to_u32_lt a h = ground arith

to_i32-to_u32 : (a : ℤ) → IsI32 a → to_i32 (to_u32 a) ≡ a
unfolding to_i32 to_u32
to_i32-to_u32 a h = ground arith

-- Over a buffer that keeps what is written, a tag takes the bytes that `GetSerializedSize` says,
-- and any tag that is read from them has the interface again, which is any `int32_t`.
tag_round_trip :
    (b : TagBuffer)
    → Keeps b
    → (a : ℤ) (t : DeferredRouteOutputTag) (rest : List ℕ) → IsI32 a
    → (length (serialize_tag b (make_tag a)) ≡ tag_serialized_size)
      × (get_interface (deserialize_tag b (serialize_tag b (make_tag a) ++ rest) t) ≡ a)
unfolding serialize_tag deserialize_tag
tag_round_trip b k a t rest h = (
  k.length-u32 (to_u32 a),
  ap (λ (r : ℕ × List ℕ). to_i32 r.0) (k.read-u32 (to_u32 a) rest (to_u32_lt a h))
      ∙ to_i32-to_u32 a h,
)
