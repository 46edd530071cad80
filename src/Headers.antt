-- ===== src/Headers.antt =====
-- The messages of model/madaodv-packet.h and model/madaodv-packet.cc: their fields, flags and
-- operations. The codecs are in Headers/Codec. A field is the number that the source's unsigned
-- type holds. `Print` and the `TypeId` boilerplate are left out.
pub mod Flags
pub mod Codec
pub mod RoundTrip
pub mod RerrCodec
pub mod Decodes
use Prim.Native.Nat.{bit_and, bit_or}
use madaodv_ns.Base.{
  ℕ, ◌+◌, ◌-◌, ◌*◌, ◌%◌, ◌^◌, Bool, true, false, not, Option, none, some, [], ◌∷◌, ◌==◌,
  if◌then◌else◌, ◌&&◌, is_some, length, ltb,
}
use madaodv_ns.Int.{ℤ, pos, negsuc}
use madaodv_ns.Map.{Map, find, insert}
use madaodv_ns.Wire.{u32_mod}

pub data MessageType : Type 0 where
  rreq rrep rerr rrep_ack : MessageType

unfoldable pub type_code : MessageType → ℕ
type_code rreq = 1
type_code rrep = 2
type_code rerr = 3
type_code rrep_ack = 4

pub record TypeHeader : Type 0 where
  pub type : MessageType
  pub is_valid : Bool

unfoldable pub make_type_header : MessageType → TypeHeader
make_type_header t = record { type = t; is_valid = true }

unfoldable pub type_header_eq : TypeHeader → TypeHeader → Bool
type_header_eq h o =
    (type_code h.type == type_code o.type) && (if h.is_valid then o.is_valid else not o.is_valid)

-- `flags |= mask` and `flags &= ~mask` on a `uint8_t`, and `flags & mask` as a truth value.
unfoldable pub set_bit : Bool → ℕ → ℕ → ℕ
set_bit f mask flags = if f then bit_or flags mask else bit_and flags (255 - mask)

unfoldable pub get_bit : ℕ → ℕ → Bool
get_bit mask flags = not (bit_and flags mask == 0)

pub record RreqHeader : Type 0 where
  pub flags : ℕ
  pub reserved : ℕ
  pub hop_count : ℕ
  pub request_id : ℕ
  pub dst : ℕ
  pub dst_seq_no : ℕ
  pub origin : ℕ
  pub origin_seq_no : ℕ

unfoldable pub set_gratuitous_rrep : Bool → RreqHeader → RreqHeader
set_gratuitous_rrep f h = record h { flags = set_bit f (2 ^ 5) h.flags }

unfoldable pub get_gratuitous_rrep : RreqHeader → Bool
get_gratuitous_rrep h = get_bit (2 ^ 5) h.flags

unfoldable pub set_destination_only : Bool → RreqHeader → RreqHeader
set_destination_only f h = record h { flags = set_bit f (2 ^ 4) h.flags }

unfoldable pub get_destination_only : RreqHeader → Bool
get_destination_only h = get_bit (2 ^ 4) h.flags

unfoldable pub set_unknown_seqno : Bool → RreqHeader → RreqHeader
set_unknown_seqno f h = record h { flags = set_bit f (2 ^ 3) h.flags }

unfoldable pub get_unknown_seqno : RreqHeader → Bool
get_unknown_seqno h = get_bit (2 ^ 3) h.flags

unfoldable pub rreq_header_eq : RreqHeader → RreqHeader → Bool
rreq_header_eq h o =
    (h.flags == o.flags)
    && ((h.reserved == o.reserved)
        && ((h.hop_count == o.hop_count)
            && ((h.request_id == o.request_id)
                && ((h.dst == o.dst)
                    && ((h.dst_seq_no == o.dst_seq_no)
                        && ((h.origin == o.origin) && (h.origin_seq_no == o.origin_seq_no)))))))

pub record RrepHeader : Type 0 where
  pub flags : ℕ
  pub prefix_size : ℕ
  pub hop_count : ℕ
  pub dst : ℕ
  pub dst_seq_no : ℕ
  pub origin : ℕ
  pub life_time : ℕ

-- The conversion of an `int64_t` to a `uint32_t`.
unfoldable pub to_u32 : ℤ → ℕ
to_u32 (pos n) = n % u32_mod
to_u32 (negsuc n) = u32_mod - 1 - n % u32_mod

-- The constructor; `ms` is `lifeTime.GetMilliSeconds()`.
unfoldable pub make_rrep : ℕ → ℕ → ℕ → ℕ → ℕ → ℤ → RrepHeader
make_rrep prefix_size hop_count dst dst_seq_no origin ms = record {
  flags = 0;
  prefix_size = prefix_size;
  hop_count = hop_count;
  dst = dst;
  dst_seq_no = dst_seq_no;
  origin = origin;
  life_time = to_u32 ms;
}

unfoldable pub set_life_time : ℤ → RrepHeader → RrepHeader
set_life_time ms h = record h { life_time = to_u32 ms }

unfoldable pub set_ack_required : Bool → RrepHeader → RrepHeader
set_ack_required f h = record h { flags = set_bit f (2 ^ 6) h.flags }

unfoldable pub get_ack_required : RrepHeader → Bool
get_ack_required h = get_bit (2 ^ 6) h.flags

unfoldable pub set_hello : ℕ → ℕ → ℤ → RrepHeader → RrepHeader
set_hello origin src_seq_no ms h = record h {
  flags = 0;
  prefix_size = 0;
  hop_count = 0;
  dst = origin;
  dst_seq_no = src_seq_no;
  origin = origin;
  life_time = to_u32 ms;
}

unfoldable pub rrep_header_eq : RrepHeader → RrepHeader → Bool
rrep_header_eq h o =
    (h.flags == o.flags)
    && ((h.prefix_size == o.prefix_size)
        && ((h.hop_count == o.hop_count)
            && ((h.dst == o.dst)
                && ((h.dst_seq_no == o.dst_seq_no)
                    && ((h.origin == o.origin) && (h.life_time == o.life_time))))))

pub record RrepAckHeader : Type 0 where
  pub reserved : ℕ

unfoldable pub make_rrep_ack : RrepAckHeader
make_rrep_ack = record { reserved = 0 }

unfoldable pub rrep_ack_header_eq : RrepAckHeader → RrepAckHeader → Bool
rrep_ack_header_eq h o = h.reserved == o.reserved

pub record RerrHeader : Type 0 where
  pub flag : ℕ
  pub reserved : ℕ
  pub unreachable : Map ℕ

unfoldable pub make_rerr : RerrHeader
make_rerr = record { flag = 0; reserved = 0; unreachable = [] }

-- The size of the map, as a `uint8_t`.
unfoldable pub get_dest_count : RerrHeader → ℕ
get_dest_count h = length h.unreachable % 256

unfoldable pub set_no_delete : Bool → RerrHeader → RerrHeader
set_no_delete f h = record h { flag = set_bit f (2 ^ 0) h.flag }

unfoldable pub get_no_delete : RerrHeader → Bool
get_no_delete h = get_bit (2 ^ 0) h.flag

-- `none` if the assertion on the number of destinations fails. The result, always true, is left
-- out.
unfoldable pub add_un_destination : ℕ → ℕ → RerrHeader → Option RerrHeader
add_un_destination dst seq_no h =
    if is_some (find dst h.unreachable)
    then some h
    else if ltb (get_dest_count h) 255
    then some (record h { unreachable = insert dst seq_no h.unreachable })
    else none

-- The first destination and what is left; `none` for the result false.
unfoldable pub remove_un_destination : RerrHeader → Option ((ℕ × ℕ) × RerrHeader)
remove_un_destination h = elim h.unreachable [
  | [] ↦ none
  | un ∷ rest ↦ some (un, record h { unreachable = rest })
]

unfoldable pub clear : RerrHeader → RerrHeader
clear h = record h { unreachable = []; flag = 0; reserved = 0 }

-- The loop of `operator==` over the first `n` entries of both maps.
unfoldable pub same_entries : ℕ → Map ℕ → Map ℕ → Bool
same_entries n [] k = true
same_entries n (x ∷ j) [] = true
same_entries n ((a, s) ∷ j) ((b, t) ∷ k) =
    let rest = same_entries (n - 1) j k in if n == 0 then true else (a == b) && ((s == t) && rest)

unfoldable pub rerr_header_eq : RerrHeader → RerrHeader → Bool
rerr_header_eq h o =
    (h.flag == o.flag)
    && ((h.reserved == o.reserved)
        && ((get_dest_count h == get_dest_count o)
            && same_entries (get_dest_count h) h.unreachable o.unreachable))
