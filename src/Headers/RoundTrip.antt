-- ===== src/Headers/RoundTrip.antt =====
-- The headers of fixed size are read back from what is written.
use mathlib.Core.List.{append_assoc}
use madaodv_ns.Base.{ℕ, ◌<◌, ◌≡◌, refl, some, List, ◌++◌, arith, length, length-append}
use madaodv_ns.Wire.{Buffer, IsFaithful, u32_mod}
use madaodv_ns.Headers.{
  TypeHeader, MessageType, rreq, rrep, rerr, rrep_ack, type_code, make_type_header, RreqHeader,
  RrepHeader,
}
use madaodv_ns.Headers.Codec.{
  checked, serialize_type, deserialize_type, read_type, serialize_rreq, deserialize_rreq,
  serialize_rrep, deserialize_rrep,
}

pub checked_lem :
    {A : Type 0} (h : A) (size : ℕ) (written rest : List ℕ)
    → length written ≡ size
    → checked h size (written ++ rest) rest ≡ some (h, size, rest)
unfolding checked
checked_lem h size written rest e = ground (arith, length-append written rest)

-- The fields fit the types of the source.
pub record RreqFits (h : RreqHeader) : Type 0 where
  pub flags : h.flags < 256
  pub reserved : h.reserved < 256
  pub hop_count : h.hop_count < 256
  pub request_id : h.request_id < u32_mod
  pub dst : h.dst < u32_mod
  pub dst_seq_no : h.dst_seq_no < u32_mod
  pub origin : h.origin < u32_mod
  pub origin_seq_no : h.origin_seq_no < u32_mod

pub record RrepFits (h : RrepHeader) : Type 0 where
  pub flags : h.flags < 256
  pub prefix_size : h.prefix_size < 256
  pub hop_count : h.hop_count < 256
  pub dst : h.dst < u32_mod
  pub dst_seq_no : h.dst_seq_no < u32_mod
  pub origin : h.origin < u32_mod
  pub life_time : h.life_time < u32_mod

module _ (b : Buffer) (f : IsFaithful b) where
  pub length-serialize_rreq : (h : RreqHeader) → length (serialize_rreq b h) ≡ 23
  unfolding serialize_rreq
  length-serialize_rreq h =
      grind (arith, length-append, f.length-u8, f.length-u32, f.length-address)

  pub length-serialize_rrep : (h : RrepHeader) → length (serialize_rrep b h) ≡ 19
  unfolding serialize_rrep
  length-serialize_rrep h =
      grind (arith, length-append, f.length-u8, f.length-u32, f.length-address)

  -- Over a faithful buffer, a RREQ whose fields fit their types is read back, with its 23 bytes, from what was written.
  pub rreq_round_trip :
      (h : RreqHeader) (rest : List ℕ)
      → RreqFits h
      → deserialize_rreq b (serialize_rreq b h ++ rest) ≡ some (h, 23, rest)
  unfolding serialize_rreq deserialize_rreq
  rreq_round_trip h rest v =
      simp
        (
          append_assoc,
          λ (r : List ℕ). f.read-u8 h.flags r v.flags,
          λ (r : List ℕ). f.read-u8 h.reserved r v.reserved,
          λ (r : List ℕ). f.read-u8 h.hop_count r v.hop_count,
          λ (r : List ℕ). f.read-u32 h.request_id r v.request_id,
          λ (r : List ℕ). f.read-address h.dst r v.dst,
          λ (r : List ℕ). f.read-u32 h.dst_seq_no r v.dst_seq_no,
          λ (r : List ℕ). f.read-address h.origin r v.origin,
          λ (r : List ℕ). f.read-u32 h.origin_seq_no r v.origin_seq_no,
        )
        (simp append_assoc at
          (checked_lem h 23 (serialize_rreq b h) rest (length-serialize_rreq h)))

  -- Over a faithful buffer, a RREP whose fields fit their types is read back, with its 19 bytes, from what was written.
  pub rrep_round_trip :
      (h : RrepHeader) (rest : List ℕ)
      → RrepFits h
      → deserialize_rrep b (serialize_rrep b h ++ rest) ≡ some (h, 19, rest)
  unfolding serialize_rrep deserialize_rrep
  rrep_round_trip h rest v =
      simp
        (
          append_assoc,
          λ (r : List ℕ). f.read-u8 h.flags r v.flags,
          λ (r : List ℕ). f.read-u8 h.prefix_size r v.prefix_size,
          λ (r : List ℕ). f.read-u8 h.hop_count r v.hop_count,
          λ (r : List ℕ). f.read-address h.dst r v.dst,
          λ (r : List ℕ). f.read-u32 h.dst_seq_no r v.dst_seq_no,
          λ (r : List ℕ). f.read-address h.origin r v.origin,
          λ (r : List ℕ). f.read-u32 h.life_time r v.life_time,
        )
        (simp append_assoc at
          (checked_lem h 19 (serialize_rrep b h) rest (length-serialize_rrep h)))

  read_type_code :
      (t : MessageType) (h : TypeHeader) → read_type b (type_code t) h ≡ make_type_header t
  unfolding read_type type_code make_type_header
  read_type_code rreq h = refl
  read_type_code rrep h = refl
  read_type_code rerr h = refl
  read_type_code rrep_ack h = refl

  type_code_fits : (t : MessageType) → type_code t < 256
  unfolding type_code
  type_code_fits rreq = omega arith
  type_code_fits rrep = omega arith
  type_code_fits rerr = omega arith
  type_code_fits rrep_ack = omega arith

  -- Over a faithful buffer, the type byte of every message is read back as that type, marked as valid, whatever the header
  -- held before.
  pub type_round_trip :
      (t : MessageType) (h : TypeHeader) (rest : List ℕ)
      → deserialize_type b h (serialize_type b (make_type_header t) ++ rest)
        ≡ some (make_type_header t, 1, rest)
  unfolding deserialize_type serialize_type make_type_header
  type_round_trip t h rest =
      rw (f.read-u8 (type_code t) rest (type_code_fits t), read_type_code t h)
        (checked_lem (make_type_header t) 1 (b.write_u8 (type_code t)) rest
          (f.length-u8 (type_code t)))
