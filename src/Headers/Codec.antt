-- ===== src/Headers/Codec.antt =====
-- `GetSerializedSize`, `Serialize` and `Deserialize` of model/madaodv-packet.cc, over the buffer of
-- ns-3. `Deserialize` gives the header, the bytes read and what is left; `none` if its assertion
-- that it read `GetSerializedSize()` bytes fails.
use madaodv_ns.Base.{
  ℕ, zero, suc, ◌+◌, ◌-◌, ◌*◌, true, false, Option, none, some, List, [], ◌∷◌, ◌++◌, ◌==◌,
  if◌then◌else◌, length,
}
use madaodv_ns.Map.{Map, insert}
use madaodv_ns.Wire.{Buffer}
use madaodv_ns.Headers.{
  rreq, rrep, rerr, rrep_ack, TypeHeader, type_code, RreqHeader, RrepHeader, RrepAckHeader,
  RerrHeader, get_dest_count,
}

-- `NS_ASSERT(dist == GetSerializedSize())` and the result.
unfoldable pub checked : {A : Type 0} → A → ℕ → List ℕ → List ℕ → Option (A × ℕ × List ℕ)
checked h size start rest =
    let dist = length start - length rest in if dist == size then some (h, dist, rest) else none

-- `GetSerializedSize` of each header.
abbrev pub type_serialized_size : TypeHeader → ℕ
type_serialized_size h = 1

abbrev pub rreq_serialized_size : RreqHeader → ℕ
rreq_serialized_size h = 23

abbrev pub rrep_serialized_size : RrepHeader → ℕ
rrep_serialized_size h = 19

abbrev pub rrep_ack_serialized_size : RrepAckHeader → ℕ
rrep_ack_serialized_size h = 1

abbrev pub rerr_serialized_size : RerrHeader → ℕ
rerr_serialized_size h = 3 + 8 * get_dest_count h

module _ (b : Buffer) where
  unfoldable pub serialize_type : TypeHeader → List ℕ
  serialize_type h = b.write_u8 (type_code h.type)

  -- The switch: an unknown code leaves the type as it was.
  unfoldable pub read_type : ℕ → TypeHeader → TypeHeader
  read_type t h =
      if t == 1
      then record { type = rreq; is_valid = true }
      else if t == 2
      then record { type = rrep; is_valid = true }
      else if t == 3
      then record { type = rerr; is_valid = true }
      else if t == 4
      then record { type = rrep_ack; is_valid = true }
      else record h { is_valid = false }

  unfoldable pub deserialize_type : TypeHeader → List ℕ → Option (TypeHeader × ℕ × List ℕ)
  deserialize_type h start =
      let (t, i) = b.read_u8 start in
      let h' = read_type t h in checked h' (type_serialized_size h') start i

  unfoldable pub serialize_rreq : RreqHeader → List ℕ
  serialize_rreq h =
      b.write_u8 h.flags
      ++ (b.write_u8 h.reserved
          ++ (b.write_u8 h.hop_count
              ++ (b.write_u32 h.request_id
                  ++ (b.write_address h.dst
                      ++ (b.write_u32 h.dst_seq_no
                          ++ (b.write_address h.origin ++ b.write_u32 h.origin_seq_no))))))

  unfoldable pub deserialize_rreq : List ℕ → Option (RreqHeader × ℕ × List ℕ)
  deserialize_rreq start =
      let (flags, i) = b.read_u8 start in
      let (reserved, i) = b.read_u8 i in
      let (hop_count, i) = b.read_u8 i in
      let (request_id, i) = b.read_u32 i in
      let (dst, i) = b.read_address i in
      let (dst_seq_no, i) = b.read_u32 i in
      let (origin, i) = b.read_address i in
      let (origin_seq_no, i) = b.read_u32 i in
      let h : RreqHeader = record {
        flags = flags;
        reserved = reserved;
        hop_count = hop_count;
        request_id = request_id;
        dst = dst;
        dst_seq_no = dst_seq_no;
        origin = origin;
        origin_seq_no = origin_seq_no;
      } in
      checked h (rreq_serialized_size h) start i

  unfoldable pub serialize_rrep : RrepHeader → List ℕ
  serialize_rrep h =
      b.write_u8 h.flags
      ++ (b.write_u8 h.prefix_size
          ++ (b.write_u8 h.hop_count
              ++ (b.write_address h.dst
                  ++ (b.write_u32 h.dst_seq_no
                      ++ (b.write_address h.origin ++ b.write_u32 h.life_time)))))

  unfoldable pub deserialize_rrep : List ℕ → Option (RrepHeader × ℕ × List ℕ)
  deserialize_rrep start =
      let (flags, i) = b.read_u8 start in
      let (prefix_size, i) = b.read_u8 i in
      let (hop_count, i) = b.read_u8 i in
      let (dst, i) = b.read_address i in
      let (dst_seq_no, i) = b.read_u32 i in
      let (origin, i) = b.read_address i in
      let (life_time, i) = b.read_u32 i in
      let h : RrepHeader = record {
        flags = flags;
        prefix_size = prefix_size;
        hop_count = hop_count;
        dst = dst;
        dst_seq_no = dst_seq_no;
        origin = origin;
        life_time = life_time;
      } in
      checked h (rrep_serialized_size h) start i

  unfoldable pub serialize_rrep_ack : RrepAckHeader → List ℕ
  serialize_rrep_ack h = b.write_u8 h.reserved

  unfoldable pub deserialize_rrep_ack : List ℕ → Option (RrepAckHeader × ℕ × List ℕ)
  deserialize_rrep_ack start =
      let (reserved, i) = b.read_u8 start in
      let h : RrepAckHeader = record { reserved = reserved } in
      checked h (rrep_ack_serialized_size h) start i

  -- The loops of `RerrHeader::Serialize` and `RerrHeader::Deserialize`.
  unfoldable pub write_entries : Map ℕ → List ℕ
  write_entries [] = []
  write_entries ((a, s) ∷ m) = b.write_address a ++ (b.write_u32 s ++ write_entries m)

  unfoldable pub read_entries : ℕ → Map ℕ → List ℕ → Map ℕ × List ℕ
  read_entries zero m i = (m, i)
  read_entries (suc n) m i =
      let (a, i) = b.read_address i in let (s, i) = b.read_u32 i in read_entries n (insert a s m) i

  unfoldable pub serialize_rerr : RerrHeader → List ℕ
  serialize_rerr h =
      b.write_u8 h.flag
      ++ (b.write_u8 h.reserved ++ (b.write_u8 (get_dest_count h) ++ write_entries h.unreachable))

  unfoldable pub deserialize_rerr : List ℕ → Option (RerrHeader × ℕ × List ℕ)
  deserialize_rerr start =
      let (flag, i) = b.read_u8 start in
      let (reserved, i) = b.read_u8 i in
      let (dest, i) = b.read_u8 i in
      let (m, i) = read_entries dest [] i in
      let h : RerrHeader = record { flag = flag; reserved = reserved; unreachable = m } in
      checked h (rerr_serialized_size h) start i
