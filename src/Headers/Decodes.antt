-- ===== src/Headers/Decodes.antt =====
-- Any bytes that are long enough are a message of fixed size.
use mathlib.Core.List.{append_assoc}
use mathlib.Core.Path.{subst}
use madaodv_ns.Base.{
  ◌-◌, [], ◌∷◌, ℕ, ◌+◌, ◌≤◌, ◌≡◌, refl, sym, ap, ◌∙◌, some, List, ◌++◌, arith, length,
}
use madaodv_ns.Wire.{Buffer, IsFaithful, Bytes, Recovers}
use madaodv_ns.Headers.{RreqHeader, RrepHeader}
use madaodv_ns.Headers.Codec.{
  checked, serialize_rreq, deserialize_rreq, serialize_rrep, deserialize_rrep,
}
use madaodv_ns.Headers.RoundTrip.{checked_lem, length-serialize_rreq, length-serialize_rrep}

Bytes-mono : (n k : ℕ) (s : List ℕ) → k ≤ n → Bytes n s → Bytes k s
Bytes-mono n k [] h e = omega arith
Bytes-mono n k (x ∷ s) h e = (e.0, Bytes-mono (n - 1) (k - 1) s (omega arith) e.1)

-- What stands behind the first `k` of `n + k` bytes.
Bytes-behind : (n k : ℕ) (xs ys : List ℕ) → length xs ≡ k → Bytes (n + k) (xs ++ ys) → Bytes n ys
Bytes-behind n k [] ys l e = let p : n + k ≡ n = omega (arith, l) in subst (λ m. Bytes m ys) p e
Bytes-behind n k (x ∷ xs) ys l e =
    let p : n + k - 1 ≡ n + (k - 1) = omega (arith, l) in
    Bytes-behind n (k - 1) xs ys (omega (arith, l)) (subst (λ m. Bytes m (xs ++ ys)) p e.1)

module _ (b : Buffer) (f : IsFaithful b) (g : Recovers b) where
  -- What is left after each reader.
  rest-u8 : (s : List ℕ) (n : ℕ) → Bytes (n + 1) s → Bytes n (b.read_u8 s).1
  rest-u8 s n h =
      Bytes-behind n 1 (b.write_u8 (b.read_u8 s).0) (b.read_u8 s).1 (f.length-u8 _)
        (subst (Bytes (n + 1)) (sym (g.write-u8 s (Bytes-mono (n + 1) 1 s (omega arith) h))) h)

  rest-u32 : (s : List ℕ) (n : ℕ) → Bytes (n + 4) s → Bytes n (b.read_u32 s).1
  rest-u32 s n h =
      Bytes-behind n 4 (b.write_u32 (b.read_u32 s).0) (b.read_u32 s).1 (f.length-u32 _)
        (subst (Bytes (n + 4)) (sym (g.write-u32 s (Bytes-mono (n + 4) 4 s (omega arith) h))) h)

  rest-address : (s : List ℕ) (n : ℕ) → Bytes (n + 4) s → Bytes n (b.read_address s).1
  rest-address s n h =
      Bytes-behind n 4 (b.write_address (b.read_address s).0) (b.read_address s).1
        (f.length-address _)
        (subst (Bytes (n + 4)) (sym (g.write-address s (Bytes-mono (n + 4) 4 s (omega arith) h))) h)

  rreq_back :
      (s : List ℕ)
      → Bytes 23 s
      → (h : RreqHeader) × (i : List ℕ) × (serialize_rreq b h ++ i ≡ s)
        × (deserialize_rreq b s ≡ checked h 23 s i)
  unfolding serialize_rreq deserialize_rreq
  rreq_back s n =
      let (flags, s1) = b.read_u8 s in
      let n1 = rest-u8 s 22 n in
      let (reserved, s2) = b.read_u8 s1 in
      let n2 = rest-u8 s1 21 n1 in
      let (hop_count, s3) = b.read_u8 s2 in
      let n3 = rest-u8 s2 20 n2 in
      let (request_id, s4) = b.read_u32 s3 in
      let n4 = rest-u32 s3 16 n3 in
      let (dst, s5) = b.read_address s4 in
      let n5 = rest-address s4 12 n4 in
      let (dst_seq_no, s6) = b.read_u32 s5 in
      let n6 = rest-u32 s5 8 n5 in
      let (origin, s7) = b.read_address s6 in
      let n7 = rest-address s6 4 n6 in
      let (origin_seq_no, s8) = b.read_u32 s7 in
      (
        record {
          flags = flags;
          reserved = reserved;
          hop_count = hop_count;
          request_id = request_id;
          dst = dst;
          dst_seq_no = dst_seq_no;
          origin = origin;
          origin_seq_no = origin_seq_no;
        },
        s8,
        simp (
          append_assoc,
          g.write-u32 s7 n7,
          g.write-address s6 (Bytes-mono 8 4 s6 (omega arith) n6),
          g.write-u32 s5 (Bytes-mono 12 4 s5 (omega arith) n5),
          g.write-address s4 (Bytes-mono 16 4 s4 (omega arith) n4),
          g.write-u32 s3 (Bytes-mono 20 4 s3 (omega arith) n3),
          g.write-u8 s2 (Bytes-mono 21 1 s2 (omega arith) n2),
          g.write-u8 s1 (Bytes-mono 22 1 s1 (omega arith) n1),
          g.write-u8 s (Bytes-mono 23 1 s (omega arith) n),
        ),
        refl,
      )

  rrep_back :
      (s : List ℕ)
      → Bytes 19 s
      → (h : RrepHeader) × (i : List ℕ) × (serialize_rrep b h ++ i ≡ s)
        × (deserialize_rrep b s ≡ checked h 19 s i)
  unfolding serialize_rrep deserialize_rrep
  rrep_back s n =
      let (flags, s1) = b.read_u8 s in
      let n1 = rest-u8 s 18 n in
      let (prefix_size, s2) = b.read_u8 s1 in
      let n2 = rest-u8 s1 17 n1 in
      let (hop_count, s3) = b.read_u8 s2 in
      let n3 = rest-u8 s2 16 n2 in
      let (dst, s4) = b.read_address s3 in
      let n4 = rest-address s3 12 n3 in
      let (dst_seq_no, s5) = b.read_u32 s4 in
      let n5 = rest-u32 s4 8 n4 in
      let (origin, s6) = b.read_address s5 in
      let n6 = rest-address s5 4 n5 in
      let (life_time, s7) = b.read_u32 s6 in
      (
        record {
          flags = flags;
          prefix_size = prefix_size;
          hop_count = hop_count;
          dst = dst;
          dst_seq_no = dst_seq_no;
          origin = origin;
          life_time = life_time;
        },
        s7,
        simp (
          append_assoc,
          g.write-u32 s6 n6,
          g.write-address s5 (Bytes-mono 8 4 s5 (omega arith) n5),
          g.write-u32 s4 (Bytes-mono 12 4 s4 (omega arith) n4),
          g.write-address s3 (Bytes-mono 16 4 s3 (omega arith) n3),
          g.write-u8 s2 (Bytes-mono 17 1 s2 (omega arith) n2),
          g.write-u8 s1 (Bytes-mono 18 1 s1 (omega arith) n1),
          g.write-u8 s (Bytes-mono 19 1 s (omega arith) n),
        ),
        refl,
      )

  -- Bytes that the writer of a header of this size gives pass the check of the reader.
  checked_back :
      {A : Type 0} (h : A) (size : ℕ) (written i s : List ℕ)
      → length written ≡ size
      → written ++ i ≡ s
      → checked h size s i ≡ some (h, size, i)
  checked_back h size written i s l e =
      ap (λ (start : List ℕ). checked h size start i) (sym e) ∙ checked_lem h size written i l

  -- Over a faithful buffer, any 23 bytes or more are read as a RREQ and any 19 or more as a RREP:
  -- the assertion on the size never fails, 23 or 19 bytes are read, and the message, written
  -- again, gives the same bytes.
  pub decodes :
      (s t : List ℕ)
      → Bytes 23 s
      → Bytes 19 t
      → ((h : RreqHeader) × (i : List ℕ) × (deserialize_rreq b s ≡ some (h, 23, i))
          × (serialize_rreq b h ++ i ≡ s))
        × ((k : RrepHeader) × (j : List ℕ) × (deserialize_rrep b t ≡ some (k, 19, j))
            × (serialize_rrep b k ++ j ≡ t))
  decodes s t n m =
      let (h, i, back, read) = rreq_back s n in
      let (k, j, back', read') = rrep_back t m in
      (
        (
          h,
          i,
          read ∙ checked_back h 23 (serialize_rreq b h) i s (length-serialize_rreq b f h) back,
          back,
        ),
        (
          k,
          j,
          read' ∙ checked_back k 19 (serialize_rrep b k) j t (length-serialize_rrep b f k) back',
          back',
        ),
      )
