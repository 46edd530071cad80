-- ===== src/Headers/RerrCodec.antt =====
-- A RERR is read back from what is written.
use mathlib.Core.List.{append_assoc, append-nil}
use madaodv_ns.Base.{
  ℕ, suc, ◌+◌, ◌*◌, ◌<◌, ◌≡◌, refl, ap, ◌∙◌, some, List, [], ◌∷◌, ◌++◌, arith, length,
  length-append,
}
use madaodv_ns.Wire.{Buffer, IsFaithful, u32_mod}
use madaodv_ns.Map.{Map, insert, SortedFrom, IsSorted}
use madaodv_ns.Map.Order.{Below, Below-mono, append-Below, insert_above}
use madaodv_ns.Map.Every.{Every}
use madaodv_ns.Headers.{RerrHeader, get_dest_count}
use madaodv_ns.Headers.Codec.{write_entries, read_entries, serialize_rerr, deserialize_rerr}
use madaodv_ns.Headers.RoundTrip.{checked_lem}

abbrev pub EntryFits : ℕ → ℕ → Type 0
EntryFits a s = (a < u32_mod) × (s < u32_mod)

pub record RerrFits (h : RerrHeader) : Type 0 where
  pub flag : h.flag < 256
  pub reserved : h.reserved < 256
  pub entries : Every EntryFits h.unreachable
  pub sorted : IsSorted h.unreachable
  pub count : length h.unreachable < 256

module _ (b : Buffer) (f : IsFaithful b) where
  read_entry :
      (acc : Map ℕ) (a n k : ℕ) (i : List ℕ)
      → EntryFits a n
      → read_entries b (suc k) acc (b.write_address a ++ (b.write_u32 n ++ i))
        ≡ read_entries b k (insert a n acc) i
  unfolding read_entries
  read_entry acc a n k i v =
      let p = f.read-address a (b.write_u32 n ++ i) v.0 in
      let q = f.read-u32 n i v.1 in
      ap
        (λ (r : ℕ × List ℕ).
          read_entries b k (insert r.0 (b.read_u32 r.1).0 acc) (b.read_u32 r.1).1)
        p
      ∙ ap (λ (r : ℕ × List ℕ). read_entries b k (insert a r.0 acc) r.1) q

  read-write_entries :
      (m acc : Map ℕ) (lo : ℕ) (rest : List ℕ)
      → Every EntryFits m
      → SortedFrom lo m
      → Below lo acc
      → read_entries b (length m) acc (write_entries b m ++ rest) ≡ (acc ++ m, rest)
  unfolding read_entries write_entries
  read-write_entries [] acc lo rest v s l = rw (append-nil acc)
  read-write_entries ((a, n) ∷ m) acc lo rest v s l = rw (
    append_assoc,
    append_assoc,
    read_entry acc a n (length m) (write_entries b m ++ rest) v.0,
    insert_above a n acc (Below-mono lo a acc s.0 l),
    read-write_entries m (acc ++ (a, n) ∷ []) (suc a) rest v.1 s.1
        (append-Below (suc a) a n acc (omega arith) (Below-mono lo (suc a) acc (omega arith) l)),
    append_assoc,
  )

  length-write_entries : (m : Map ℕ) → length (write_entries b m) ≡ 8 * length m
  unfolding write_entries
  length-write_entries [] = refl
  length-write_entries ((a, n) ∷ m) =
      grind (arith, length-append, f.length-u32, f.length-address, length-write_entries m)

  get_dest_count-length : (h : RerrHeader) → RerrFits h → get_dest_count h ≡ length h.unreachable
  unfolding get_dest_count
  get_dest_count-length h v = omega (arith, v.count)

  length-serialize_rerr :
      (h : RerrHeader) → RerrFits h → length (serialize_rerr b h) ≡ 3 + 8 * get_dest_count h
  unfolding serialize_rerr
  length-serialize_rerr h v = grind (
    arith,
    length-append,
    f.length-u8,
    length-write_entries h.unreachable,
    get_dest_count-length h v,
  )

  -- Over a faithful buffer, a RERR of at most 255 distinct destinations whose fields fit their types is read back from what was
  -- written, with three bytes and eight for each destination.
  pub rerr_round_trip :
      (h : RerrHeader) (rest : List ℕ)
      → RerrFits h
      → deserialize_rerr b (serialize_rerr b h ++ rest)
        ≡ some (h, 3 + 8 * length h.unreachable, rest)
  unfolding serialize_rerr deserialize_rerr get_dest_count
  rerr_round_trip h rest v =
      simp
        (
          append_assoc,
          λ (r : List ℕ). f.read-u8 h.flag r v.flag,
          λ (r : List ℕ). f.read-u8 h.reserved r v.reserved,
          get_dest_count-length h v,
          λ (r : List ℕ). f.read-u8 (length h.unreachable) r v.count,
          read-write_entries h.unreachable [] 0 rest v.entries v.sorted tt,
        )
        (simp (append_assoc, get_dest_count-length h v) at
          (checked_lem h (3 + 8 * get_dest_count h) (serialize_rerr b h) rest
            (length-serialize_rerr h v)))
