-- ===== src/Wire.antt =====
-- The buffer of ns-3 into which headers are serialized, as far as model/madaodv-packet.cc uses
-- it: `WriteU8`, `WriteHtonU32`, `ReadU8` and `ReadNtohU32` of `Buffer::Iterator`, and `WriteTo`
-- and `ReadFrom` of an `Ipv4Address`. A writer appends its bytes; a reader returns a value and the
-- bytes behind it.
use madaodv_ns.Base.{◌-◌, [], ◌∷◌, ℕ, ◌≡◌, ◌<◌, ◌≤◌, ◌++◌, List, length}

pub record Buffer : Type 0 where
  pub write_u8 : ℕ → List ℕ
  pub write_u32 : ℕ → List ℕ
  pub write_address : ℕ → List ℕ
  pub read_u8 : List ℕ → ℕ × List ℕ
  pub read_u32 : List ℕ → ℕ × List ℕ
  pub read_address : List ℕ → ℕ × List ℕ

abbrev pub u32_mod : ℕ
u32_mod = 4294967296

-- What is written takes one byte or four, and is read back.
pub record IsFaithful (b : Buffer) : Type 0 where
  pub length-u8 : (x : ℕ) → length (b.write_u8 x) ≡ 1
  pub length-u32 : (x : ℕ) → length (b.write_u32 x) ≡ 4
  pub length-address : (x : ℕ) → length (b.write_address x) ≡ 4
  pub read-u8 : (x : ℕ) (rest : List ℕ) → x < 256 → b.read_u8 (b.write_u8 x ++ rest) ≡ (x, rest)
  pub read-u32 :
      (x : ℕ) (rest : List ℕ) → x < u32_mod → b.read_u32 (b.write_u32 x ++ rest) ≡ (x, rest)
  pub read-address :
      (x : ℕ) (rest : List ℕ) → x < u32_mod → b.read_address (b.write_address x ++ rest) ≡ (x, rest)

-- At least `n` numbers, each of them a byte.
abbrev pub Bytes : ℕ → List ℕ → Type 0
Bytes n [] = n ≤ 0
Bytes n (x ∷ s) = (x < 256) × Bytes (n - 1) s

-- What is read from enough bytes is what they were written from.
pub record Recovers (b : Buffer) : Type 0 where
  pub write-u8 : (s : List ℕ) → Bytes 1 s → b.write_u8 (b.read_u8 s).0 ++ (b.read_u8 s).1 ≡ s
  pub write-u32 : (s : List ℕ) → Bytes 4 s → b.write_u32 (b.read_u32 s).0 ++ (b.read_u32 s).1 ≡ s
  pub write-address :
      (s : List ℕ) → Bytes 4 s → b.write_address (b.read_address s).0 ++ (b.read_address s).1 ≡ s
