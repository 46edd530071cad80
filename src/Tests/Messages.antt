-- ===== src/Tests/Messages.antt =====
-- The round trips of the messages, over a buffer in network order.
use madaodv_ns.Base.{
  ℕ, ◌≡◌, refl, ◌<◌, ◌+◌, ◌*◌, ◌/◌, ◌%◌, ◌++◌, false, some, List, [], ◌∷◌, arith, ap,
}
use madaodv_ns.Wire.{Buffer, IsFaithful, Bytes, Recovers, u32_mod}
use madaodv_ns.Headers.{rrep, TypeHeader, RreqHeader, RrepHeader, RerrHeader}
use madaodv_ns.Headers.Codec.{
  serialize_rreq, deserialize_rreq, serialize_rrep, deserialize_rrep, serialize_rerr,
  deserialize_rerr,
}
use madaodv_ns.Headers.RoundTrip.{RreqFits, RrepFits}
use madaodv_ns.Headers.Decodes.{decodes}
use madaodv_ns.Headers.RerrCodec.{RerrFits, rerr_round_trip}

abbrev write_four : ℕ → List ℕ
write_four x = x / 16777216 ∷ (x / 65536) % 256 ∷ (x / 256) % 256 ∷ x % 256 ∷ []

abbrev read_one : List ℕ → ℕ × List ℕ
read_one [] = (0, [])
read_one (x ∷ rest) = (x, rest)

abbrev read_four : List ℕ → ℕ × List ℕ
read_four (a ∷ b ∷ c ∷ d ∷ rest) = (a * 16777216 + b * 65536 + c * 256 + d, rest)
read_four rest = (0, rest)

abbrev pub buffer : Buffer
buffer = record {
  write_u8 = λ x. x ∷ [];
  write_u32 = write_four;
  write_address = write_four;
  read_u8 = read_one;
  read_u32 = read_four;
  read_address = read_four;
}

four_lem : (x : ℕ) (rest : List ℕ) → x < u32_mod → read_four (write_four x ++ rest) ≡ (x, rest)
four_lem x rest h = ap (λ y. (y, rest)) (omega arith)

pub buffer-IsFaithful : IsFaithful buffer
buffer-IsFaithful = record {
  length-u8 = λ x. refl;
  length-u32 = λ x. refl;
  length-address = λ x. refl;
  read-u8 = λ x rest h. refl;
  read-u32 = four_lem;
  read-address = four_lem;
}

abbrev pub request : RreqHeader
request = record {
  flags = 40;
  reserved = 0;
  hop_count = 3;
  request_id = 41;
  dst = 60;
  dst_seq_no = 8;
  origin = 10;
  origin_seq_no = 4294967295;
}

abbrev pub reply : RrepHeader
reply = record {
  flags = 64;
  prefix_size = 0;
  hop_count = 2;
  dst = 60;
  dst_seq_no = 8;
  origin = 10;
  life_time = 3000;
}

abbrev pub error : RerrHeader
error = record { flag = 0; reserved = 0; unreachable = (50, 4) ∷ (60, 8) ∷ [] }

request-RreqFits : RreqFits request
request-RreqFits = record {
  flags = omega arith;
  reserved = omega arith;
  hop_count = omega arith;
  request_id = omega arith;
  dst = omega arith;
  dst_seq_no = omega arith;
  origin = omega arith;
  origin_seq_no = omega arith;
}

reply-RrepFits : RrepFits reply
reply-RrepFits = record {
  flags = omega arith;
  prefix_size = omega arith;
  hop_count = omega arith;
  dst = omega arith;
  dst_seq_no = omega arith;
  origin = omega arith;
  life_time = omega arith;
}

pub error-RerrFits : RerrFits error
error-RerrFits = record {
  flag = omega arith;
  reserved = omega arith;
  entries = ((omega arith, omega arith), ((omega arith, omega arith), tt));
  sorted = (omega arith, (omega arith, tt));
  count = omega arith;
}

rerr_round_trip_example :
    deserialize_rerr buffer (serialize_rerr buffer error ++ (1 ∷ [])) ≡ some (error, 19, 1 ∷ [])
rerr_round_trip_example = rerr_round_trip buffer buffer-IsFaithful error (1 ∷ []) error-RerrFits

abbrev unread : TypeHeader
unread = record { type = rrep; is_valid = false }

four_back : (s : List ℕ) → Bytes 4 s → write_four (read_four s).0 ++ (read_four s).1 ≡ s
four_back [] h = absurd (omega arith)
four_back (a ∷ []) h = absurd (omega arith)
four_back (a ∷ b ∷ []) h = absurd (omega arith)
four_back (a ∷ b ∷ c ∷ []) h = absurd (omega arith)
four_back (a ∷ b ∷ c ∷ d ∷ rest) h =
    let la : a < 256 = h.0 in
    let lb : b < 256 = h.1.0 in
    let lc : c < 256 = h.1.1.0 in
    let ld : d < 256 = h.1.1.1.0 in
    let x : ℕ = a * 16777216 + b * 65536 + c * 256 + d in
    let ea : x / 16777216 ≡ a = omega arith in
    let eb : (x / 65536) % 256 ≡ b = omega arith in
    let ec : (x / 256) % 256 ≡ c = omega arith in
    let ed : x % 256 ≡ d = omega arith in λ i. ea i ∷ eb i ∷ ec i ∷ ed i ∷ rest

one_back : (s : List ℕ) → Bytes 1 s → (read_one s).0 ∷ (read_one s).1 ≡ s
one_back [] h = absurd (omega arith)
one_back (x ∷ rest) h = refl

buffer-Recovers : Recovers buffer
buffer-Recovers = record { write-u8 = one_back; write-u32 = four_back; write-address = four_back }

-- A RREQ from 24 bytes, and a RREP from 19.
decodes_example :
    let s : List ℕ =
      40 ∷ 0 ∷ 3 ∷ 0 ∷ 0 ∷ 0 ∷ 41 ∷ 10 ∷ 1 ∷ 1 ∷ 2 ∷ 0 ∷ 0 ∷ 0 ∷ 8 ∷ 10 ∷ 1 ∷ 1 ∷ 1 ∷ 0 ∷ 0 ∷ 0 ∷ 17
      ∷ 99 ∷ [] in
    let t : List ℕ =
      64 ∷ 0 ∷ 3 ∷ 10 ∷ 1 ∷ 1 ∷ 2 ∷ 0 ∷ 0 ∷ 0 ∷ 8 ∷ 10 ∷ 1 ∷ 1 ∷ 1 ∷ 0 ∷ 0 ∷ 43 ∷ 192 ∷ [] in
    ((h : RreqHeader) × (i : List ℕ) × (deserialize_rreq buffer s ≡ some (h, 23, i))
      × (serialize_rreq buffer h ++ i ≡ s))
    × ((k : RrepHeader) × (j : List ℕ) × (deserialize_rrep buffer t ≡ some (k, 19, j))
        × (serialize_rrep buffer k ++ j ≡ t))
decodes_example = decodes buffer buffer-IsFaithful buffer-Recovers _ _ (omega arith) (omega arith)
