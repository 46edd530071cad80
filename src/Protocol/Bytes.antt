-- ===== src/Protocol/Bytes.antt =====
-- The bytes of a message: the headers that a sender adds to its packet, and what `RecvMadaodv` and
-- the handlers that it calls remove.
use madaodv_ns.Base.{
  false, ℕ, ◌<◌, ◌≡◌, refl, ap, ◌⊎◌, sym, Option, none, some, List, ◌++◌, if◌then◌else◌, arith,
}
use mathlib.Core.List.{append_assoc}
use madaodv_ns.Wire.{Buffer, IsFaithful}
use madaodv_ns.Headers.{
  rreq, rrep, rerr, rrep_ack, MessageType, TypeHeader, make_type_header, make_rrep_ack,
}
use madaodv_ns.Headers.Codec.{
  serialize_type, deserialize_type, read_type, serialize_rreq, deserialize_rreq, serialize_rrep,
  deserialize_rrep, serialize_rerr, deserialize_rerr, serialize_rrep_ack,
}
use madaodv_ns.Headers.RoundTrip.{
  RreqFits, RrepFits, checked_lem, rreq_round_trip, rrep_round_trip, type_round_trip,
}
use madaodv_ns.Headers.RerrCodec.{RerrFits, rerr_round_trip}
use madaodv_ns.Protocol.{
  World, Node, Message, rreq_message, rrep_message, rerr_message, ack_message, ◌>>=◌,
}
use madaodv_ns.Protocol.Handlers.{receiver_iface, recv_madaodv}
use madaodv_ns.Protocol.Routes.{update_route_to_neighbor}

-- `AddHeader` of the message and then of its type, which puts the type in front.
unfoldable pub packet_of : Buffer → Message → List ℕ
packet_of b (rreq_message h) = serialize_type b (make_type_header rreq) ++ serialize_rreq b h
packet_of b (rrep_message h) = serialize_type b (make_type_header rrep) ++ serialize_rrep b h
packet_of b (rerr_message h) = serialize_type b (make_type_header rerr) ++ serialize_rerr b h
packet_of b (ack_message h) = serialize_type b (make_type_header rrep_ack) ++ serialize_rrep_ack b h

-- `RemoveHeader` of the message, by the handler for its type. `RecvReplyAck` removes none.
unfoldable pub read_message : Buffer → MessageType → List ℕ → Option Message
read_message b rreq i = do read ← deserialize_rreq b i; some (rreq_message read.0)
read_message b rrep i = do read ← deserialize_rrep b i; some (rrep_message read.0)
read_message b rerr i = do read ← deserialize_rerr b i; some (rerr_message read.0)
read_message b rrep_ack i = some (ack_message make_rrep_ack)

-- `RemoveHeader` of the type into a header that was made for a RREQ. No message if the type is
-- unknown.
unfoldable pub parse_packet : Buffer → List ℕ → Option (Option Message)
parse_packet b packet = do
  read ← deserialize_type b (make_type_header rreq) packet
  let (t, size, i) = read
  if t.is_valid then (read_message b t.type i >>= λ m. some (some m)) else some none

-- `RecvMadaodv` on the bytes of a packet.
unfoldable pub recv_packet : World → Buffer → ℕ → ℕ → ℕ → List ℕ → Node → Option Node
recv_packet w b socket sender ttl packet n = do
  message ← parse_packet b packet
  recv_madaodv w socket sender ttl message n

-- The fields fit their types. An acknowledgement is as the constructor makes it.
abbrev pub MessageFits : Message → Type 0
MessageFits (rreq_message h) = RreqFits h
MessageFits (rrep_message h) = RrepFits h
MessageFits (rerr_message h) = RerrFits h
MessageFits (ack_message h) = h ≡ make_rrep_ack

module _ (b : Buffer) (f : IsFaithful b) where
  parse_typed :
      (t : MessageType) (body : List ℕ)
      → parse_packet b (serialize_type b (make_type_header t) ++ body)
        ≡ (read_message b t body >>= λ m. some (some m))
  unfolding parse_packet make_type_header
  parse_typed t body = rw (type_round_trip b f t (make_type_header rreq) body) refl

  parse-packet_of :
      (m : Message) (rest : List ℕ)
      → MessageFits m
      → parse_packet b (packet_of b m ++ rest) ≡ some (some m)
  unfolding packet_of read_message
  parse-packet_of (rreq_message h) rest v =
      rw (append_assoc, parse_typed rreq (serialize_rreq b h ++ rest), rreq_round_trip b f h rest v)
        refl
  parse-packet_of (rrep_message h) rest v =
      rw (append_assoc, parse_typed rrep (serialize_rrep b h ++ rest), rrep_round_trip b f h rest v)
        refl
  parse-packet_of (rerr_message h) rest v =
      rw (append_assoc, parse_typed rerr (serialize_rerr b h ++ rest), rerr_round_trip b f h rest v)
        refl
  parse-packet_of (ack_message h) rest v =
      rw (append_assoc, parse_typed rrep_ack (serialize_rrep_ack b h ++ rest))
        (ap (λ a. some (some (ack_message a))) (sym v))

  -- Over a faithful buffer, the bytes of any message whose fields fit their types, with any bytes
  -- behind them, are handled by `RecvMadaodv` as that message. A RERR has at most 255 destinations,
  -- in rising order; an acknowledgement is one that the constructor makes.
  pub received_as_sent :
      (w : World) (socket sender ttl : ℕ) (m : Message) (rest : List ℕ) (n : Node)
      → MessageFits m
      → recv_packet w b socket sender ttl (packet_of b m ++ rest) n
        ≡ recv_madaodv w socket sender ttl (some m) n
  unfolding recv_packet
  received_as_sent w socket sender ttl m rest n v = rw (parse-packet_of m rest v) refl

  read_unknown :
      (code : ℕ) (t : TypeHeader)
      → (code ≡ 0) ⊎ (4 < code)
      → read_type b code t ≡ record t { is_valid = false }
  unfolding read_type
  read_unknown code t u = ground arith

  -- Over a faithful buffer, where the socket is one of the node's and the first byte is no type of a
  -- message, `RecvMadaodv` returns and drops the packet: all that it does is update the route to the
  -- sender.
  pub unknown_dropped :
      (w : World) (socket sender ttl code iface : ℕ) (rest : List ℕ) (n : Node)
      → code < 256
      → (code ≡ 0) ⊎ (4 < code)
      → receiver_iface socket n ≡ some iface
      → recv_packet w b socket sender ttl (b.write_u8 code ++ rest) n
        ≡ some (let ns = w.ns in update_route_to_neighbor w sender (ns.local iface) n)
  unfolding recv_packet parse_packet deserialize_type recv_madaodv
  unknown_dropped w socket sender ttl code iface rest n h u at =
      rw
        (
          f.read-u8 code rest h,
          read_unknown code (make_type_header rreq) u,
          checked_lem (record (make_type_header rreq) { is_valid = false }) 1 (b.write_u8 code) rest
              (f.length-u8 code),
          at,
        )
        refl
