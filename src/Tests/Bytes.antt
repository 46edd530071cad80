-- ===== src/Tests/Bytes.antt =====
-- The bytes of a RERR, and of a packet of no known type, come in at the node of Tests/Data.
use madaodv_ns.Protocol.Handlers
use madaodv_ns.Protocol.Bytes
use madaodv_ns.Map
use madaodv_ns.Headers.Codec
use madaodv_ns.Headers
use madaodv_ns.Base.{◌≡◌, refl, some, none, [], ◌∷◌, ◌++◌, inr, arith}
use madaodv_ns.Headers.{make_rrep_ack}
use madaodv_ns.Protocol.{rerr_message, ack_message}
use madaodv_ns.Protocol.Routes.{update_route_to_neighbor}
use madaodv_ns.Protocol.Handlers.{recv_madaodv}
use madaodv_ns.Protocol.Bytes.{
  packet_of, parse_packet, recv_packet, received_as_sent, unknown_dropped,
}
use madaodv_ns.Tests.Data.{world, node}
use madaodv_ns.Tests.Messages.{buffer, buffer-IsFaithful, error, error-RerrFits}

ack_read :
    parse_packet buffer (packet_of buffer (ack_message make_rrep_ack) ++ 7 ∷ [])
    ≡ some (some (ack_message make_rrep_ack))
unfolding parse_packet Codec.deserialize_type Codec.checked packet_of Codec.serialize_type
    Codec.serialize_rrep_ack Codec.read_type Headers.type_code Headers.make_type_header
    Bytes.read_message
ack_read = refl

type_unknown : parse_packet buffer (9 ∷ 1 ∷ []) ≡ some none
unfolding parse_packet Codec.deserialize_type Codec.checked Codec.read_type
type_unknown = refl

received_as_sent_example :
    recv_packet world buffer 1 20 1 (packet_of buffer (rerr_message error) ++ 7 ∷ []) node
    ≡ recv_madaodv world 1 20 1 (some (rerr_message error)) node
received_as_sent_example =
    received_as_sent buffer buffer-IsFaithful world 1 20 1 (rerr_message error) (7 ∷ []) node
      error-RerrFits

unknown_dropped_example :
    recv_packet world buffer 1 20 1 (9 ∷ 1 ∷ []) node
    ≡ some (update_route_to_neighbor world 20 10 node)
unfolding Handlers.receiver_iface Map.find
unknown_dropped_example =
    unknown_dropped buffer buffer-IsFaithful world 1 20 1 9 10 (1 ∷ []) node (omega arith)
      (inr (omega arith)) refl
