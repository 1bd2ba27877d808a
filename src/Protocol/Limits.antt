-- ===== src/Protocol/Limits.antt =====
-- src/protocol/limits.h, the limits of src/core/limits.h and of src/ports/datagram_transport.h.
use lora_messenger.Common.{ℕ, ◌-◌, Bool, ◌&&◌, List, leb, if◌then◌else◌}

abbrev pub Bytes : Type 0
Bytes = List ℕ

abbrev pub MessageTag : Type 0
MessageTag = List ℕ

abbrev pub protocol_version : ℕ
protocol_version = 1

abbrev pub data_frame_type : ℕ
data_frame_type = 0

abbrev pub frame_magic_first : ℕ
frame_magic_first = 0x4c

abbrev pub frame_magic_second : ℕ
frame_magic_second = 0x4d

abbrev pub frame_header_bytes : ℕ
frame_header_bytes = 28

abbrev pub minimum_transport_mtu : ℕ
minimum_transport_mtu = 48

abbrev pub maximum_transport_mtu : ℕ
maximum_transport_mtu = 255

abbrev pub maximum_frame_payload_bytes : ℕ
maximum_frame_payload_bytes = maximum_transport_mtu - frame_header_bytes

abbrev pub minimum_encoded_post_bytes : ℕ
minimum_encoded_post_bytes = 46

abbrev pub maximum_encoded_post_bytes : ℕ
maximum_encoded_post_bytes = 316

abbrev pub maximum_fragments : ℕ
maximum_fragments = 16

unfoldable pub is_supported_mtu : ℕ → Bool
is_supported_mtu mtu = leb minimum_transport_mtu mtu && leb mtu maximum_transport_mtu

unfoldable pub frame_payload_capacity : ℕ → ℕ
unfolding is_supported_mtu
frame_payload_capacity mtu = if is_supported_mtu mtu then mtu - frame_header_bytes else 0
