-- ===== src/Tgp/Types.antt =====
-- internal/tgp/protocol.go and the constants and errors of internal/tgp.
-- A fixed-size array is a byte list whose length is stated by `Bounded`; an errors.New value is a
-- constructor of `Error`, and the text that fmt.Errorf wraps round it is left out.
use tachyon_core.Base.{ℕ, ◌-◌, ◌^◌, ◌<◌, ◌≡◌, [], ◌∷◌, length, Option}
use tachyon_core.Base.Bytes.{Bytes}

pub data Error : Type 0 where
  packet_too_short invalid_magic invalid_length sequence_overflow datagram_too_large : Error
  nil_codec aead_failed max_datagram_out_of_range : Error
  invalid_fec_params fec_resource_limit fec_shard_too_large : Error
  reconstruction_failed : Error
  session_closed session_id_mismatch migration_disabled nil_address remote_rejected : Error
  transport_failed cancelled : Error
  invalid_path_control invalid_tunnel_data : Error

-- "TGP\x01"
abbrev pub magic_bytes : Bytes
magic_bytes = 0x54 ∷ 0x47 ∷ 0x50 ∷ 0x01 ∷ []

abbrev pub flag_fec : ℕ
flag_fec = 2

abbrev pub flag_encrypted : ℕ
flag_encrypted = 128

-- codec.go: sizes of the headers and limits of a datagram.
abbrev pub outer_header_size : ℕ
outer_header_size = 13

abbrev pub inner_header_size : ℕ
inner_header_size = 43

abbrev pub min_datagram_size : ℕ
min_datagram_size = 1232

abbrev pub default_datagram_size : ℕ
default_datagram_size = 1352

abbrev pub max_datagram_size : ℕ
max_datagram_size = 1452

-- chacha20poly1305.Overhead
abbrev pub aead_overhead_size : ℕ
aead_overhead_size = 16

abbrev pub max_data_payload_size : ℕ
max_data_payload_size =
    max_datagram_size - outer_header_size - inner_header_size - aead_overhead_size

abbrev pub max_dtls_sequence : ℕ
max_dtls_sequence = 2 ^ 48 - 1

pub record OuterHeader : Type 0 where
  pub content_type : ℕ
  pub version_major : ℕ
  pub version_minor : ℕ
  pub epoch : ℕ
  pub sequence_num : Bytes
  pub length : ℕ

pub record InnerHeader : Type 0 where
  pub magic : Bytes
  pub flags : ℕ
  pub session_id : Bytes
  pub stream_id : ℕ
  pub packet_number : ℕ
  pub fec_group : ℕ
  pub fec_index : ℕ
  pub fec_total : ℕ
  pub fec_data_shards : ℕ
  pub payload_length : ℕ

-- A UDP address: its network and its text.
pub record Addr : Type 0 where
  pub network : Bytes
  pub text : Bytes

pub record Packet : Type 0 where
  pub outer : OuterHeader
  pub inner : InnerHeader
  pub payload : Bytes
  pub received_at : ℕ
  pub source_addr : Option Addr

-- The ranges that Go's field types give the values of an inner header.
pub record Bounded (h : InnerHeader) : Type 0 where
  pub magic_size : length h.magic ≡ 4
  pub flags_byte : h.flags < 256
  pub session_id_size : length h.session_id ≡ 16
  pub stream_id_word : h.stream_id < 256 ^ 2
  pub packet_number_word : h.packet_number < 256 ^ 8
  pub fec_group_word : h.fec_group < 256 ^ 4
  pub fec_index_byte : h.fec_index < 256
  pub fec_total_byte : h.fec_total < 256
  pub fec_data_shards_byte : h.fec_data_shards < 256
