-- ===== src/Stream/Header.antt =====
-- agent/pkg/agent/stream/header.go: the header that opens a stream. A byte array is a list, of the
-- length that `IsSized` states; the cast between the struct and its bytes is spelled out by fields.
-- `crc` is `crc32.ChecksumIEEE`.
pub mod RoundTrip
use Prim.Native.Nat.{bit_and, bit_or}
use godoxy.Prelude.{
  ℕ, ◌+◌, ◌-◌, ◌*◌, ◌/◌, ◌%◌, ◌≡◌, Bool, true, false, not, Option, none, some, List, [], ◌∷◌, ◌++◌,
  ltb, ◌==◌, if◌then◌else◌, length, take, drop, replicate,
}
use godoxy.Prelude.Bytes.{Bytes, bytes_eq}

abbrev pub version_size : ℕ
version_size = 8

abbrev pub host_size : ℕ
host_size = 255

abbrev pub port_size : ℕ
port_size = 5

abbrev pub checksum_size : ℕ
checksum_size = 4

abbrev pub header_size : ℕ
header_size = version_size + 1 + host_size + 1 + port_size + 1 + checksum_size

abbrev pub version : Bytes
version = b'0' ∷ b'.' ∷ b'1' ∷ b'.' ∷ b'0' ∷ 0 ∷ 0 ∷ 0 ∷ []

abbrev pub flag_close_immediately : ℕ
flag_close_immediately = 1

pub record StreamRequestHeader : Type 0 where
  pub version_field : Bytes
  pub host_length : ℕ
  pub host : Bytes
  pub port_length : ℕ
  pub port : Bytes
  pub flag : ℕ
  pub checksum : Bytes

-- `copy` of a text that fits into an array of `size` zero bytes.
pub padded : ℕ → Bytes → Bytes
padded size text = text ++ replicate (size - length text) 0

-- `BigEndian.PutUint32` and `BigEndian.Uint32`.
unfoldable pub put_uint32 : ℕ → Bytes
put_uint32 v = v / 16777216 % 256 ∷ v / 65536 % 256 ∷ v / 256 % 256 ∷ v % 256 ∷ []

unfoldable pub uint32 : Bytes → ℕ
uint32 (a ∷ b ∷ c ∷ d ∷ rest) = a * 16777216 + b * 65536 + c * 256 + d
uint32 _ = 0

unfoldable pub bytes_without_checksum : StreamRequestHeader → Bytes
bytes_without_checksum h =
    h.version_field ++ (h.host_length ∷ (h.host ++ (h.port_length ∷ (h.port ++ (h.flag ∷ [])))))

unfoldable pub bytes : StreamRequestHeader → Bytes
bytes h =
    h.version_field
    ++ (h.host_length ∷ (h.host ++ (h.port_length ∷ (h.port ++ (h.flag ∷ h.checksum)))))

first_byte : Bytes → ℕ
first_byte [] = 0
first_byte (b ∷ bs) = b

-- `ToHeader`, for the `header_size` bytes of its buffer.
unfoldable pub to_header : Bytes → StreamRequestHeader
unfolding first_byte
to_header buf =
    let host_part = drop version_size buf in
    let port_part = drop host_size (drop 1 host_part) in
    let flag_part = drop port_size (drop 1 port_part) in
    record {
      version_field = take version_size buf;
      host_length = first_byte host_part;
      host = take host_size (drop 1 host_part);
      port_length = first_byte port_part;
      port = take port_size (drop 1 port_part);
      flag = first_byte flag_part;
      checksum = drop 1 flag_part;
    }

pub update_checksum : (Bytes → ℕ) → StreamRequestHeader → StreamRequestHeader
unfolding bytes_without_checksum put_uint32
update_checksum crc h = record h { checksum = put_uint32 (crc (bytes_without_checksum h)) }

pub validate_checksum : (Bytes → ℕ) → StreamRequestHeader → Bool
unfolding bytes_without_checksum uint32
validate_checksum crc h = crc (bytes_without_checksum h) == uint32 h.checksum

abbrev pub empty_header : StreamRequestHeader
empty_header = record {
  version_field = version;
  host_length = 0;
  host = replicate host_size 0;
  port_length = 0;
  port = replicate port_size 0;
  flag = 0;
  checksum = replicate checksum_size 0;
}

-- `none` is the error for a host or a port that is too long.
unfoldable pub new_stream_request_header : (Bytes → ℕ) → Bytes → Bytes → Option StreamRequestHeader
unfolding update_checksum padded
new_stream_request_header crc host port =
    if ltb host_size (length host)
    then none
    else if ltb port_size (length port)
    then none
    else some (
        update_checksum crc (record empty_header {
          host_length = length host % 256;
          host = padded host_size host;
          port_length = length port % 256;
          port = padded port_size port;
        }))

unfoldable pub new_stream_health_check_header : (Bytes → ℕ) → StreamRequestHeader
unfolding update_checksum
new_stream_health_check_header crc =
    update_checksum crc (record empty_header { flag = bit_or 0 flag_close_immediately })

unfoldable pub get_host_port : StreamRequestHeader → Bytes × Bytes
get_host_port h = (take h.host_length h.host, take h.port_length h.port)

unfoldable pub validate : (Bytes → ℕ) → StreamRequestHeader → Bool
unfolding validate_checksum
validate crc h =
    if not (bytes_eq h.version_field version)
    then false
    else if ltb host_size h.host_length
    then false
    else if ltb port_size h.port_length
    then false
    else validate_checksum crc h

unfoldable pub should_close_immediately : StreamRequestHeader → Bool
should_close_immediately h = not (bit_and h.flag flag_close_immediately == 0)
