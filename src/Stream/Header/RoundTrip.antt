-- ===== src/Stream/Header/RoundTrip.antt =====
-- agent/pkg/agent/stream/header.go: what the receiver of a header reads.
use mathlib.Core.Path.{ap₂}
use godoxy.Prelude.{
  ℕ, zero, suc, ◌-◌, ◌≤◌, ◌<◌, ◌^◌, ◌%◌, ◌≡◌, ◌↔◌, ◌⊎◌, refl, ap, true, false, none, some, [], ◌∷◌,
  ◌++◌, arith, length, take, drop, replicate, length-append, length-replicate,
}
use godoxy.Prelude.Bytes.{Bytes, bytes_eq_refl}
use godoxy.Stream.Header.{
  version_size, host_size, port_size, checksum_size, header_size, version, StreamRequestHeader,
  padded, put_uint32, uint32, bytes_without_checksum, bytes, to_header, first_byte, empty_header,
  new_stream_request_header, get_host_port, validate, validate_checksum, update_checksum,
  should_close_immediately,
}

-- The arrays have their lengths.
pub record IsSized (h : StreamRequestHeader) : Type 0 where
  pub version_sized : length h.version_field ≡ version_size
  pub host_sized : length h.host ≡ host_size
  pub port_sized : length h.port ≡ port_size
  pub checksum_sized : length h.checksum ≡ checksum_size

take-append : (n : ℕ) (xs ys : Bytes) → length xs ≡ n → take n (xs ++ ys) ≡ xs
take-append zero [] ys h = refl
take-append zero (x ∷ xs) ys h = absurd (omega arith)
take-append (suc n) [] ys h = absurd (omega arith)
take-append (suc n) (x ∷ xs) ys h = ap (λ r. x ∷ r) (take-append n xs ys (omega arith))

drop-append : (n : ℕ) (xs ys : Bytes) → length xs ≡ n → drop n (xs ++ ys) ≡ ys
drop-append zero [] ys h = refl
drop-append zero (x ∷ xs) ys h = absurd (omega arith)
drop-append (suc n) [] ys h = absurd (omega arith)
drop-append (suc n) (x ∷ xs) ys h = drop-append n xs ys (omega arith)

uint32-put_uint32 : (v : ℕ) → v < 2 ^ 32 → uint32 (put_uint32 v) ≡ v
unfolding uint32 put_uint32
uint32-put_uint32 v h = omega arith

length-bytes : (h : StreamRequestHeader) → IsSized h → length (bytes h) ≡ header_size
unfolding bytes
length-bytes h s = omega (
  arith,
  length-append h.version_field
      (h.host_length ∷ (h.host ++ (h.port_length ∷ (h.port ++ (h.flag ∷ h.checksum))))),
  length-append h.host (h.port_length ∷ (h.port ++ (h.flag ∷ h.checksum))),
  length-append h.port (h.flag ∷ h.checksum),
  s.version_sized,
  s.host_sized,
  s.port_sized,
  s.checksum_sized,
)

to_header_lem : (h : StreamRequestHeader) → IsSized h → to_header (bytes h) ≡ h
unfolding to_header bytes first_byte
to_header_lem h s =
    rw
      (
        drop-append version_size h.version_field _ s.version_sized,
        take-append version_size h.version_field _ s.version_sized,
        take-append host_size h.host _ s.host_sized,
        drop-append host_size h.host _ s.host_sized,
        take-append port_size h.port _ s.port_sized,
        drop-append port_size h.port _ s.port_sized,
      )
      refl

-- A header of the right sizes is `header_size` bytes long, and its bytes are read back as the same
-- header.
pub to_header-bytes :
    (h : StreamRequestHeader)
    → IsSized h
    → (length (bytes h) ≡ header_size) × (to_header (bytes h) ≡ h)
to_header-bytes h s = (length-bytes h s, to_header_lem h s)

length-padded : (n : ℕ) (xs : Bytes) → length xs ≤ n → length (padded n xs) ≡ n
unfolding padded
length-padded n xs h = omega (
  arith,
  length-append xs (replicate (n - length xs) 0),
  length-replicate {A = ℕ} (n - length xs) 0,
)

take-padded : (n k : ℕ) (xs : Bytes) → length xs ≡ k → take k (padded n xs) ≡ xs
unfolding padded
take-padded n k xs h = take-append k xs _ h

checksum_ok :
    (crc : Bytes → ℕ) (h : StreamRequestHeader)
    → crc (bytes_without_checksum h) < 2 ^ 32
    → validate_checksum crc (update_checksum crc h) ≡ true
unfolding validate_checksum update_checksum
checksum_ok crc h b = ground (arith, uint32-put_uint32 (crc (bytes_without_checksum h)) b)

validate_lem :
    (crc : Bytes → ℕ) (h : StreamRequestHeader)
    → h.version_field ≡ version
    → h.host_length ≤ host_size
    → h.port_length ≤ port_size
    → validate_checksum crc h ≡ true
    → validate crc h ≡ true
unfolding validate
validate_lem crc h a b c d = rw (a, bytes_eq_refl version) (ground arith)

new-IsSized :
    (crc : Bytes → ℕ) (h : StreamRequestHeader) → IsSized h → IsSized (update_checksum crc h)
unfolding update_checksum put_uint32
new-IsSized crc h s = record {
  version_sized = s.version_sized;
  host_sized = s.host_sized;
  port_sized = s.port_sized;
  checksum_sized = refl;
}

-- With a 32-bit checksum: a host of at most 255 bytes and a port of at most 5 give a header that the
-- receiver accepts, from which it reads the same host and port and no request to close, and which has
-- the sizes of the wire format.
pub new_header-validate :
    (crc : Bytes → ℕ) (host port : Bytes)
    → ((b : Bytes) → crc b < 2 ^ 32)
    → length host ≤ host_size
    → length port ≤ port_size
    → (h : StreamRequestHeader) × (new_stream_request_header crc host port ≡ some h)
      × (validate crc h ≡ true)
      × (get_host_port h ≡ (host, port))
      × (should_close_immediately h ≡ false)
      × IsSized h
unfolding new_stream_request_header
new_header-validate crc host port w a b =
    let h : StreamRequestHeader = record empty_header {
      host_length = length host % 256;
      host = padded host_size host;
      port_length = length port % 256;
      port = padded port_size port;
    } in
    (
      update_checksum crc h,
      ground arith,
      validate_lem crc (update_checksum crc h) (unfold update_checksum in refl)
          (unfold update_checksum in omega arith) (unfold update_checksum in omega arith)
          (checksum_ok crc h (w (bytes_without_checksum h))),
      (unfold get_host_port update_checksum in
          ap₂ (λ x y. (x, y)) (take-padded host_size (length host % 256) host (omega arith))
            (take-padded port_size (length port % 256) port (omega arith))),
      (unfold should_close_immediately update_checksum in refl),
      new-IsSized crc h (record {
        version_sized = refl;
        host_sized = length-padded host_size host a;
        port_sized = length-padded port_size port b;
        checksum_sized = refl;
      }),
    )

-- A host or a port that is longer is refused.
pub new_header-refused :
    (crc : Bytes → ℕ) (host port : Bytes)
    → ((new_stream_request_header crc host port ≡ none)
        ↔ ((host_size < length host) ⊎ (port_size < length port)))
unfolding new_stream_request_header
new_header-refused crc host port = ground arith
