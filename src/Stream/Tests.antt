-- ===== src/Stream/Tests.antt =====
-- Witnesses for the theorems on the stream header, with a sum of bytes as the checksum.
use godoxy.Prelude.{ℕ, ◌+◌, ◌%◌, ◌^◌, ◌<◌, ◌≡◌, arith, true, false, some, [], ◌∷◌}
use godoxy.Prelude.Bytes.{Bytes, codes}
use godoxy.Stream.Header.{
  StreamRequestHeader, new_stream_request_header, validate, get_host_port, should_close_immediately,
}
use godoxy.Stream.Header.RoundTrip.{IsSized, new_header-validate}

abbrev sum : Bytes → ℕ
sum [] = 0
sum (b ∷ bs) = (b + sum bs) % 4294967296

sum_bound : (b : Bytes) → sum b < 2 ^ 32
sum_bound [] = omega arith
sum_bound (b ∷ bs) = omega arith

new_header-validate_example :
    (h : StreamRequestHeader) × (new_stream_request_header sum (codes "app.local") (codes "8080")
      ≡ some h)
    × (validate sum h ≡ true)
    × (get_host_port h ≡ (codes "app.local", codes "8080"))
    × (should_close_immediately h ≡ false)
    × IsSized h
new_header-validate_example =
    new_header-validate sum (codes "app.local") (codes "8080") sum_bound (omega arith) (omega arith)
