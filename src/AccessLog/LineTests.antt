-- ===== src/AccessLog/LineTests.antt =====
-- Tests of the lines of the access log, and witnesses for the theorems on them.
use godoxy.Prelude.{
  ℕ, ◌≡◌, ◌↔◌, ◌==◌, In, refl, arith, Bool, true, false, Option, none, some, List, [], ◌∷◌, length,
}
use godoxy.Prelude.Bytes.{Bytes, codes, bytes_eq}
use godoxy.Prelude.Int.{ℤ, pos}
use godoxy.AccessLog.LogTime.{extract_time, parse_log_time}
use godoxy.AccessLog.Formatter.{
  Request, Response, Query, common_request_log, combined_request_log, append_request_uri, client_ip,
}
use godoxy.AccessLog.Filter.{
  Filters, Exchange, should_log_request, status_fulfill, method_fulfill, header_fulfill,
  cidr_fulfill,
}
use godoxy.AccessLog.Filter.Passing.{Passes, should_log_request_iff}
use godoxy.AccessLog.Fields.{FieldConfig, FieldMode, redacted_value, map_iter}
use godoxy.AccessLog.Fields.Shown.{MayShow, map_iter_iff}
use godoxy.AccessLog.Formatter.RoundTrip.{parse_log_time-common_request_log}

abbrev noon : Bytes
noon = codes "02/Jan/2006:12:00:00 +0000"

abbrev request : Bytes → Request
request host = record {
  host = host;
  remote_addr = codes "10.0.0.9";
  method = codes "GET";
  escaped_path = codes "/a[1]";
  proto = codes "HTTP/1.1";
  referer = [];
  user_agent = codes "{x}";
}

abbrev found_ok : Response
found_ok = record { status_code = pos 200; content_length = pos 5 }

abbrev no_split : Bytes → Option Bytes
no_split a = none

abbrev show : ℤ → Bytes
show n = codes "7"

abbrev query : Query
query = (codes "k", codes "v" ∷ codes "w" ∷ []) ∷ (codes "q", codes "z" ∷ []) ∷ []

query_text : append_request_uri (request []) query ≡ codes "/a[1]?k=v&k=w&q=z"
unfolding append_request_uri
query_text = refl

-- The bracket of an address of version 6 hides the time.
version_six :
    extract_time (common_request_log no_split show noon query (request (codes "[::1]:80")) found_ok)
    ≡ some (codes "::1]:80 10.0.0.9 - - [02/J")
unfolding extract_time common_request_log
version_six = refl

-- The time of a line in JSON.
json_time :
    extract_time (codes "{\"level\":\"info\",\"time\":\"02/Jan/2006:12:00:00 +0000\"}") ≡ some noon
unfolding extract_time
json_time = refl

parse_log_time-common_request_log_example :
    (parse_log_time length
        (common_request_log no_split show noon query (request (codes "a.b")) found_ok)
      ≡ length noon)
    × (parse_log_time length
          (combined_request_log no_split show noon query (request (codes "a.b")) found_ok)
        ≡ length noon)
unfolding client_ip
parse_log_time-common_request_log_example =
    parse_log_time-common_request_log length no_split show noon query (request (codes "a.b"))
      found_ok refl (omega arith) (omega arith) (omega arith)

abbrev filters : Filters ℕ
filters = record {
  status_codes = record { negative = false; values = record { start = 200; end = 299 } ∷ [] };
  method = record { negative = true; values = codes "PUT" ∷ [] };
  host = record { negative = false; values = codes "other" ∷ [] };
  headers = record { negative = false; values = [] };
  cidr = record { negative = false; values = [] };
}

abbrev exchange : Exchange
exchange = record {
  method = codes "GET";
  header = λ k. none;
  remote_addr = codes "10.0.0.9";
  status_code = 204;
}

abbrev contains : ℕ → ℕ → Bool
contains n ip = n == ip

abbrev parse_ip : Bytes → Option ℕ
parse_ip a = none

-- The request is logged although the filter on the host names another one.
host_unasked : should_log_request parse_ip contains bytes_eq (some filters) exchange ≡ true
unfolding should_log_request bytes_eq
host_unasked = refl

should_log_request_iff_example :
    (should_log_request parse_ip contains bytes_eq (some filters) exchange ≡ true) ↔ (
      Passes (status_fulfill exchange) filters.status_codes
      × Passes (method_fulfill exchange) filters.method
      × Passes (header_fulfill bytes_eq exchange) filters.headers
      × Passes (cidr_fulfill parse_ip contains exchange) filters.cidr)
should_log_request_iff_example = should_log_request_iff parse_ip contains bytes_eq filters exchange

abbrev some_redacted : FieldConfig
some_redacted = record { default = FieldMode.keep; config = (codes "t", FieldMode.redact) ∷ [] }

abbrev headers : List (Bytes × Bytes)
headers = (codes "h", codes "1") ∷ (codes "t", codes "2") ∷ []

fields_shown :
    map_iter redacted_value some_redacted headers
    ≡ (codes "h", codes "1") ∷ (codes "t", redacted_value) ∷ []
unfolding map_iter bytes_eq
fields_shown = refl

map_iter_iff_example :
    In (codes "t", codes "2") (map_iter redacted_value some_redacted headers)
    ↔ MayShow redacted_value some_redacted headers (codes "t", codes "2")
map_iter_iff_example = map_iter_iff redacted_value some_redacted (codes "t") (codes "2") headers
