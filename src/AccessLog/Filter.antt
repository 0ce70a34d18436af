-- ===== src/AccessLog/Filter.antt =====
-- internal/logging/accesslog/filter.go, status_code_range.go and config.go: which requests a log keeps.
-- Status codes are natural numbers. `strutils.SplitRune`, `strconv.Atoi`, `strings.EqualFold`,
-- `net.SplitHostPort` with `net.ParseIP`, and the test of an address against a network are arguments;
-- a network is a value of any type.
pub mod Passing
use godoxy.Prelude.{
  ℕ, Bool, true, false, not, ◌&&◌, Option, none, some, List, [], ◌∷◌, leb, if◌then◌else◌,
}
use godoxy.Prelude.Bytes.{Bytes, bytes_eq}

pub record LogFilter (T : Type 0) : Type 0 where
  pub negative : Bool
  pub values : List T

-- The loop over the values.
unfoldable pub check_values : {T : Type 0} → (T → Bool) → Bool → List T → Bool
check_values fulfill negative [] = negative
check_values fulfill negative (v ∷ vs) =
    let rest = check_values fulfill negative vs in if fulfill v then not negative else rest

unfoldable pub check_keep : {T : Type 0} → (T → Bool) → LogFilter T → Bool
unfolding check_values
check_keep fulfill f = elim f.values [
  | [] ↦ not f.negative
  | v ∷ vs ↦ check_values fulfill f.negative (v ∷ vs)
]

pub record StatusCodeRange : Type 0 where
  pub start : ℕ
  pub end : ℕ

unfoldable pub includes : StatusCodeRange → ℕ → Bool
includes r code = leb r.start code && leb code r.end

pub data FilterError : Type 0 where
  invalid_number invalid_range invalid_header : FilterError

pub data Parsed (A : Type 0) : Type 0 where
  parsed : A → Parsed A
  refused : FilterError → Parsed A

unfoldable pub range_of : Option ℕ → Option ℕ → Parsed StatusCodeRange
range_of (some a) (some b) = parsed (record { start = a; end = b })
range_of (some a) none = refused invalid_number
range_of none b = refused invalid_number

unfoldable pub parse_range :
    (Bytes → List Bytes) → (Bytes → Option ℕ) → Bytes → Parsed StatusCodeRange
unfolding range_of
parse_range split atoi v = elim (split v) [
  | a ∷ [] ↦ range_of (atoi a) (atoi a)
  | a ∷ (b ∷ []) ↦ range_of (atoi a) (atoi b)
  | _ ↦ refused invalid_range
]

pub record HttpHeader : Type 0 where
  pub key : Bytes
  pub wanted : Bytes

unfoldable pub parse_header : (Bytes → List Bytes) → Bytes → Parsed HttpHeader
parse_header split v = elim (split v) [
  | a ∷ [] ↦ parsed (record { key = a; wanted = [] })
  | a ∷ (b ∷ []) ↦ parsed (record { key = a; wanted = b })
  | _ ↦ refused invalid_header
]

-- What the filters read of a request and of its response. The headers are a map.
pub record Exchange : Type 0 where
  pub method : Bytes
  pub header : Bytes → Option (List Bytes)
  pub remote_addr : Bytes
  pub status_code : ℕ

unfoldable pub any_fold : (Bytes → Bytes → Bool) → Bytes → List Bytes → Bool
any_fold equal_fold wanted [] = false
any_fold equal_fold wanted (v ∷ vs) =
    let rest = any_fold equal_fold wanted vs in if equal_fold v wanted then true else rest

unfoldable pub header_fulfill : (Bytes → Bytes → Bool) → Exchange → HttpHeader → Bool
unfolding any_fold
header_fulfill equal_fold x k = elim (x.header k.key) [
  | none ↦ false
  | some got ↦ elim k.wanted [ [] ↦ true | c ∷ w ↦ any_fold equal_fold (c ∷ w) got ]
]

unfoldable pub method_fulfill : Exchange → Bytes → Bool
method_fulfill x method = bytes_eq x.method method

unfoldable pub status_fulfill : Exchange → StatusCodeRange → Bool
unfolding includes
status_fulfill x r = includes r x.status_code

module _ {Ip Net : Type 0} (parse_ip : Bytes → Option Ip) (contains : Net → Ip → Bool) where
  -- An address that does not parse is in no network.
  unfoldable pub cidr_fulfill : Exchange → Net → Bool
  cidr_fulfill x cidr = elim (parse_ip x.remote_addr) [ none ↦ false | some ip ↦ contains cidr ip ]

pub record Filters (Net : Type 0) : Type 0 where
  pub status_codes : LogFilter StatusCodeRange
  pub method : LogFilter Bytes
  pub host : LogFilter Bytes
  pub headers : LogFilter HttpHeader
  pub cidr : LogFilter Net

-- A log without a configuration of its requests keeps them all.
module _ {Ip Net : Type 0} (parse_ip : Bytes → Option Ip) (contains : Net → Ip → Bool)
    (equal_fold : Bytes → Bytes → Bool) where
  unfoldable pub should_log_request : Option (Filters Net) → Exchange → Bool
  unfolding check_keep cidr_fulfill header_fulfill method_fulfill status_fulfill
  should_log_request none x = true
  should_log_request (some f) x =
      check_keep (status_fulfill x) f.status_codes
      && (check_keep (method_fulfill x) f.method
          && (check_keep (header_fulfill equal_fold x) f.headers
              && check_keep (cidr_fulfill parse_ip contains x) f.cidr))
