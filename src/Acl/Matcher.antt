-- ===== src/Acl/Matcher.antt =====
-- internal/acl/matcher.go: the rules of the allow and deny lists. `Net` gives the functions of Go's
-- `net` package and the city lookup of internal/maxmind that the matchers call.
use godoxy.Prelude.{
  ℕ, suc, ◌≡◌, ◌≢◌, refl, ap, Bool, true, false, Option, none, some, List, [], ◌∷◌, ◌++◌, arith,
  ◌==◌, if◌then◌else◌, length, Bool-cases, inl, inr,
}
use godoxy.Prelude.Bytes.{Bytes, bytes_eq, codes, split, split_from}

pub record City : Type 0 where
  pub time_zone : Bytes
  pub iso_code : Bytes

-- Addresses and networks are numbers here, and mean what these functions make of them.
pub record Net : Type 0 where
  pub parse_ip : Bytes → Option ℕ
  pub parse_cidr : Bytes → Option ℕ
  pub ip_equal : ℕ → ℕ → Bool
  pub contains : ℕ → ℕ → Bool
  pub lookup_city : ℕ → Option City
  pub to_string : ℕ → Bytes
  pub is_loopback : ℕ → Bool
  pub is_private : ℕ → Bool

pub data Rule : Type 0 where
  ip : ℕ → Rule
  cidr : ℕ → Rule
  tz : Bytes → Rule
  country : Bytes → Rule

pub record Matcher : Type 0 where
  pub rule : Rule
  pub raw : Bytes

pub data AclError : Type 0 where
  syntax invalid_ip invalid_cidr : AclError

pub data Result (A : Type 0) : Type 0 where
  ok : A → Result A
  err : AclError → Result A

parsed : AclError → (ℕ → Rule) → Bytes → Option ℕ → Result Matcher
parsed e make raw none = err e
parsed e make raw (some a) = ok (record { rule = make a; raw = raw })

-- The `switch` on the type.
parse_kind : Net → Bytes → Bytes → Bytes → Result Matcher
unfolding parsed
parse_kind net raw kind value =
    if bytes_eq kind (codes "ip")
    then parsed invalid_ip ip raw (net.parse_ip value)
    else if bytes_eq kind (codes "cidr")
    then parsed invalid_cidr cidr raw (net.parse_cidr value)
    else if bytes_eq kind (codes "tz")
    then ok (record { rule = tz value; raw = raw })
    else if bytes_eq kind (codes "country")
    then ok (record { rule = country value; raw = raw })
    else err syntax

parse_parts : Net → Bytes → List Bytes → Result Matcher
unfolding parse_kind
parse_parts net raw (kind ∷ value ∷ []) = parse_kind net raw kind value
parse_parts net raw _ = err syntax

unfoldable pub parse : Net → Bytes → Result Matcher
unfolding parse_parts
parse net s = parse_parts net s (split b':' s)

abbrev city_is : (City → Bytes) → Bytes → Option City → Bool
city_is field value none = false
city_is field value (some c) = bytes_eq (field c) value

-- The `MatcherFunc` of a rule.
unfoldable pub matches : Net → Rule → ℕ → Bool
matches net (ip a) addr = net.ip_equal a addr
matches net (cidr n) addr = net.contains n addr
matches net (tz z) addr = city_is (λ c. c.time_zone) z (net.lookup_city addr)
matches net (country i) addr = city_is (λ c. c.iso_code) i (net.lookup_city addr)

unfoldable pub match_any : Net → List Matcher → ℕ → Bool
match_any net [] addr = false
match_any net (m ∷ ms) addr = if matches net m.rule addr then true else match_any net ms addr

raw_lines : List Matcher → Bytes
raw_lines [] = []
raw_lines (m ∷ ms) = m.raw ++ (10 ∷ raw_lines ms)

-- `MarshalText`.
unfoldable pub marshal_text : List Matcher → Bytes
unfolding raw_lines
marshal_text [] = codes "[]"
marshal_text (m ∷ ms) = raw_lines (m ∷ ms)

-- The number of colons of a text.
abbrev pub colons : Bytes → ℕ
colons [] = 0
colons (c ∷ cs) = let rest = colons cs in if c == b':' then suc rest else rest

length-split_from : (part s : Bytes) → length (split_from b':' part s) ≡ suc (colons s)
unfolding split_from
length-split_from part [] = refl
length-split_from part (c ∷ cs) = elim (Bool-cases (c == b':')) [
  | inl e ↦ rw e (ap suc (length-split_from [] cs))
  | inr e ↦ rw e (length-split_from (part ++ c ∷ []) cs)
]

parse_parts-syntax :
    (net : Net) (raw : Bytes) (parts : List Bytes)
    → length parts ≢ 2
    → parse_parts net raw parts ≡ err syntax
unfolding parse_parts
parse_parts-syntax net raw [] h = refl
parse_parts-syntax net raw (a ∷ []) h = refl
parse_parts-syntax net raw (a ∷ b ∷ []) h = absurd (h refl)
parse_parts-syntax net raw (a ∷ b ∷ c ∷ rest) h = refl

-- A text with any number of colons but one is a syntax error, whatever comes before and between them:
-- no address or network that is written with colons can be given.
pub parse-colons : (net : Net) (s : Bytes) → colons s ≢ 1 → parse net s ≡ err syntax
unfolding parse split
parse-colons net s h =
    parse_parts-syntax net s (split b':' s) (λ e. h (omega (arith, length-split_from [] s)))
