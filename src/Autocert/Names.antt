-- ===== src/Autocert/Names.antt =====
-- internal/autocert/sni_matcher.go: `normalizeServerName`, and `strings.Split` at the dots. A name is
-- a list of bytes; the spaces and the letters are those of ASCII.
use godoxy.Prelude.{
  ℕ, ◌+◌, Bool, ◌&&◌, ◌||◌, Option, none, some, List, [], ◌∷◌, reverse, leb, ◌==◌, if◌then◌else◌,
}
use godoxy.Prelude.Bytes.{Bytes, split}

abbrev pub is_space : ℕ → Bool
is_space c = (leb 9 c && leb c 13) || (c == 32)

trim_left : Bytes → Bytes
trim_left [] = []
trim_left (c ∷ cs) = if is_space c then trim_left cs else c ∷ cs

trim_space : Bytes → Bytes
unfolding trim_left
trim_space s = reverse (trim_left (reverse (trim_left s)))

-- `TrimSuffix(s, ".")`, on the reversed text.
drop_dot : Bytes → Bytes
drop_dot [] = []
drop_dot (c ∷ cs) = if c == b'.' then cs else c ∷ cs

to_lower : Bytes → Bytes
to_lower [] = []
to_lower (c ∷ cs) = (if leb b'A' c && leb c b'Z' then c + 32 else c) ∷ to_lower cs

unfoldable pub normalize_server_name : Bytes → Bytes
unfolding trim_space drop_dot to_lower
normalize_server_name s = to_lower (reverse (drop_dot (reverse (trim_space s))))

-- The labels between the dots; the empty text has one empty label.
unfoldable pub split_labels : Bytes → List Bytes
unfolding split
split_labels s = split b'.' s

-- `CutPrefix(name, "*.")`.
cut_dot : Bytes → Option Bytes
cut_dot [] = none
cut_dot (c ∷ cs) = if c == b'.' then some cs else none

unfoldable pub cut_wildcard : Bytes → Option Bytes
unfolding cut_dot
cut_wildcard [] = none
cut_wildcard (c ∷ cs) = if c == b'*' then cut_dot cs else none
