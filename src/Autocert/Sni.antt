-- ===== src/Autocert/Sni.antt =====
-- internal/autocert/sni_matcher.go: the matcher that finds the provider of a server name, first among
-- the exact names, then in a tree of the labels of wildcard names from the last label on. A provider
-- is a pointer, a number here; the maps are association lists, which a missing map equals when empty.
pub mod Tree
pub mod Exact
use godoxy.Prelude.{
  ℕ, zero, suc, Bool, true, false, Option, none, some, List, [], ◌∷◌, reverse, ◌==◌, if◌then◌else◌,
}
use godoxy.Prelude.Bytes.{Bytes, bytes_eq}
use godoxy.Autocert.Names.{normalize_server_name, split_labels, cut_wildcard}

abbrev pub Provider : Type 0
Provider = ℕ

-- `sniTreeNode`, with its map of children.
mutual
  pub data Node : Type 0 where
    node : Children → Option Provider → Node

  pub data Children : Type 0 where
    nil : Children
    child : Bytes → Node → Children → Children

pub record SniMatcher : Type 0 where
  pub exact : List (Bytes × Provider)
  pub root : Node

-- A path of new nodes that ends in a wildcard.
unfoldable pub fresh_path : List Bytes → Provider → Node
fresh_path [] p = node nil (some p)
fresh_path (l ∷ ls) p = node (child l (fresh_path ls p) nil) none

abbrev pub keep_first : Option Provider → Provider → Option Provider
keep_first none p = some p
keep_first (some q) p = some q

-- The loop of `insertWildcardSuffix`, for the labels from the last one on.
unfoldable mutual
  unfolding fresh_path

  pub insert_node : Node → List Bytes → Provider → Node
  insert_node (node cs w) [] p = node cs (keep_first w p)
  insert_node (node cs w) (l ∷ ls) p = node (insert_child cs l ls p) w

  pub insert_child : Children → Bytes → List Bytes → Provider → Children
  insert_child nil l ls p = child l (fresh_path ls p) nil
  insert_child (child k n cs) l ls p =
      if bytes_eq k l then child k (insert_node n ls p) cs else child k n (insert_child cs l ls p)

-- The entry of a map of children.
find_child : Children → Bytes → Option Node
find_child nil l = none
find_child (child k n cs) l = if bytes_eq k l then some n else find_child cs l

abbrev children : Node → Children
children (node cs w) = cs

abbrev wildcard : Node → Option Provider
wildcard (node cs w) = w

-- `best`, after a node with this many labels left.
better : Node → List Bytes → Option Provider → Option Provider
better n (l ∷ []) best = elim (wildcard n) [ none ↦ best | some p ↦ some p ]
better n _ best = best

-- The loop of `matchSuffixTree`, for the labels from the last one on.
unfoldable pub match_from : Node → List Bytes → Option Provider → Option Provider
unfolding find_child better
match_from n [] best = best
match_from n (l ∷ ls) best = elim (find_child (children n) l) [
  | none ↦ best
  | some next ↦ match_from next ls (better next ls best)
]

unfoldable pub match_suffix_tree : SniMatcher → Bytes → Option Provider
unfolding match_from
match_suffix_tree m name = match_from m.root (reverse (split_labels name)) none

unfoldable pub find_exact : List (Bytes × Provider) → Bytes → Option Provider
find_exact [] name = none
find_exact ((k, p) ∷ exact) name = if bytes_eq k name then some p else find_exact exact name

match_name : SniMatcher → Bytes → Option Provider
unfolding find_exact match_suffix_tree
match_name m [] = none
match_name m (c ∷ cs) = elim (find_exact m.exact (c ∷ cs)) [
  | some p ↦ some p
  | none ↦ match_suffix_tree m (c ∷ cs)
]

-- `match`, for a matcher that is not nil.
unfoldable pub match_server : SniMatcher → Bytes → Option Provider
unfolding match_name
match_server m server_name = match_name m (normalize_server_name server_name)

abbrev add_if_absent : Option Provider → Bytes → Provider → SniMatcher → SniMatcher
add_if_absent (some q) name p m = m
add_if_absent none name p m = record m { exact = (name, p) ∷ m.exact }

unfoldable pub insert_exact : Bytes → Provider → SniMatcher → SniMatcher
insert_exact [] p m = m
insert_exact (c ∷ cs) p m = add_if_absent (find_exact m.exact (c ∷ cs)) (c ∷ cs) p m

unfoldable pub insert_wildcard_suffix : Bytes → Provider → SniMatcher → SniMatcher
insert_wildcard_suffix [] p m = m
insert_wildcard_suffix (c ∷ cs) p m = record m {
  root = insert_node m.root (reverse (split_labels (c ∷ cs))) p;
}

-- `addName`, after the normalisation and its test for the empty name.
add_kind : Option Bytes → Bytes → Provider → SniMatcher → SniMatcher
unfolding insert_exact insert_wildcard_suffix
add_kind (some suffix) name p m = insert_wildcard_suffix suffix p m
add_kind none name p m = insert_exact name p m

add_normal : Bytes → Provider → SniMatcher → SniMatcher
unfolding add_kind
add_normal [] p m = m
add_normal (c ∷ cs) p m = add_kind (cut_wildcard (c ∷ cs)) (c ∷ cs) p m

unfoldable pub add_name : Bytes → Provider → SniMatcher → SniMatcher
unfolding add_normal
add_name name p m = add_normal (normalize_server_name name) p m

unfoldable pub add_names : List Bytes → Provider → SniMatcher → SniMatcher
unfolding add_name
add_names [] p m = m
add_names (n ∷ ns) p m = add_names ns p (add_name n p m)

-- What `x509.ParseCertificate` reads of the leaf certificate: the common name and the DNS names.
pub record Leaf : Type 0 where
  pub common_name : Bytes
  pub dns_names : List Bytes

add_common_name : Bytes → Provider → SniMatcher → SniMatcher
unfolding add_name
add_common_name [] p m = m
add_common_name (c ∷ cs) p m = add_name (c ∷ cs) p m

-- `addProvider`; the leaf is `none` where the provider is nil, has no certificate, or has one that
-- does not parse.
unfoldable pub add_provider : Provider → Option Leaf → SniMatcher → SniMatcher
unfolding add_common_name add_names
add_provider p none m = m
add_provider p (some leaf) m = add_names leaf.dns_names p (add_common_name leaf.common_name p m)
