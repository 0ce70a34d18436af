-- ===== src/Autocert/Tests.antt =====
-- Witnesses for the theorems on the SNI matcher.
use godoxy.Prelude.{◌≡◌, refl, none, some, [], if◌then◌else◌, reverse}
use godoxy.Prelude.Bytes.{bytes_eq, codes}
use godoxy.Autocert.Names.{split_labels}
use godoxy.Autocert.Sni.{
  SniMatcher, node, nil, match_suffix_tree, insert_node, match_from, insert_wildcard_suffix,
}
use godoxy.Autocert.Sni.Tree.{covers, first_provider, match-insert_wildcard}

abbrev empty : SniMatcher
empty = record { exact = []; root = node nil none }

match-insert_wildcard_example :
    match_suffix_tree (insert_wildcard_suffix (codes "a.io") 7 empty) (codes "b.a.io") ≡ (
      if covers (reverse (split_labels (codes "a.io"))) (reverse (split_labels (codes "b.a.io")))
      then some (first_provider (match_suffix_tree empty (codes "b.a.io")) 7)
      else match_suffix_tree empty (codes "b.a.io"))
match-insert_wildcard_example = match-insert_wildcard empty 7 b'a' (codes ".io") (codes "b.a.io")

-- The wildcard covers a name with one more label, and neither its own suffix nor more labels.
wildcard_test :
    (match_suffix_tree (insert_wildcard_suffix (codes "a.io") 7 empty) (codes "b.a.io") ≡ some 7)
    × (match_suffix_tree (insert_wildcard_suffix (codes "a.io") 7 empty) (codes "c.b.a.io") ≡ none)
    × (match_suffix_tree (insert_wildcard_suffix (codes "a.io") 7 empty) (codes "a.io") ≡ none)
unfolding match_suffix_tree insert_wildcard_suffix split_labels insert_node match_from bytes_eq
wildcard_test = (refl, refl, refl)
