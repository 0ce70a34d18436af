-- ===== src/Autocert/Sni/Tree.antt =====
-- internal/autocert/sni_matcher.go: what the tree of wildcard names finds after an insertion.
use godoxy.Prelude.{
  reverse, ℕ, ◌≡◌, refl, sym, ap, ◌∙◌, Bool, true, false, ◌&&◌, Option, none, some, List, [], ◌∷◌,
  arith, if◌then◌else◌, Option-cases, inl, inr,
}
use godoxy.Prelude.Bytes.{Bytes, bytes_eq, bytes_eq_iff}
use godoxy.Autocert.Names.{split_labels}
use godoxy.Autocert.Sni.{
  Provider, Node, node, Children, nil, child, fresh_path, keep_first, insert_node, insert_child,
  find_child, better, match_from, children, SniMatcher, match_suffix_tree, insert_wildcard_suffix,
}

-- The wildcard at the end of a path of labels, the reference for both loops.
mutual
  pub wildcard_at : Node → List Bytes → Option Provider
  wildcard_at (node cs w) [] = w
  wildcard_at (node cs w) (k ∷ ks) = wildcard_below cs k ks

  pub wildcard_below : Children → Bytes → List Bytes → Option Provider
  wildcard_below nil k ks = none
  wildcard_below (child j n cs) k ks =
      if bytes_eq j k then wildcard_at n ks else wildcard_below cs k ks

abbrev pub labels_eq : List Bytes → List Bytes → Bool
labels_eq [] [] = true
labels_eq [] (k ∷ ks) = false
labels_eq (l ∷ ls) [] = false
labels_eq (l ∷ ls) (k ∷ ks) = bytes_eq l k && labels_eq ls ks

wildcard_at-fresh_path :
    (ls : List Bytes) (p : Provider) (ks : List Bytes)
    → wildcard_at (fresh_path ls p) ks ≡ (if labels_eq ls ks then some p else none)
unfolding wildcard_at wildcard_below fresh_path
wildcard_at-fresh_path [] p [] = refl
wildcard_at-fresh_path [] p (k ∷ ks) = refl
wildcard_at-fresh_path (l ∷ ls) p [] = refl
wildcard_at-fresh_path (l ∷ ls) p (k ∷ ks) = ground (arith, wildcard_at-fresh_path ls p ks)

mutual
  unfolding wildcard_at wildcard_below insert_node insert_child

  at-insert_node :
      (n : Node) (ls : List Bytes) (p : Provider) (ks : List Bytes)
      → wildcard_at (insert_node n ls p) ks
        ≡ (if labels_eq ls ks then keep_first (wildcard_at n ks) p else wildcard_at n ks)
  at-insert_node (node cs w) [] p [] = refl
  at-insert_node (node cs w) [] p (k ∷ ks) = refl
  at-insert_node (node cs w) (l ∷ ls) p [] = refl
  at-insert_node (node cs w) (l ∷ ls) p (k ∷ ks) = below-insert_child cs l ls p k ks

  below-insert_child :
      (cs : Children) (l : Bytes) (ls : List Bytes) (p : Provider) (k : Bytes) (ks : List Bytes)
      → wildcard_below (insert_child cs l ls p) k ks ≡ (
          if labels_eq (l ∷ ls) (k ∷ ks)
          then keep_first (wildcard_below cs k ks) p
          else wildcard_below cs k ks)
  below-insert_child nil l ls p k ks = ground (arith, wildcard_at-fresh_path ls p ks)
  below-insert_child (child j n cs) l ls p k ks = ground (
    arith,
    bytes_eq_iff j l,
    bytes_eq_iff j k,
    bytes_eq_iff l k,
    at-insert_node n ls p ks,
    below-insert_child cs l ls p k ks,
  )

wildcard_found : Option Node → List Bytes → Option Provider
wildcard_found none ks = none
wildcard_found (some n) ks = wildcard_at n ks

wildcard_below-find_child :
    (cs : Children) (k : Bytes) (ks : List Bytes)
    → wildcard_below cs k ks ≡ wildcard_found (find_child cs k) ks
unfolding wildcard_below find_child wildcard_found
wildcard_below-find_child nil k ks = refl
wildcard_below-find_child (child j n cs) k ks = ground (arith, wildcard_below-find_child cs k ks)

-- All but the last element.
abbrev pub drop_last : List Bytes → List Bytes
drop_last [] = []
drop_last (l ∷ []) = []
drop_last (l ∷ k ∷ ks) = l ∷ drop_last (k ∷ ks)

-- What the loop looks for: the wildcard at the path of all labels but the first of the name, if
-- there is such a path.
abbrev pub wildcard_for : Node → List Bytes → Option Provider
wildcard_for n [] = none
wildcard_for n (l ∷ []) = none
wildcard_for n (l ∷ k ∷ ks) = wildcard_at n (drop_last (l ∷ k ∷ ks))

match_stops :
    (n : Node) (l : Bytes) (ls : List Bytes) (best : Option Provider)
    → find_child (children n) l ≡ none
    → match_from n (l ∷ ls) best ≡ best
unfolding match_from
match_stops n l ls best e = rw (e, match_from) refl

match_goes_on :
    (n next : Node) (l : Bytes) (ls : List Bytes) (best : Option Provider)
    → find_child (children n) l ≡ some next
    → match_from n (l ∷ ls) best ≡ match_from next ls (better next ls best)
unfolding match_from
match_goes_on n next l ls best e = rw (e, match_from) refl

match_end : (n : Node) (l : Bytes) (best : Option Provider) → match_from n (l ∷ []) best ≡ best
match_end n l best = elim (Option-cases (find_child (children n) l)) [
  | inl e ↦ match_stops n l [] best e
  | inr (next, e) ↦ match_goes_on n next l [] best e ∙ ended next
]
  where
    ended : (next : Node) → match_from next [] (better next [] best) ≡ best
    ended next = unfold match_from better in refl

better-wildcard : (n : Node) (l : Bytes) → better n (l ∷ []) none ≡ wildcard_at n []
unfolding better wildcard_at
better-wildcard (node cs none) l = refl
better-wildcard (node cs (some p)) l = refl

better-none : (n : Node) (k j : Bytes) (ks : List Bytes) → better n (k ∷ j ∷ ks) none ≡ none
unfolding better
better-none n k j ks = refl

at_child :
    (cs : Children) (w : Option Provider) (l : Bytes) (ks : List Bytes) (o : Option Node)
    → find_child cs l ≡ o
    → wildcard_at (node cs w) (l ∷ ks) ≡ wildcard_found o ks
unfolding wildcard_at
at_child cs w l ks o e = wildcard_below-find_child cs l ks ∙ ap (λ x. wildcard_found x ks) e

abbrev pub first_provider : Option Provider → Provider → Provider
first_provider none p = p
first_provider (some q) p = q

keep_first_lem : (o : Option Provider) (p : Provider) → keep_first o p ≡ some (first_provider o p)
keep_first_lem none p = refl
keep_first_lem (some q) p = refl

-- The loop of `matchSuffixTree` against that reference.
match_from-wildcard_for : (n : Node) (ls : List Bytes) → match_from n ls none ≡ wildcard_for n ls
unfolding wildcard_found wildcard_at
match_from-wildcard_for n [] = unfold match_from in refl
match_from-wildcard_for n (l ∷ []) = match_end n l none
match_from-wildcard_for (node cs w) (l ∷ k ∷ []) = elim (Option-cases (find_child cs l)) [
  | inl e ↦ match_stops (node cs w) l (k ∷ []) none e ∙ sym (at_child cs w l [] none e)
  | inr (next, e) ↦
      match_goes_on (node cs w) next l (k ∷ []) none e
      ∙ match_end next k (better next (k ∷ []) none)
      ∙ better-wildcard next k
      ∙ sym (at_child cs w l [] (some next) e)
]
match_from-wildcard_for (node cs w) (l ∷ k ∷ j ∷ ks) = elim (Option-cases (find_child cs l)) [
  | inl e ↦
      match_stops (node cs w) l (k ∷ j ∷ ks) none e
      ∙ sym (at_child cs w l (k ∷ drop_last (j ∷ ks)) none e)
  | inr (next, e) ↦
      match_goes_on (node cs w) next l (k ∷ j ∷ ks) none e
      ∙ ap (match_from next (k ∷ j ∷ ks)) (better-none next k j ks)
      ∙ match_from-wildcard_for next (k ∷ j ∷ ks)
      ∙ sym (at_child cs w l (k ∷ drop_last (j ∷ ks)) (some next) e)
]

-- The labels are those of the name without its first label.
abbrev pub covers : List Bytes → List Bytes → Bool
covers suffix [] = false
covers suffix (l ∷ []) = false
covers suffix (l ∷ k ∷ ks) = labels_eq suffix (drop_last (l ∷ k ∷ ks))

wildcard_for-insert :
    (n : Node) (suffix : List Bytes) (p : Provider) (ls : List Bytes)
    → wildcard_for (insert_node n suffix p) ls
      ≡ (if covers suffix ls then keep_first (wildcard_for n ls) p else wildcard_for n ls)
wildcard_for-insert n suffix p [] = refl
wildcard_for-insert n suffix p (l ∷ []) = refl
wildcard_for-insert n suffix p (l ∷ k ∷ ks) = at-insert_node n suffix p (drop_last (l ∷ k ∷ ks))

-- After the wildcard name `*.suffix` is inserted, the tree finds for a name whose labels are one
-- label and those of the suffix the provider it found before, or the new one if it found none, and
-- for every other name what it found before.
pub match-insert_wildcard :
    (m : SniMatcher) (p : Provider) (c : ℕ) (cs name : Bytes)
    → match_suffix_tree (insert_wildcard_suffix (c ∷ cs) p m) name ≡ (
        if covers (reverse (split_labels (c ∷ cs))) (reverse (split_labels name))
        then some (first_provider (match_suffix_tree m name) p)
        else match_suffix_tree m name)
unfolding match_suffix_tree insert_wildcard_suffix
match-insert_wildcard m p c cs name =
    match_from-wildcard_for (insert_node m.root suffix p) labels
    ∙ wildcard_for-insert m.root suffix p labels
    ∙ rw (match_from-wildcard_for m.root labels, keep_first_lem) refl
  where
    suffix : List Bytes
    suffix = reverse (split_labels (c ∷ cs))

    labels : List Bytes
    labels = reverse (split_labels name)
