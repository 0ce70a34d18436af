-- ===== src/Autocert/Sni/Exact.antt =====
-- internal/autocert/sni_matcher.go: exact names come before wildcard names, and the first provider
-- of a name stays.
use godoxy.Prelude.{
  ℕ, ◌≡◌, refl, sym, ap, Bool, true, false, Option, none, some, [], ◌∷◌, if◌then◌else◌, Bool-cases,
  inl, inr, ◌∙◌,
}
use godoxy.Prelude.Bytes.{Bytes, bytes_eq, bytes_eq_iff}
use godoxy.Autocert.Names.{normalize_server_name}
use godoxy.Autocert.Sni.{
  Provider, SniMatcher, find_exact, match_name, match_suffix_tree, match_server, insert_exact,
  add_if_absent,
}
use godoxy.Autocert.Sni.Tree.{first_provider}

find_exact_self :
    (m : SniMatcher) (o : Option Provider) (name : Bytes) (p : Provider) (q : Bytes)
    → find_exact m.exact name ≡ o
    → find_exact (add_if_absent o name p m).exact q
      ≡ (if bytes_eq name q then some (first_provider o p) else find_exact m.exact q)
unfolding find_exact
find_exact_self m none name p q e = refl
find_exact_self m (some r) name p q e = elim (Bool-cases (bytes_eq name q)) [
  | inl h ↦ rw (h, ← (bytes_eq_iff name q).0 h) e
  | inr h ↦ rw h refl
]

same_root :
    (m : SniMatcher) (o : Option Provider) (name : Bytes) (p : Provider) (q : Bytes)
    → match_suffix_tree (add_if_absent o name p m) q ≡ match_suffix_tree m q
unfolding match_suffix_tree
same_root m none name p q = refl
same_root m (some r) name p q = refl

found : Option Provider → Option Provider → Option Provider
found (some p) t = some p
found none t = t

match_name_lem :
    (m : SniMatcher) (d : ℕ) (ds : Bytes) (o : Option Provider)
    → find_exact m.exact (d ∷ ds) ≡ o
    → match_name m (d ∷ ds) ≡ found o (match_suffix_tree m (d ∷ ds))
unfolding match_name found
match_name_lem m d ds (some p) e = rw (e, match_name) refl
match_name_lem m d ds none e = rw (e, match_name) refl

found-if :
    (b : Bool) (p : Provider) (o t : Option Provider)
    → found (if b then some p else o) t ≡ (if b then some p else found o t)
unfolding found
found-if true p o t = refl
found-if false p o t = refl

match_name-add :
    (m : SniMatcher) (o : Option Provider) (p : Provider) (c : ℕ) (cs q : Bytes)
    → find_exact m.exact (c ∷ cs) ≡ o
    → match_name (add_if_absent o (c ∷ cs) p m) q
      ≡ (if bytes_eq (c ∷ cs) q then some (first_provider o p) else match_name m q)
unfolding match_name bytes_eq
match_name-add m o p c cs [] e = refl
match_name-add m o p c cs (d ∷ ds) e =
    match_name_lem (add_if_absent o (c ∷ cs) p m) d ds _ (find_exact_self m o (c ∷ cs) p (d ∷ ds) e)
    ∙ ap (found _) (same_root m o (c ∷ cs) p (d ∷ ds))
    ∙ found-if (bytes_eq (c ∷ cs) (d ∷ ds)) (first_provider o p) (find_exact m.exact (d ∷ ds))
        (match_suffix_tree m (d ∷ ds))
    ∙ ap (λ x. if bytes_eq (c ∷ cs) (d ∷ ds) then some (first_provider o p) else x)
        (sym (match_name_lem m d ds (find_exact m.exact (d ∷ ds)) refl))

-- After an exact name is inserted, the server names that normalise to it get the provider that was
-- inserted first under it, whatever the wildcard names are, and all others get what they got before.
pub match-insert_exact :
    (m : SniMatcher) (p : Provider) (c : ℕ) (cs server_name : Bytes)
    → match_server (insert_exact (c ∷ cs) p m) server_name ≡ (
        if bytes_eq (c ∷ cs) (normalize_server_name server_name)
        then some (first_provider (find_exact m.exact (c ∷ cs)) p)
        else match_server m server_name)
unfolding match_server insert_exact
match-insert_exact m p c cs server_name =
    match_name-add m (find_exact m.exact (c ∷ cs)) p c cs (normalize_server_name server_name) refl
