-- ===== src/Entrypoint/ShortLink.antt =====
-- internal/entrypoint/shortlink.go: short links, whose first path segment names a host. The maps are
-- functions of their keys.
pub mod Dangling
use godoxy.Prelude.{
  ℕ, Bool, true, false, not, ◌&&◌, ◌||◌, Option, none, some, List, [], ◌∷◌, ◌++◌, ◌==◌,
  if◌then◌else◌,
}
use godoxy.Prelude.Bytes.{Bytes, codes, bytes_eq}
use godoxy.Rules.On.{trim_space}

pub record ShortLinkMatcher : Type 0 where
  pub default_domain_suffix : Bytes
  pub fqdn_routes : Bytes → Option Bytes
  pub subdomain_routes : Bytes → Bool

unfoldable pub new_short_link_tree : ShortLinkMatcher
new_short_link_tree = record {
  default_domain_suffix = [];
  fqdn_routes = λ k. none;
  subdomain_routes = λ k. false;
}

abbrev pub starts_with_dot : Bytes → Bool
starts_with_dot [] = false
starts_with_dot (c ∷ s) = c == 46

unfoldable pub set_default_domain_suffix : Bytes → ShortLinkMatcher → ShortLinkMatcher
set_default_domain_suffix suffix st = record st {
  default_domain_suffix = if starts_with_dot suffix then suffix else 46 ∷ suffix;
}

-- `strings.Contains(s, ".")`.
abbrev pub has_dot : Bytes → Bool
has_dot [] = false
has_dot (c ∷ s) = (c == 46) || has_dot s

-- `strings.Cut` at a byte: what is before it, and what is after it.
abbrev pub cut_before : ℕ → Bytes → Bytes
cut_before sep [] = []
cut_before sep (c ∷ s) = let rest = cut_before sep s in if c == sep then [] else c ∷ rest

abbrev pub cut_after : ℕ → Bytes → Bytes
cut_after sep [] = []
cut_after sep (c ∷ s) = let rest = cut_after sep s in if c == sep then s else rest

abbrev pub store_fqdn : Bytes → Bytes → ShortLinkMatcher → ShortLinkMatcher
store_fqdn k v st = record st {
  fqdn_routes = λ k'. if bytes_eq k k' then some v else st.fqdn_routes k';
}

abbrev pub delete_fqdn : Bytes → ShortLinkMatcher → ShortLinkMatcher
delete_fqdn k st = record st {
  fqdn_routes = λ k'. if bytes_eq k k' then none else st.fqdn_routes k';
}

abbrev pub present : Option Bytes → Bool
present none = false
present (some v) = true

-- The first label of a full name becomes a short link, unless the label has a route.
abbrev pub add_key : Bytes → Bytes → ShortLinkMatcher → ShortLinkMatcher
add_key [] alias st = st
add_key (c ∷ key) alias st =
    if st.subdomain_routes (c ∷ key) || present (st.fqdn_routes (c ∷ key))
    then st
    else store_fqdn (c ∷ key) alias st

abbrev pub add_subdomain : Bytes → ShortLinkMatcher → ShortLinkMatcher
add_subdomain alias st = record st {
  subdomain_routes = λ k. bytes_eq alias k || st.subdomain_routes k;
}

abbrev pub is_empty : Bytes → Bool
is_empty [] = true
is_empty (c ∷ s) = false

unfoldable pub add_trimmed : Bytes → ShortLinkMatcher → ShortLinkMatcher
add_trimmed [] st = st
add_trimmed (c ∷ s) st =
    if has_dot (c ∷ s)
    then add_key (cut_before 46 (c ∷ s)) (c ∷ s) (store_fqdn (c ∷ s) (c ∷ s) st)
    else if is_empty st.default_domain_suffix
    then st
    else add_subdomain (c ∷ s) st

abbrev pub points_to : Option Bytes → Bytes → Bool
points_to none alias = false
points_to (some t) alias = bytes_eq t alias

abbrev pub delete_key : Bytes → Bytes → ShortLinkMatcher → ShortLinkMatcher
delete_key [] alias st = st
delete_key (c ∷ key) alias st =
    if points_to (st.fqdn_routes (c ∷ key)) alias then delete_fqdn (c ∷ key) st else st

unfoldable pub del_trimmed : Bytes → ShortLinkMatcher → ShortLinkMatcher
del_trimmed [] st = st
del_trimmed (c ∷ s) st =
    if has_dot (c ∷ s)
    then delete_key (cut_before 46 (c ∷ s)) (c ∷ s) (delete_fqdn (c ∷ s) st)
    else record st {
      subdomain_routes = λ k. if bytes_eq (c ∷ s) k then false else st.subdomain_routes k;
    }

unfoldable pub add_route : Bytes → ShortLinkMatcher → ShortLinkMatcher
unfolding add_trimmed trim_space
add_route alias st = add_trimmed (trim_space alias) st

unfoldable pub del_route : Bytes → ShortLinkMatcher → ShortLinkMatcher
unfolding del_trimmed trim_space
del_route alias st = del_trimmed (trim_space alias) st

-- What a request is answered with.
pub data Answer : Type 0 where
  key_required link_not_found : Answer
  redirect : Bytes → Answer

-- The host that a key leads to; the empty text for none.
unfoldable pub target_host : Bytes → ShortLinkMatcher → Bytes
target_host key st = elim (st.fqdn_routes key) [
  | some t ↦ t
  | none ↦
      if not (has_dot key) && (st.subdomain_routes key && not (is_empty st.default_domain_suffix))
      then key ++ st.default_domain_suffix
      else []
]

abbrev pub trim_slash : Bytes → Bytes
trim_slash [] = []
trim_slash (c ∷ s) = if c == 47 then s else c ∷ s

abbrev pub with_query : Bytes → Bytes → Bytes
with_query [] url = url
with_query (c ∷ q) url = url ++ 63 ∷ c ∷ q

answer_target : Bytes → Bytes → Bytes → Answer
answer_target [] rest query = link_not_found
answer_target (c ∷ host) rest query =
    redirect (with_query query (codes "https://" ++ ((c ∷ host) ++ 47 ∷ rest)))

answer_key : Bytes → Bytes → Bytes → ShortLinkMatcher → Answer
unfolding target_host answer_target
answer_key [] rest query st = key_required
answer_key (c ∷ key) rest query st = answer_target (target_host (c ∷ key) st) rest query

-- `ServeHTTP`, for the escaped path and the raw query.
unfoldable pub serve_http : Bytes → Bytes → ShortLinkMatcher → Answer
unfolding answer_key
serve_http path query st =
    let trim = trim_slash path in answer_key (cut_before 47 trim) (cut_after 47 trim) query st

pub data Change : Type 0 where
  adds deletes suffixes : Bytes → Change

unfoldable pub change : Change → ShortLinkMatcher → ShortLinkMatcher
unfolding add_route del_route set_default_domain_suffix
change (adds a) st = add_route a st
change (deletes a) st = del_route a st
change (suffixes s) st = set_default_domain_suffix s st

unfoldable pub changes : List Change → ShortLinkMatcher → ShortLinkMatcher
unfolding change
changes [] st = st
changes (c ∷ cs) st = changes cs (change c st)
