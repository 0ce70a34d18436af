-- ===== src/Entrypoint/ShortLink/Dangling.antt =====
-- internal/entrypoint/shortlink.go: where short links lead.
use mathlib.Core.Path.{subst}
use godoxy.Prelude.{
  ◌≡◌, ◌⊎◌, inl, inr, refl, sym, ap, ◌∙◌, arith, Bool, true, false, Option, none, some, List, [],
  ◌∷◌, ◌==◌, if◌then◌else◌, Bool-cases, some-injective,
}
use godoxy.Prelude.Bytes.{Bytes, bytes_eq, bytes_eq→eq, bytes_eq_refl}
use godoxy.Rules.On.{trim_space}
use godoxy.Entrypoint.ShortLink.{
  ShortLinkMatcher, new_short_link_tree, set_default_domain_suffix, has_dot, cut_before, store_fqdn,
  delete_fqdn, present, add_key, add_subdomain, is_empty, add_route, add_trimmed, del_trimmed,
  points_to, delete_key, del_route, Change, adds, deletes, suffixes, change, changes,
}

-- A key leads to a full name that has a route itself, and is that name or its first label.
pub record IsLive (routes : Bytes → Option Bytes) (k t : Bytes) : Type 0 where
  pub has_route : routes t ≡ some t
  pub is_full : has_dot t ≡ true
  pub is_label : (k ≡ t) ⊎ ((k ≡ cut_before 46 t) × (is_empty k ≡ false))

abbrev pub Live : ShortLinkMatcher → Type 0
Live st = (k t : Bytes) → st.fqdn_routes k ≡ some t → IsLive st.fqdn_routes k t

-- A write, seen at another key or at the same one.
at_store :
    (k v k' t : Bytes) (o : Option Bytes)
    → (if bytes_eq k k' then some v else o) ≡ some t
    → ((k ≡ k') × (v ≡ t)) ⊎ (o ≡ some t)
at_store k v k' t o h = elim (Bool-cases (bytes_eq k k')) [
  | inl e ↦ inl (bytes_eq→eq k k' e, some-injective (sym (rw e refl) ∙ h))
  | inr e ↦ inr (sym (rw e refl) ∙ h)
]

store_self :
    (k : Bytes) (o : Option Bytes) (v : Bytes) → (if bytes_eq k k then some v else o) ≡ some v
store_self k o v = rw (bytes_eq_refl k) refl

store_full-Live :
    (a : Bytes) (st : ShortLinkMatcher) → has_dot a ≡ true → Live st → Live (store_fqdn a a st)
store_full-Live a st d l k t h = elim (at_store a a k t (st.fqdn_routes k) h) [
  | inl (e, f) ↦ record {
    has_route =
        subst (λ x. (if bytes_eq a x then some a else st.fqdn_routes x) ≡ some x) f
          (store_self a (st.fqdn_routes a) a);
    is_full = subst (λ x. has_dot x ≡ true) f d;
    is_label = inl (sym e ∙ f);
  }
  | inr g ↦
      let old = l k t g in
      record { has_route = kept t old.has_route; is_full = old.is_full; is_label = old.is_label }
]
  where
    kept :
        (t : Bytes)
        → st.fqdn_routes t ≡ some t
        → (if bytes_eq a t then some a else st.fqdn_routes t) ≡ some t
    kept t r = elim (Bool-cases (bytes_eq a t)) [
      | inl e ↦ rw e (ap some (bytes_eq→eq a t e))
      | inr e ↦ rw e r
    ]

-- A key without a route has no value.
absent : (o : Option Bytes) (t : Bytes) → present o ≡ false → o ≡ some t → ⊥
absent none t p e = ground arith
absent (some v) t p e = ground arith

opposed : {b : Bool} → b ≡ true → b ≡ false → ⊥
opposed {b = true} h k = ground arith
opposed {b = false} h k = ground arith

add_key-Live :
    (key a : Bytes) (st : ShortLinkMatcher)
    → st.fqdn_routes a ≡ some a
    → has_dot a ≡ true
    → key ≡ cut_before 46 a
    → Live st
    → Live (add_key key a st)
add_key-Live [] a st r d c l = l
add_key-Live (x ∷ key) a st r d c l = elim (Bool-cases (st.subdomain_routes (x ∷ key))) [
  | inl e ↦ rw e l
  | inr e ↦ rw e (by_route (present (st.fqdn_routes (x ∷ key))) refl)
]
  where
    stored : present (st.fqdn_routes (x ∷ key)) ≡ false → Live (store_fqdn (x ∷ key) a st)
    stored p k t h = elim (at_store (x ∷ key) a k t (st.fqdn_routes k) h) [
      | inl (e, f) ↦ record {
        has_route = either t f (subst (λ y. st.fqdn_routes y ≡ some y) f r);
        is_full = subst (λ y. has_dot y ≡ true) f d;
        is_label = inr (sym e ∙ c ∙ ap (cut_before 46) f, subst (λ y. is_empty y ≡ false) e refl);
      }
      | inr g ↦
          let old = l k t g in
          record {
            has_route = kept t old.has_route;
            is_full = old.is_full;
            is_label = old.is_label;
          }
    ]
      where
        either :
            (t : Bytes)
            → a ≡ t
            → st.fqdn_routes t ≡ some t
            → (if bytes_eq (x ∷ key) t then some a else st.fqdn_routes t) ≡ some t
        either t f q = elim (Bool-cases (bytes_eq (x ∷ key) t)) [
          | inl e ↦ rw e (ap some f)
          | inr e ↦ rw e q
        ]

        kept :
            (t : Bytes)
            → st.fqdn_routes t ≡ some t
            → (if bytes_eq (x ∷ key) t then some a else st.fqdn_routes t) ≡ some t
        kept t q = elim (Bool-cases (bytes_eq (x ∷ key) t)) [
          | inl e ↦ absurd (
              absent (st.fqdn_routes t) t
                (subst (λ y. present (st.fqdn_routes y) ≡ false) (bytes_eq→eq (x ∷ key) t e) p) q)
          | inr e ↦ rw e q
        ]

    by_route :
        (b : Bool)
        → present (st.fqdn_routes (x ∷ key)) ≡ b
        → Live (if b then st else store_fqdn (x ∷ key) a st)
    by_route true e = l
    by_route false e = stored e

at_delete :
    (k k' t : Bytes) (o : Option Bytes)
    → (if bytes_eq k k' then none else o) ≡ some t
    → (bytes_eq k k' ≡ false) × (o ≡ some t)
at_delete k k' t o h = elim (Bool-cases (bytes_eq k k')) [
  | inl e ↦ absurd (absent none t refl (sym (rw e refl) ∙ h))
  | inr e ↦ (e, sym (rw e refl) ∙ h)
]

-- After the full name is deleted, only its first label may lead to it.
Almost : Bytes → ShortLinkMatcher → Type 0
Almost a st =
    (k t : Bytes)
    → st.fqdn_routes k ≡ some t
    → ((t ≡ a) × ((k ≡ cut_before 46 a) × (is_empty k ≡ false))) ⊎ IsLive st.fqdn_routes k t

delete_full-Almost : (a : Bytes) (st : ShortLinkMatcher) → Live st → Almost a (delete_fqdn a st)
unfolding Almost
delete_full-Almost a st l k t h =
    let (ne, g) = at_delete a k t (st.fqdn_routes k) h in
    let old = l k t g in
    elim (Bool-cases (bytes_eq a t)) [
      | inl e ↦ inl (
        sym (bytes_eq→eq a t e),
        elim old.is_label [
          | inl f ↦ absurd (opposed (subst (λ y. bytes_eq a y ≡ true) (sym f) e) ne)
          | inr (f, n) ↦ (f ∙ ap (cut_before 46) (sym (bytes_eq→eq a t e)), n)
        ],
      )
      | inr e ↦ inr (record {
        has_route = rw e old.has_route;
        is_full = old.is_full;
        is_label = old.is_label;
      })
    ]

label-has_dot : (s : Bytes) → has_dot (cut_before 46 s) ≡ false
label-has_dot [] = refl
label-has_dot (c ∷ s) = elim (Bool-cases (c == 46)) [
  | inl e ↦ rw e refl
  | inr e ↦ rw (e, e) (label-has_dot s)
]

delete_key-Live :
    (key a : Bytes) (st : ShortLinkMatcher)
    → key ≡ cut_before 46 a
    → Almost a st
    → Live (delete_key key a st)
unfolding Almost
delete_key-Live [] a st c l = λ k t h. elim (l k t h) [
  | inl (e, (f, n)) ↦ absurd (opposed (subst (λ y. is_empty y ≡ true) (c ∙ sym f) refl) n)
  | inr live ↦ live
]
delete_key-Live (x ∷ key) a st c l = by_target (points_to (st.fqdn_routes (x ∷ key)) a) refl
  where
    by_target :
        (b : Bool)
        → points_to (st.fqdn_routes (x ∷ key)) a ≡ b
        → Live (if b then delete_fqdn (x ∷ key) st else st)
    by_target true p k t h =
        let (ne, g) = at_delete (x ∷ key) k t (st.fqdn_routes k) h in
        elim (l k t g) [
          | inl (e, (f, n)) ↦ absurd (
              opposed
                (subst (λ y. bytes_eq (x ∷ key) y ≡ true) (c ∙ sym f) (bytes_eq_refl (x ∷ key))) ne)
          | inr live ↦ record {
            has_route = elim (Bool-cases (bytes_eq (x ∷ key) t)) [
              | inl e ↦ absurd (
                  opposed live.is_full (
                    subst (λ y. has_dot y ≡ false) (sym c ∙ bytes_eq→eq (x ∷ key) t e)
                      (label-has_dot a)))
              | inr e ↦ rw e live.has_route
            ];
            is_full = live.is_full;
            is_label = live.is_label;
          }
        ]
    by_target false p k t h = elim (l k t h) [
      | inl (e, (f, n)) ↦ absurd (opposed (rw (c ∙ sym f, h, e) (bytes_eq_refl a)) p)
      | inr live ↦ live
    ]

add_trimmed-Live : (a : Bytes) (st : ShortLinkMatcher) → Live st → Live (add_trimmed a st)
unfolding add_trimmed
add_trimmed-Live [] st l = l
add_trimmed-Live (c ∷ s) st l = elim (Bool-cases (has_dot (c ∷ s))) [
  | inl d ↦
      rw (add_trimmed, d)
        (add_key-Live (cut_before 46 (c ∷ s)) (c ∷ s) (store_fqdn (c ∷ s) (c ∷ s) st)
          (store_self (c ∷ s) (st.fqdn_routes (c ∷ s)) (c ∷ s)) d refl
          (store_full-Live (c ∷ s) st d l))
  | inr d ↦ rw (add_trimmed, d) (by_suffix (is_empty st.default_domain_suffix))
]
  where
    by_suffix : (b : Bool) → Live (if b then st else add_subdomain (c ∷ s) st)
    by_suffix true = l
    by_suffix false = λ k t h. record {
      has_route = (l k t h).has_route;
      is_full = (l k t h).is_full;
      is_label = (l k t h).is_label;
    }

del_trimmed-Live : (a : Bytes) (st : ShortLinkMatcher) → Live st → Live (del_trimmed a st)
unfolding del_trimmed
del_trimmed-Live [] st l = l
del_trimmed-Live (c ∷ s) st l = elim (Bool-cases (has_dot (c ∷ s))) [
  | inl d ↦
      rw (del_trimmed, d)
        (delete_key-Live (cut_before 46 (c ∷ s)) (c ∷ s) (delete_fqdn (c ∷ s) st) refl
          (delete_full-Almost (c ∷ s) st l))
  | inr d ↦ rw (del_trimmed, d) l
]

change-Live : (c : Change) (st : ShortLinkMatcher) → Live st → Live (change c st)
unfolding change set_default_domain_suffix add_route del_route
change-Live (adds a) st l = add_trimmed-Live (trim_space a) st l
change-Live (deletes a) st l = del_trimmed-Live (trim_space a) st l
change-Live (suffixes s) st l = l

changes-keep : (cs : List Change) (st : ShortLinkMatcher) → Live st → Live (changes cs st)
unfolding changes
changes-keep [] st l = l
changes-keep (c ∷ cs) st l = changes-keep cs (change c st) (change-Live c st l)

-- Whatever routes are added and deleted, a key of the full names leads to a full name that has a route
-- itself, and that is the key, or whose first label is the key.
pub changes-Live : (cs : List Change) → Live (changes cs new_short_link_tree)
unfolding new_short_link_tree
changes-Live cs = changes-keep cs new_short_link_tree (λ k t h. absurd (absent none t refl h))
