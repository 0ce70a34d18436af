-- ===== src/RoutePorts/Finalized.antt =====
-- internal/route/route.go: what Finalize gives a route.
use mathlib.Core.Path.{subst}
use Prim.Native.String.{String}
use godoxy.Prelude.{
  ℕ, ◌≤◌, ◌<◌, ◌≡◌, ◌≢◌, refl, sym, ap, ◌∙◌, ◌⊎◌, inl, inr, arith, true, false, Option, none, some,
  List, [], ◌∷◌, All, ltb, ◌==◌, if◌then◌else◌, Bool-cases, Option-cases, some-injective,
}
use godoxy.RoutePorts.{
  Scheme, unset, http, https, h2c, tcp, udp, fileserver, PortSummary, PortMapping, Container, Route,
  lookup, or_else, or_lowest, first_preferred, preferred_port_order, lowest, preferred_port, fill,
  by_image, default_port, udp_scheme, swap_port, guess_scheme, host_of, named, wanted_port,
  finalize, get_scheme_port_by_alias, get_scheme_port_by_image_name,
}

guess_scheme-ne-unset : (lp pp : ℕ) (s : Scheme) → guess_scheme lp pp s ≢ unset
unfolding guess_scheme
guess_scheme-ne-unset lp pp s = λ h. ground (arith, h)

guess_scheme_keep : (lp pp : ℕ) (s : Scheme) → s ≢ unset → guess_scheme lp pp s ≡ s
unfolding guess_scheme
guess_scheme_keep lp pp s h = ground (arith, h)

udp_scheme_keep : (c : Option Container) (pp : ℕ) (s : Scheme) → s ≢ unset → udp_scheme c pp s ≡ s
unfolding udp_scheme
udp_scheme_keep c pp s h = ground (arith, h)

fill_keep : (o : Option (Scheme × ℕ)) (s : Scheme) (pp : ℕ) → s ≢ unset → (fill o (s, pp)).0 ≡ s
unfolding fill
fill_keep o s pp h = ground (arith, h)

fill_port : (o : Option (Scheme × ℕ)) (s : Scheme) (pp : ℕ) → 0 < pp → (fill o (s, pp)).1 ≡ pp
unfolding fill
fill_port o s pp h = ground (arith, h)

fill_pos : (o : Option (Scheme × ℕ)) (s : Scheme) (pp : ℕ) → 0 < pp → 0 < (fill o (s, pp)).1
fill_pos o s pp h = omega (arith, fill_port o s pp h)

default_port_pos : (s : Scheme) → 0 < default_port none s
unfolding default_port
default_port_pos https = omega arith
default_port_pos unset = omega arith
default_port_pos http = omega arith
default_port_pos h2c = omega arith
default_port_pos tcp = omega arith
default_port_pos udp = omega arith
default_port_pos fileserver = omega arith

Scheme-cases : (s : Scheme) → (s ≡ unset) ⊎ (s ≢ unset)
Scheme-cases unset = inl refl
Scheme-cases http = inr (λ h. absurd (cc))
Scheme-cases https = inr (λ h. absurd (cc))
Scheme-cases h2c = inr (λ h. absurd (cc))
Scheme-cases tcp = inr (λ h. absurd (cc))
Scheme-cases udp = inr (λ h. absurd (cc))
Scheme-cases fileserver = inr (λ h. absurd (cc))

by_image_keep :
    (c : Option Container) (s : Scheme) (pp : ℕ) → s ≢ unset → (by_image c (s, pp)).0 ≡ s
unfolding by_image
by_image_keep none s pp h = refl
by_image_keep (some c) s pp h = fill_keep (get_scheme_port_by_image_name c.image_name) s pp h

named_keep : (r : Route) → r.scheme ≢ unset → (named r).0 ≡ r.scheme
unfolding named
named_keep r h = named_from _ refl
  where
    image : (by_image r.container (r.scheme, r.proxy)).0 ≡ r.scheme
    image = by_image_keep r.container r.scheme r.proxy h

    named_from :
        (sp : Scheme × ℕ)
        → sp ≡ by_image r.container (r.scheme, r.proxy)
        → (fill (get_scheme_port_by_alias r.alias) sp).0 ≡ r.scheme
    named_from (s, p) e =
        let same : s ≡ r.scheme = ap (λ (x : Scheme × ℕ). x.0) e ∙ image in
        fill_keep (get_scheme_port_by_alias r.alias) s p (λ u. h (sym same ∙ u)) ∙ same

finalize_scheme_keep : (r : Route) → r.scheme ≢ unset → (finalize r).scheme ≡ r.scheme
unfolding finalize
finalize_scheme_keep r h = guess_scheme_keep r.listening _ _ (λ e. h (sym same ∙ e)) ∙ same
  where
    set : (named r).0 ≢ unset
    set = λ e. h (sym (named_keep r h) ∙ e)

    same : udp_scheme r.container (wanted_port r) (named r).0 ≡ r.scheme
    same = udp_scheme_keep r.container (wanted_port r) (named r).0 set ∙ named_keep r h

wanted_port_own :
    (r : Route)
    → r.container ≡ none
    → (0 < wanted_port r) × ((r.proxy ≡ 0) ⊎ (wanted_port r ≡ r.proxy))
unfolding wanted_port named by_image
wanted_port_own r e = rw e (own (fill (get_scheme_port_by_alias r.alias) (r.scheme, r.proxy)) refl)
  where
    own :
        (sp : Scheme × ℕ)
        → sp ≡ fill (get_scheme_port_by_alias r.alias) (r.scheme, r.proxy)
        → (0 < (if sp.1 == 0 then default_port none sp.0 else sp.1))
          × ((r.proxy ≡ 0) ⊎ ((if sp.1 == 0 then default_port none sp.0 else sp.1) ≡ r.proxy))
    own (s, p) q = ground (
      arith,
      default_port_pos s,
      fill_port (get_scheme_port_by_alias r.alias) r.scheme r.proxy,
      ap (λ (x : Scheme × ℕ). x.1) q,
    )

own_port : (c : Option Container) (host : String) (pp : ℕ) → c ≡ none → swap_port c host pp ≡ pp
unfolding swap_port
own_port c host pp e = rw e refl

-- A route that is finalized has a scheme, the one it had if it had one, and the listening port it had.
-- Without a container it also has a proxy port, the one it had if that was not zero.
pub finalize_lem :
    (r : Route)
    → ((finalize r).scheme ≢ unset)
      × ((r.scheme ≡ unset) ⊎ ((finalize r).scheme ≡ r.scheme))
      × ((finalize r).listening ≡ r.listening)
      × (((c : Container) × (r.container ≡ some c))
          ⊎ ((0 < (finalize r).proxy) × ((r.proxy ≡ 0) ⊎ ((finalize r).proxy ≡ r.proxy))))
unfolding finalize
finalize_lem r = (
  guess_scheme-ne-unset r.listening _ _,
  elim (Scheme-cases r.scheme) [ inl e ↦ inl e | inr h ↦ inr (finalize_scheme_keep r h) ],
  refl,
  elim (Option-cases r.container) [
    | inr a ↦ inl a
    | inl e ↦ inr (
        rw (own_port r.container (host_of r.container r.host) (wanted_port r) e)
          (wanted_port_own r e))
  ],
)

-- The mapping has the key.
abbrev pub Has : ℕ → PortMapping → Type 0
Has k [] = ⊥
Has k ((j, p) ∷ m) = (k ≡ j) ⊎ Has k m

lookup-Has : (k : ℕ) (p : PortSummary) (m : PortMapping) → lookup k m ≡ some p → Has k m
unfolding lookup
lookup-Has k p [] e = absurd (cc)
lookup-Has k p ((j, q) ∷ m) e = ground (arith, lookup-Has k p m)

lowest-Has :
    (cmp res : ℕ) (m : PortMapping)
    → Has (lowest cmp res m) m ⊎ ((lowest cmp res m ≡ res) × All (λ e. cmp ≤ e.1.private_port) m)
unfolding lowest
lowest-Has cmp res [] = inr (refl, tt)
lowest-Has cmp res ((port, v) ∷ m) = elim (Bool-cases (ltb v.private_port cmp)) [
  | inl q ↦
      subst Found (sym (lower q))
        (elim (lowest-Has v.private_port port m) [ inl h ↦ inl (inr h) | inr h ↦ inl (inl h.0) ])
  | inr q ↦ subst Found (sym (same q)) (elim (lowest-Has cmp res m) [
    | inl h ↦ inl (inr h)
    | inr h ↦ inr (h.0, (ground (arith, q), h.1))
  ])
]
  where
    Found : ℕ → Type 0
    Found n =
        Has n ((port, v) ∷ m) ⊎ ((n ≡ res) × All (λ e. cmp ≤ e.1.private_port) ((port, v) ∷ m))

    lower :
        ltb v.private_port cmp ≡ true
        → lowest cmp res ((port, v) ∷ m) ≡ lowest v.private_port port m
    lower q = rw q refl

    same : ltb v.private_port cmp ≡ false → lowest cmp res ((port, v) ∷ m) ≡ lowest cmp res m
    same q = rw q refl

first_preferred-Has :
    (ps : List ℕ) (p : ℕ) (m : PortMapping) → first_preferred ps m ≡ some p → Has p m
unfolding first_preferred or_else
first_preferred-Has [] p m e = absurd (cc)
first_preferred-Has (q ∷ ps) p m e =
    either (lookup q m) refl (first_preferred ps m) (first_preferred-Has ps p m) e
  where
    either :
        (o : Option PortSummary)
        → lookup q m ≡ o
        → (rest : Option ℕ) → (rest ≡ some p → Has p m)
        → or_else q o rest ≡ some p
        → Has p m
    either none l rest ih e = ih e
    either (some x) l rest ih e = subst (λ y. Has y m) (some-injective e) (lookup-Has q x m l)

-- The preferred port is one of the mapping, where there is one and no private port is the last one.
pub preferred_port-Has :
    (e : ℕ × PortSummary) (m : PortMapping)
    → All (λ x. x.1.private_port < 65535) (e ∷ m)
    → Has (preferred_port (e ∷ m)) (e ∷ m)
unfolding preferred_port or_lowest
preferred_port-Has e m h = either (first_preferred preferred_port_order (e ∷ m)) refl
  where
    either :
        (o : Option ℕ)
        → first_preferred preferred_port_order (e ∷ m) ≡ o
        → Has (or_lowest o (e ∷ m)) (e ∷ m)
    either (some p) l = first_preferred-Has preferred_port_order p (e ∷ m) l
    either none l = elim (lowest-Has 65535 0 (e ∷ m)) [
      | inl q ↦ q
      | inr q ↦ absurd (omega (arith, h.0, q.1.0))
    ]
