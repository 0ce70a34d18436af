-- ===== src/Middleware/RealIp.antt =====
-- internal/net/gphttp/middleware/real_ip.go: the client's address that a trusted proxy reports. The
-- functions of Go's net package, the canonical form of a header's name, and the name X-Real-IP are
-- arguments. A header is the list of its values.
use godoxy.Prelude.{
  ◌≢◌, ◌≡◌, refl, ap, ◌∙◌, ◌⊎◌, inl, inr, Bool, true, false, Option, none, some, List, [], ◌∷◌,
  ◌++◌, All, if◌then◌else◌, Bool-cases, sym,
}
use godoxy.Prelude.Bytes.{Bytes, bytes_eq, bytes_eq_refl}
use mathlib.Core.Path.{subst}

pub record Request : Type 0 where
  pub remote_addr : Bytes
  pub header : Bytes → List Bytes

set_header : Bytes → Bytes → (Bytes → List Bytes) → Bytes → List Bytes
set_header key v h k = if bytes_eq k key then v ∷ [] else h k

-- The last value of a list that is not empty.
last_value : Bytes → List Bytes → Bytes
last_value v [] = v
last_value v (w ∷ vs) = last_value w vs

pub record RealIpOpts (Net : Type 0) : Type 0 where
  pub header_name : Bytes
  pub from : List Net
  pub recursive : Bool

module _ {Ip Net : Type 0} (split_host_port : Bytes → Option Bytes) (parse_ip : Bytes → Ip)
    (contains : Net → Ip → Bool) (canonical : Bytes → Bytes) (x_real_ip : Bytes)
    (ri : RealIpOpts Net) where
  in_any : List Net → Ip → Bool
  in_any [] ip = false
  in_any (cidr ∷ cidrs) ip = let rest = in_any cidrs ip in if contains cidr ip then true else rest

  pub is_in_cidr_list : Bytes → Bool
  unfolding in_any
  is_in_cidr_list s = in_any ri.from (parse_ip s)

  -- The loop of the recursive search.
  last_non_trusted : Bytes → List Bytes → Bytes
  unfolding is_in_cidr_list
  last_non_trusted found [] = found
  last_non_trusted found (r ∷ rs) = last_non_trusted (if is_in_cidr_list r then found else r) rs

  chosen : List Bytes → Bytes
  unfolding last_value last_non_trusted
  chosen [] = []
  chosen (v ∷ vs) = if ri.recursive then last_non_trusted [] (v ∷ vs) else last_value v vs

  pub client_ip : Request → Bytes
  client_ip req = elim (split_host_port req.remote_addr) [
    | some host ↦ host
    | none ↦ req.remote_addr
  ]

  or_raw : List Bytes → List Bytes → List Bytes
  or_raw [] raw = raw
  or_raw (v ∷ vs) raw = v ∷ vs

  pub real_ips : Request → List Bytes
  unfolding or_raw
  real_ips req = or_raw (req.header (canonical ri.header_name)) (req.header ri.header_name)

  replace : Bytes → Request → Request
  unfolding set_header
  replace [] req = req
  replace (c ∷ ip) req = record {
    remote_addr = c ∷ ip;
    header =
        set_header (canonical x_real_ip) (c ∷ ip)
          (set_header (canonical ri.header_name) (c ∷ ip) req.header);
  }

  pub set_real_ip : Request → Request
  unfolding replace chosen client_ip real_ips
  set_real_ip req =
      if is_in_cidr_list (client_ip req) then replace (chosen (real_ips req)) req else req

  -- The address is the last of the values that is not that of a trusted proxy.
  abbrev LastUntrusted : Bytes → List Bytes → Type 0
  LastUntrusted ip vs =
      (before after : List Bytes) × (vs ≡ before ++ ip ∷ after)
      × (is_in_cidr_list ip ≡ false)
      × All (λ v. is_in_cidr_list v ≡ true) after

  abbrev Chosen : Bytes → List Bytes → Bytes → Type 0
  Chosen found vs ip = ((ip ≡ found) × All (λ v. is_in_cidr_list v ≡ true) vs) ⊎ LastUntrusted ip vs

  trusted-Chosen :
      (found r : Bytes) (rs : List Bytes) (ip : Bytes)
      → is_in_cidr_list r ≡ true
      → Chosen found rs ip
      → Chosen found (r ∷ rs) ip
  trusted-Chosen found r rs ip e (inl (q, a)) = inl (q, (e, a))
  trusted-Chosen found r rs ip e (inr (b, a, q, u, t)) = inr (r ∷ b, a, ap (◌∷◌ r) q, u, t)

  untrusted-Chosen :
      (found r : Bytes) (rs : List Bytes) (ip : Bytes)
      → is_in_cidr_list r ≡ false
      → Chosen r rs ip
      → Chosen found (r ∷ rs) ip
  untrusted-Chosen found r rs ip e (inl (q, a)) =
      inr ([], rs, ap (λ (x : Bytes). x ∷ rs) (sym q), ap is_in_cidr_list q ∙ e, a)
  untrusted-Chosen found r rs ip e (inr (b, a, q, u, t)) = inr (r ∷ b, a, ap (◌∷◌ r) q, u, t)

  last_non_trusted-cons :
      (found r : Bytes) (rs : List Bytes)
      → last_non_trusted found (r ∷ rs)
        ≡ last_non_trusted (if is_in_cidr_list r then found else r) rs
  unfolding last_non_trusted
  last_non_trusted-cons found r rs = refl

  last_non_trusted-Chosen :
      (found : Bytes) (vs : List Bytes) → Chosen found vs (last_non_trusted found vs)
  unfolding last_non_trusted
  last_non_trusted-Chosen found [] = inl (refl, tt)
  last_non_trusted-Chosen found (r ∷ rs) = elim (Bool-cases (is_in_cidr_list r)) [
    | inl e ↦
        subst (Chosen found (r ∷ rs))
          (sym (
            last_non_trusted-cons found r rs
            ∙ ap (λ (b : Bool). last_non_trusted (if b then found else r) rs) e))
          (trusted-Chosen found r rs _ e (last_non_trusted-Chosen found rs))
    | inr e ↦
        subst (Chosen found (r ∷ rs))
          (sym (
            last_non_trusted-cons found r rs
            ∙ ap (λ (b : Bool). last_non_trusted (if b then found else r) rs) e))
          (untrusted-Chosen found r rs _ e (last_non_trusted-Chosen r rs))
  ]

  -- What a trusted client's request becomes.
  abbrev pub Reported : List Bytes → Request → Request → Type 0
  Reported vs req req' =
      ((req' ≡ req) × (All (λ v. is_in_cidr_list v ≡ true) vs ⊎ LastUntrusted [] vs))
      ⊎ ((req'.remote_addr ≢ [])
          × LastUntrusted req'.remote_addr vs
          × (req'.header (canonical ri.header_name) ≡ req'.remote_addr ∷ [])
          × (req'.header (canonical x_real_ip) ≡ req'.remote_addr ∷ []))

  chosen-Chosen : ri.recursive ≡ true → (vs : List Bytes) → Chosen [] vs (chosen vs)
  unfolding chosen
  chosen-Chosen r [] = inl (refl, tt)
  chosen-Chosen r (v ∷ vs) =
      subst (Chosen [] (v ∷ vs))
        (sym (ap (λ (b : Bool). if b then last_non_trusted [] (v ∷ vs) else last_value v vs) r))
        (last_non_trusted-Chosen [] (v ∷ vs))

  replace-Reported :
      (vs : List Bytes) (req : Request) (ip : Bytes)
      → Chosen [] vs ip
      → Reported vs req (replace ip req)
  unfolding replace set_header
  replace-Reported vs req [] (inl (q, a)) = inl (refl, inl a)
  replace-Reported vs req [] (inr u) = inl (refl, inr u)
  replace-Reported vs req (c ∷ ip) (inl (q, a)) = absurd (cc q)
  replace-Reported vs req (c ∷ ip) (inr u) =
      inr (λ q. absurd (cc q), u, both, rw (bytes_eq_refl (canonical x_real_ip)) refl)
    where
      both : (replace (c ∷ ip) req).header (canonical ri.header_name) ≡ (c ∷ ip) ∷ []
      both = elim (Bool-cases (bytes_eq (canonical ri.header_name) (canonical x_real_ip))) [
        | inl e ↦ rw e refl
        | inr e ↦ rw (e, bytes_eq_refl (canonical ri.header_name)) refl
      ]

  -- With the recursive search, a request of a client that is not trusted stays as it is. A request of
  -- a trusted one stays as it is too when all the values of the header are trusted, or the last that
  -- is not trusted is empty. Else the last value that is not trusted, which is not empty, becomes its
  -- address, and the only value of the configured header and of X-Real-IP.
  pub set_real_ip_lem :
      ri.recursive ≡ true
      → (req : Request)
      → ((is_in_cidr_list (client_ip req) ≡ false) × (set_real_ip req ≡ req))
        ⊎ ((is_in_cidr_list (client_ip req) ≡ true) × Reported (real_ips req) req (set_real_ip req))
  unfolding set_real_ip
  set_real_ip_lem r req = elim (Bool-cases (is_in_cidr_list (client_ip req))) [
    | inl e ↦ inr (
      e,
      subst (Reported (real_ips req) req)
          (sym (ap (λ (b : Bool). if b then replace (chosen (real_ips req)) req else req) e))
          (replace-Reported _ req _ (chosen-Chosen r (real_ips req))),
    )
    | inr e ↦ inl (e, rw e refl)
  ]
