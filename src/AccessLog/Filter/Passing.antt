-- ===== src/AccessLog/Filter/Passing.antt =====
-- internal/logging/accesslog: when a request passes the filters of a log.
use godoxy.Prelude.{
  ◌≡◌, ◌≢◌, ◌↔◌, ◌⊎◌, inl, inr, refl, arith, Bool, true, false, not, ◌&&◌, Option, some, List, [],
  ◌∷◌, Bool-cases,
}
use godoxy.Prelude.Bytes.{Bytes}
use godoxy.AccessLog.Filter.{
  LogFilter, Filters, Exchange, check_values, check_keep, status_fulfill, method_fulfill,
  header_fulfill, cidr_fulfill, should_log_request,
}

module _ {T : Type 0} (fulfill : T → Bool) where
  -- Some value is fulfilled.
  abbrev pub Some : List T → Type 0
  Some [] = ⊥
  Some (v ∷ vs) = (fulfill v ≡ true) ⊎ Some vs

  -- A filter lets an exchange pass if it has no value or one of them is fulfilled; a negative one,
  -- if it has values and none of them is.
  abbrev pub Passes : LogFilter T → Type 0
  Passes f =
      ((f.negative ≡ false) × ((f.values ≡ []) ⊎ Some f.values))
      ⊎ ((f.negative ≡ true) × (f.values ≢ []) × ¬ Some f.values)

  Some-cases : (vs : List T) → Some vs ⊎ ¬ Some vs
  Some-cases [] = inr (λ h. h)
  Some-cases (v ∷ vs) = ground (arith, Some-cases vs)

  check_values-Some : (n : Bool) (vs : List T) → Some vs → check_values fulfill n vs ≡ not n
  unfolding check_values
  check_values-Some n [] h = elim h [ ]
  check_values-Some n (v ∷ vs) h = ground (arith, check_values-Some n vs)

  check_values-none : (n : Bool) (vs : List T) → ¬ Some vs → check_values fulfill n vs ≡ n
  unfolding check_values
  check_values-none n [] h = refl
  check_values-none n (v ∷ vs) h = elim (Bool-cases (fulfill v)) [
    | inl e ↦ absurd (h (inl e))
    | inr e ↦ rw e (check_values-none n vs (λ s. h (inr s)))
  ]

  pub check_keep_iff : (f : LogFilter T) → (check_keep fulfill f ≡ true) ↔ Passes f
  unfolding check_keep
  check_keep_iff f = keeps f.negative f.values (Some-cases f.values)
    where
      keeps :
          (n : Bool) (vs : List T)
          → Some vs ⊎ ¬ Some vs
          → (check_keep fulfill (record { negative = n; values = vs }) ≡ true)
            ↔ Passes (record { negative = n; values = vs })
      keeps false [] d = (λ h. inl (refl, inl refl), λ h. refl)
      keeps true [] d = (λ h. absurd (cc), λ h. ground (arith, h))
      keeps false (v ∷ vs) (inl s) =
          (λ h. inl (refl, inr s), λ h. check_values-Some false (v ∷ vs) s)
      keeps true (v ∷ vs) (inl s) = (
        λ h. absurd (cc (check_values-Some true (v ∷ vs) s)),
        λ h. elim h [ inl a ↦ absurd (cc) | inr a ↦ absurd (a.2 s) ],
      )
      keeps false (v ∷ vs) (inr d) = (
        λ h. absurd (cc (check_values-none false (v ∷ vs) d)),
        λ h. elim h [
          | inl a ↦ elim a.1 [ inl e ↦ absurd (cc) | inr e ↦ absurd (d e) ]
          | inr a ↦ absurd (cc)
        ],
      )
      keeps true (v ∷ vs) (inr d) =
          (λ h. inr (refl, (λ e. absurd (cc)), d), λ h. check_values-none true (v ∷ vs) d)

and_iff :
    (a b c d : Bool)
    → ((a && (b && (c && d))) ≡ true) ↔ ((a ≡ true) × (b ≡ true) × (c ≡ true) × (d ≡ true))
and_iff a b c d = ground arith

module _ {Ip Net : Type 0} (parse_ip : Bytes → Option Ip) (contains : Net → Ip → Bool)
    (equal_fold : Bytes → Bytes → Bool) where
  -- A request is logged exactly when it passes the filters on the status code, the method, the
  -- headers and the client's network. The filter on the host is not asked.
  pub should_log_request_iff :
      (f : Filters Net) (x : Exchange)
      → (should_log_request parse_ip contains equal_fold (some f) x ≡ true) ↔ (
          Passes (status_fulfill x) f.status_codes
          × Passes (method_fulfill x) f.method
          × Passes (header_fulfill equal_fold x) f.headers
          × Passes (cidr_fulfill parse_ip contains x) f.cidr)
  unfolding should_log_request
  should_log_request_iff f x =
      let status = check_keep_iff (status_fulfill x) f.status_codes in
      let method = check_keep_iff (method_fulfill x) f.method in
      let headers = check_keep_iff (header_fulfill equal_fold x) f.headers in
      let cidr = check_keep_iff (cidr_fulfill parse_ip contains x) f.cidr in
      let parts =
        and_iff (check_keep (status_fulfill x) f.status_codes)
          (check_keep (method_fulfill x) f.method)
          (check_keep (header_fulfill equal_fold x) f.headers)
          (check_keep (cidr_fulfill parse_ip contains x) f.cidr) in
      (
        λ h. (let p = parts.0 h in (status.0 p.0, method.0 p.1, headers.0 p.2, cidr.0 p.3)),
        λ h. parts.1 (status.1 h.0, method.1 h.1, headers.1 h.2, cidr.1 h.3),
      )
