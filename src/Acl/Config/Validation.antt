-- ===== src/Acl/Config/Validation.antt =====
-- internal/acl/config.go: the configurations that `Validate` lets through.
use text.Mathlib.Text.{◌==◌ as str_eq}
use godoxy.Prelude.{◌≡◌, ◌≢◌, ◌⊎◌, Bool, true, false, ◌||◌, none, [], arith, Bool-cases, inl, inr}
use godoxy.Prelude.Int.{pos, ltb_ℤ}
use godoxy.Prelude.Bytes.{Bytes}
use godoxy.Acl.Config.{Config, Settings, ConfigError, valid, invalid, validate, validate_with}

invalid-ne-valid : {e : ConfigError} {c : Config} → invalid e ≡ valid c → ⊥
invalid-ne-valid h = cc

valid-injective : {c d : Config} → valid c ≡ valid d → c ≡ d
valid-injective h = cc

validate_with-valid :
    (b : Bool) (s : Settings) (c : Config)
    → validate_with b s ≡ valid c
    → (c.default_allow ≡ false → (c.allow_local ≡ true) ⊎ (c.allow ≢ []))
      × ((k : Bytes) → c.ip_cache k ≡ none)
      × (ltb_ℤ (pos 0) c.notify_interval ≡ true)
unfolding validate_with
validate_with-valid b s c h = (λ e. ground arith, λ k. ground arith, ground arith)

-- A configuration that passes `Validate` and denies by default has an allow rule or lets local
-- addresses in, it starts with an empty cache, and it notifies at a positive interval.
pub validate-valid :
    (s : Settings) (c : Config)
    → validate s ≡ valid c
    → (c.default_allow ≡ false → (c.allow_local ≡ true) ⊎ (c.allow ≢ []))
      × ((k : Bytes) → c.ip_cache k ≡ none)
      × (ltb_ℤ (pos 0) c.notify_interval ≡ true)
unfolding validate
validate-valid s c h = elim (Bool-cases (str_eq s.default "" || str_eq s.default "allow")) [
  | inl e ↦ validate_with-valid true s c (rw e at h)
  | inr e ↦ elim (Bool-cases (str_eq s.default "deny")) [
    | inl k ↦ validate_with-valid false s c (rw (e, k) at h)
    | inr k ↦ absurd (invalid-ne-valid (rw (e, k) at h))
  ]
]
