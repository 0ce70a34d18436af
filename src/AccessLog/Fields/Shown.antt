-- ===== src/AccessLog/Fields/Shown.antt =====
-- internal/logging/accesslog: what a log shows of a key.
use godoxy.Prelude.{◌≡◌, ◌≢◌, ◌↔◌, ◌⊎◌, inl, inr, refl, sym, ap, ◌∙◌, List, [], ◌∷◌, In}
use godoxy.Prelude.Bytes.{Bytes}
use godoxy.AccessLog.Fields.{
  FieldMode, FieldConfig, keep, drop, redact, unset, mode_of, yield_as, iter_with_config,
  iter_redacted, map_iter,
}

module _ {V : Type 0} (redacted : V) where
  -- What a log may show: an entry of a key that is kept, or a redacted one of a key that is redacted.
  abbrev pub MayShow : FieldConfig → List (Bytes × V) → Bytes × V → Type 0
  MayShow cfg m (k, v) =
      ((mode_of cfg k ≡ keep) × In (k, v) m)
      ⊎ ((mode_of cfg k ≡ redact) × (v ≡ redacted) × ((w : V) × In (k, w) m))

  kept :
      (m : List (Bytes × V))
      → m ≡ iter_with_config redacted (record { default = keep; config = [] }) m
  unfolding iter_with_config
  kept [] = refl
  kept (x ∷ m) = ap (◌∷◌ x) (kept m)

  dropped :
      (m : List (Bytes × V))
      → [] ≡ iter_with_config redacted (record { default = drop; config = [] }) m
  unfolding iter_with_config
  dropped [] = refl
  dropped (x ∷ m) = dropped m

  all_redacted :
      (m : List (Bytes × V))
      → iter_redacted redacted m
        ≡ iter_with_config redacted (record { default = redact; config = [] }) m
  unfolding iter_with_config iter_redacted
  all_redacted [] = refl
  all_redacted (x ∷ m) = ap (◌∷◌ (x.0, redacted)) (all_redacted m)

  -- The choice of the iterator changes nothing.
  map_iter-iter_with_config :
      (cfg : FieldConfig) (m : List (Bytes × V))
      → map_iter redacted cfg m ≡ iter_with_config redacted cfg m
  unfolding map_iter
  map_iter-iter_with_config cfg m = choice cfg.default cfg.config
    where
      choice :
          (d : FieldMode) (c : List (Bytes × FieldMode))
          → map_iter redacted (record { default = d; config = c }) m
            ≡ iter_with_config redacted (record { default = d; config = c }) m
      choice keep [] = kept m
      choice drop [] = dropped m
      choice redact [] = all_redacted m
      choice unset [] = refl
      choice d (x ∷ c) = refl

  module _ (cfg : FieldConfig) (k : Bytes) (v : V) where
    later :
        (x : Bytes × V) (m : List (Bytes × V)) → MayShow cfg m (k, v) → MayShow cfg (x ∷ m) (k, v)
    later x m (inl (a, i)) = inl (a, inr i)
    later x m (inr (a, b, (w, i))) = inr (a, b, (w, inr i))

    mode_at :
        (k' : Bytes) (v' w : V)
        → ◌≡◌ {A = Bytes × V} (k, w) (k', v')
        → mode_of cfg k ≡ mode_of cfg k'
    mode_at k' v' w p = ap (λ (q : Bytes × V). mode_of cfg q.0) p

    passed :
        (k' : Bytes) (v' : V) (m : List (Bytes × V)) (d : FieldMode)
        → mode_of cfg k' ≡ d
        → d ≢ keep
        → d ≢ redact
        → MayShow cfg ((k', v') ∷ m) (k, v)
        → MayShow cfg m (k, v)
    passed k' v' m d e nk nr (inl (a, inl p)) = absurd (nk (sym e ∙ sym (mode_at k' v' v p) ∙ a))
    passed k' v' m d e nk nr (inl (a, inr i)) = inl (a, i)
    passed k' v' m d e nk nr (inr (a, b, (w, inl p))) =
        absurd (nr (sym e ∙ sym (mode_at k' v' w p) ∙ a))
    passed k' v' m d e nk nr (inr (a, b, (w, inr i))) = inr (a, b, (w, i))

    shown :
        (d : FieldMode) (k' : Bytes) (v' : V) (m rest : List (Bytes × V))
        → mode_of cfg k' ≡ d
        → (In (k, v) rest ↔ MayShow cfg m (k, v))
        → In (k, v) (yield_as redacted d k' v' rest) ↔ MayShow cfg ((k', v') ∷ m) (k, v)
    unfolding yield_as
    shown keep k' v' m rest e ih = (
      λ h. elim h [
        | inl p ↦ inl (ap (λ (q : Bytes × V). mode_of cfg q.0) p ∙ e, inl p)
        | inr i ↦ later (k', v') m (ih.0 i)
      ],
      λ h. elim h [
        | inl (a, i) ↦ elim i [ inl p ↦ inl p | inr j ↦ inr (ih.1 (inl (a, j))) ]
        | inr (a, b, (w, i)) ↦ elim i [
          | inl p ↦ absurd (cc (mode_at k' v' w p, e))
          | inr j ↦ inr (ih.1 (inr (a, b, (w, j))))
        ]
      ],
    )
    shown redact k' v' m rest e ih = (
      λ h. elim h [
        | inl p ↦ inr (
          ap (λ (q : Bytes × V). mode_of cfg q.0) p ∙ e,
          ap (λ (q : Bytes × V). q.1) p,
          (v', inl (ap (λ (q : Bytes × V). (q.0, v')) p)),
        )
        | inr i ↦ later (k', v') m (ih.0 i)
      ],
      λ h. elim h [
        | inl (a, i) ↦ elim i [
          | inl p ↦ absurd (cc (mode_at k' v' v p, e))
          | inr j ↦ inr (ih.1 (inl (a, j)))
        ]
        | inr (a, b, (w, i)) ↦ elim i [
          | inl p ↦ inl (λ j. ((p j).0, b j))
          | inr j ↦ inr (ih.1 (inr (a, b, (w, j))))
        ]
      ],
    )
    shown drop k' v' m rest e ih = (
      λ h. later (k', v') m (ih.0 h),
      λ h. ih.1 (passed k' v' m drop e (λ q. absurd (cc)) (λ q. absurd (cc)) h),
    )
    shown unset k' v' m rest e ih = (
      λ h. later (k', v') m (ih.0 h),
      λ h. ih.1 (passed k' v' m unset e (λ q. absurd (cc)) (λ q. absurd (cc)) h),
    )

    iter_with_config_iff :
        (m : List (Bytes × V)) → In (k, v) (iter_with_config redacted cfg m) ↔ MayShow cfg m (k, v)
    unfolding iter_with_config
    iter_with_config_iff [] = (λ h. elim h [ ], λ h. elim h [ inl a ↦ a.1 | inr a ↦ a.2.1 ])
    iter_with_config_iff ((k', v') ∷ m) =
        shown (mode_of cfg k') k' v' m (iter_with_config redacted cfg m) refl
          (iter_with_config_iff m)

    -- Whichever iterator is chosen, a log shows an entry exactly when its key is kept and the entry
    -- is one of the map, or its key is redacted, stands in the map, and the value shown is the
    -- redacted one. A key that is dropped or has no mode is not shown.
    pub map_iter_iff :
        (m : List (Bytes × V)) → In (k, v) (map_iter redacted cfg m) ↔ MayShow cfg m (k, v)
    map_iter_iff m = rw (map_iter-iter_with_config cfg m) (iter_with_config_iff m)
