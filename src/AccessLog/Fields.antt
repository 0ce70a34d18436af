-- ===== src/AccessLog/Fields.antt =====
-- internal/logging/accesslog/fields.go: which headers, query values and cookies a log shows. A map is
-- the list of its entries in the order of an iteration; an iterator is the list of what it yields to
-- a consumer that does not stop it.
pub mod Shown
use godoxy.Prelude.{Bool, true, false, ◌&&◌, Option, none, some, List, [], ◌∷◌, if◌then◌else◌}
use godoxy.Prelude.Bytes.{Bytes, codes, bytes_eq}

-- A mode that is none of the three is the empty default of a configuration that names none.
pub data FieldMode : Type 0 where
  keep drop redact unset : FieldMode

pub record FieldConfig : Type 0 where
  pub default : FieldMode
  pub config : List (Bytes × FieldMode)

abbrev pub redacted_value : Bytes
redacted_value = codes "REDACTED"

unfoldable pub mode_in : List (Bytes × FieldMode) → FieldMode → Bytes → FieldMode
mode_in [] default k = default
mode_in ((k', m) ∷ config) default k = if bytes_eq k' k then m else mode_in config default k

unfoldable pub mode_of : FieldConfig → Bytes → FieldMode
unfolding mode_in
mode_of cfg k = mode_in cfg.config cfg.default k

module _ {V : Type 0} (redacted : V) where
  -- One round of the loop of an iterator with a configuration.
  unfoldable pub yield_as : FieldMode → Bytes → V → List (Bytes × V) → List (Bytes × V)
  yield_as keep k v rest = (k, v) ∷ rest
  yield_as redact k v rest = (k, redacted) ∷ rest
  yield_as drop k v rest = rest
  yield_as unset k v rest = rest

  unfoldable pub iter_with_config : FieldConfig → List (Bytes × V) → List (Bytes × V)
  unfolding yield_as mode_of
  iter_with_config cfg [] = []
  iter_with_config cfg ((k, v) ∷ m) = yield_as (mode_of cfg k) k v (iter_with_config cfg m)

  unfoldable pub iter_redacted : List (Bytes × V) → List (Bytes × V)
  iter_redacted [] = []
  iter_redacted ((k, v) ∷ m) = (k, redacted) ∷ iter_redacted m

  -- The choice of the iterator over a map: without entries of its own, a configuration has one
  -- mode for all keys.
  unfoldable pub map_iter : FieldConfig → List (Bytes × V) → List (Bytes × V)
  unfolding iter_with_config iter_redacted
  map_iter cfg m = elim cfg.config [
    | [] ↦ elim cfg.default [
      | keep ↦ m
      | drop ↦ []
      | redact ↦ iter_redacted m
      | unset ↦ iter_with_config cfg m
    ]
    | c ∷ config ↦ iter_with_config cfg m
  ]

-- The cookies: a slice of values with a key and a text.
module _ {V : Type 0} (get_key get_val : V → Bytes) where
  unfoldable pub iter_values : FieldConfig → List V → List (Bytes × Bytes)
  unfolding yield_as mode_of
  iter_values cfg [] = []
  iter_values cfg (v ∷ s) =
      yield_as redacted_value (mode_of cfg (get_key v)) (get_key v) (get_val v) (iter_values cfg s)

  unfoldable pub iter_slice : FieldConfig → List V → List (Bytes × Bytes)
  unfolding iter_values
  iter_slice cfg s = elim cfg.config [
    | [] ↦ elim cfg.default [ drop ↦ [] | _ ↦ iter_values cfg s ]
    | c ∷ config ↦ iter_values cfg s
  ]
