-- ===== src/Runner/Patch/Replacing.antt =====
-- What `write_existing` puts in the place of a value.
use rs_social_simulation_too.Prelude.{true, ◌≡◌, refl, sym, ◌∙◌, ap, subst, inl, inr}
use rs_social_simulation_too.Prelude.{if_true, if_false, Bool-cases, none, some}
use rs_social_simulation_too.Runner.Patch.{
  Toml, Kind, integer, float, table, other, write_kind, write_existing,
}

module _ (m : Toml) where
  open m use {Float, Value, Table, kind, kind_integer, kind_float, is_i64, of_integer, of_float}

  -- The value written in place of another: an integer stays one, where the number written is a whole number
  -- in the range of `i64`, and a float stays one. Nothing else is written over.
  pub data Replaces (x : Float) (slot : Value) : Value → Type 0 where
    as_integer : kind slot ≡ integer → is_i64 x ≡ true → Replaces x slot (of_integer x)
    as_float : kind slot ≡ float → Replaces x slot (of_float x)

  pub Replaces-kind : (x : Float) (slot v : Value) → Replaces x slot v → kind v ≡ kind slot
  Replaces-kind x slot v (as_integer e f) = kind_integer x ∙ sym e
  Replaces-kind x slot v (as_float e) = kind_float x ∙ sym e

  pub Replaces-write_existing :
      (x : Float) (slot v : Value) → Replaces x slot v → write_existing m slot x ≡ some v
  unfolding write_existing
  Replaces-write_existing x slot v (as_integer e f) =
      ap (λ (k : Kind Table). write_kind m k x) e ∙ if_true _ _ f
  Replaces-write_existing x slot v (as_float e) = ap (λ (k : Kind Table). write_kind m k x) e

  pub write_existing-Replaces :
      (slot v : Value) (x : Float) → write_existing m slot x ≡ some v → Replaces x slot v
  unfolding write_existing
  write_existing-Replaces slot v x h = by_kind (kind slot) refl h
    where
      injective : (u : Value) → some u ≡ some v → u ≡ v
      injective u h = cc

      impossible : none ≡ some v → ⊥
      impossible h = cc

      by_kind : (k : Kind Table) → kind slot ≡ k → write_kind m k x ≡ some v → Replaces x slot v
      by_kind integer at_slot h = elim (Bool-cases (is_i64 x)) [
        | inl e ↦
            subst (Replaces x slot) (injective _ (sym (if_true _ _ e) ∙ h)) (as_integer at_slot e)
        | inr e ↦ absurd (impossible (sym (if_false _ _ e) ∙ h))
      ]
      by_kind float at_slot h = subst (Replaces x slot) (injective _ h) (as_float at_slot)
      by_kind (table t) at_slot h = absurd (impossible h)
      by_kind other at_slot h = absurd (impossible h)
