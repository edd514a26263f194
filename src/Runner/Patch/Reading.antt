-- ===== src/Runner/Patch/Reading.antt =====
-- What a patched scenario reads as.
use rs_social_simulation_too.Prelude.{◌≡◌, ◌≢◌, refl, sym, ◌∙◌, ap, subst, ◌⊎◌, inl, inr}
use rs_social_simulation_too.Prelude.{Option-cases}
use rs_social_simulation_too.Prelude.{Option, none, some, List, [], ◌∷◌}
use rs_social_simulation_too.Runner.{Str}
use rs_social_simulation_too.Runner.Patch.{Toml}
use rs_social_simulation_too.Runner.Patch.{
  write_existing, write_at, write_slot, as_table, put_back, within, table_of,
}
use rs_social_simulation_too.Runner.Patch.{patch_path}
use rs_social_simulation_too.Runner.Patch.Replacing.{
  Replaces, Replaces-kind, Replaces-write_existing, write_existing-Replaces,
}

module _ (m : Toml) where
  open m use {
    Float, Value, Table, kind, kind_integer, kind_float, kind_table, is_i64, of_integer, of_float,
  }
  open m use {of_table, get, insert, get_inserted, get_others}

  -- The value at a path.
  abbrev pub lookup : Table → Str → List Str → Option Value
  lookup t k [] = get t k
  lookup t k (next ∷ rest) = within m (as_table m (get t k)) (λ inner. lookup inner next rest)

  -- Two paths of which neither is the beginning of the other.
  abbrev pub Apart : List Str → List Str → Type 0
  Apart (a ∷ xs) (b ∷ ys) = (b ≢ a) ⊎ ((b ≡ a) × Apart xs ys)
  Apart xs ys = ⊥

  -- What a patch along a path leaves.
  abbrev pub Patches : Table → Str → List Str → Float → Table → Type 0
  Patches t k rest x t' =
      ((slot : Value) × (v : Value) × (lookup t k rest ≡ some slot)
        × Replaces m x slot v
        × (kind v ≡ kind slot)
        × (lookup t' k rest ≡ some v))
      × ((j : Str) (rest' : List Str)
          → Apart (k ∷ rest) (j ∷ rest')
          → lookup t' j rest' ≡ lookup t j rest')

  others_keep :
      (t : Table) (k j : Str) (v : Value) (rest : List Str)
      → j ≢ k
      → lookup (insert t k v) j rest ≡ lookup t j rest
  others_keep t k j v [] h = get_others t k j v h
  others_keep t k j v (next ∷ rest) h =
      ap (λ (o : Option Value). within m (as_table m o) (λ inner. lookup inner next rest))
        (get_others t k j v h)

  patch_leaf-Patches :
      (t : Table) (k : Str) (x : Float) (t' : Table)
      → patch_path m t k [] x ≡ some t'
      → Patches t k [] x t'
  unfolding patch_path
  patch_leaf-Patches t k x t' h = elim (Option-cases (get t k)) [
    | inl e ↦ absurd (impossible (sym (ap (λ (o : Option Value). write_slot m t k o x) e) ∙ h))
    | inr (slot, e) ↦ elim (Option-cases (write_existing m slot x)) [
      | inl f ↦ absurd (
          impossible
            (sym (ap (λ (o : Option Value). write_slot m t k o x) e ∙ ap (write_at m t k) f) ∙ h))
      | inr (v, f) ↦
          let same : insert t k v ≡ t' =
            injective (insert t k v) (
              sym (ap (λ (o : Option Value). write_slot m t k o x) e ∙ ap (write_at m t k) f)
              ∙ h) in
          subst (Patches t k [] x) same (
            (
              slot,
              v,
              e,
              write_existing-Replaces m slot v x f,
              Replaces-kind m x slot v (write_existing-Replaces m slot v x f),
              get_inserted t k v,
            ),
            λ j rest apart. elim apart [
              | inl differ ↦ others_keep t k j v rest differ
              | inr (same, below) ↦ absurd below
            ],
          )
    ]
  ]
    where
      impossible : none ≡ some t' → ⊥
      impossible h = cc

      injective : (u : Table) → some u ≡ some t' → u ≡ t'
      injective u h = cc

  -- A patch of an inner table is a patch of the table that holds it.
  inner-Patches :
      (t : Table) (k next : Str) (rest : List Str) (x : Float) (inner inner' : Table)
      → as_table m (get t k) ≡ some inner
      → Patches inner next rest x inner'
      → Patches t k (next ∷ rest) x (insert t k (of_table inner'))
  inner-Patches t k next rest x inner inner' e
        ((slot, v, at_path, written, same_kind, after), others) =
      (
        (
          slot,
          v,
          reached (as_table m (get t k)) inner e next rest ∙ at_path,
          written,
          same_kind,
          reached (as_table m (get t' k)) inner' again next rest ∙ after,
        ),
        λ j rest' apart. elim apart [
          | inl differ ↦ others_keep t k j (of_table inner') rest' differ
          | inr (same, apart) ↦
              subst (λ (i : Str). lookup t' i rest' ≡ lookup t i rest') (sym same)
                (elsewhere rest' apart)
        ],
      )
    where
      t' : Table
      t' = insert t k (of_table inner')

      again : as_table m (get t' k) ≡ some inner'
      again =
          ap (as_table m) (get_inserted t k (of_table inner')) ∙ ap (table_of m) (kind_table inner')

      reached :
          (found : Option Table) (i : Table)
          → found ≡ some i
          → (next : Str) (rest : List Str)
          → within m found (λ u. lookup u next rest) ≡ lookup i next rest
      reached found i e next rest =
          ap (λ (o : Option Table). within m o (λ u. lookup u next rest)) e

      elsewhere :
          (rest' : List Str) → Apart (next ∷ rest) rest' → lookup t' k rest' ≡ lookup t k rest'
      elsewhere [] apart = absurd apart
      elsewhere (j ∷ rest') apart =
          reached (as_table m (get t' k)) inner' again j rest'
          ∙ others j rest' apart
          ∙ sym (reached (as_table m (get t k)) inner e j rest')

  patch_path_left :
      (t : Table) (k : Str) (rest : List Str) (x : Float) (t' : Table)
      → patch_path m t k rest x ≡ some t'
      → Patches t k rest x t'
  unfolding patch_path
  patch_path_left t k [] x t' h = patch_leaf-Patches t k x t' h
  patch_path_left t k (next ∷ rest) x t' h =
      inside (as_table m (get t k)) refl (λ inner inner'. patch_path_left inner next rest x inner')
        h
    where
      impossible : none ≡ some t' → ⊥
      impossible h = cc

      injective : (u : Table) → some u ≡ some t' → u ≡ t'
      injective u h = cc

      inside :
          (found : Option Table)
          → as_table m (get t k) ≡ found
          → ((inner inner' : Table)
              → patch_path m inner next rest x ≡ some inner'
              → Patches inner next rest x inner')
          → within m found (λ inner. put_back m t k (patch_path m inner next rest x)) ≡ some t'
          → Patches t k (next ∷ rest) x t'
      inside none e smaller h = absurd (impossible h)
      inside (some inner) e smaller h = elim (Option-cases (patch_path m inner next rest x)) [
        | inl f ↦ absurd (impossible (sym (ap (put_back m t k) f) ∙ h))
        | inr (inner', f) ↦
            subst (Patches t k (next ∷ rest) x) (injective _ (sym (ap (put_back m t k) f) ∙ h))
              (inner-Patches t k next rest x inner inner' e (smaller inner inner' f))
      ]

  -- A path to a value that can be written over is patched.
  patch_path_succeeds :
      (t : Table) (k : Str) (rest : List Str) (x : Float) (slot v : Value)
      → lookup t k rest ≡ some slot
      → Replaces m x slot v
      → (t' : Table) × (patch_path m t k rest x ≡ some t')
  unfolding patch_path
  patch_path_succeeds t k [] x slot v e r = (
    insert t k v,
    ap (λ (o : Option Value). write_slot m t k o x) e
        ∙ ap (write_at m t k) (Replaces-write_existing m x slot v r),
  )
  patch_path_succeeds t k (next ∷ rest) x slot v e r = elim (Option-cases (as_table m (get t k))) [
    | inl nowhere ↦ absurd (
        impossible
          (sym (ap (λ (o : Option Table). within m o (λ u. lookup u next rest)) nowhere) ∙ e))
    | inr (inner, found) ↦
        let reached = ap (λ (o : Option Table). within m o (λ u. lookup u next rest)) found in
        let (inner', done) = patch_path_succeeds inner next rest x slot v (sym reached ∙ e) r in
        (
          insert t k (of_table inner'),
          ap (λ (o : Option Table). within m o (λ u. put_back m t k (patch_path m u next rest x)))
                found
              ∙ ap (put_back m t k) done,
        )
  ]
    where
      impossible : none ≡ some slot → ⊥
      impossible h = cc

  -- What a patch should give.
  pub data Patched (t : Table) (k : Str) (rest : List Str) (x : Float) : Option Table → Type 0 where
    patched : (t' : Table) → Patches t k rest x t' → Patched t k rest x (some t')
    refused :
        ((slot v : Value) → lookup t k rest ≡ some slot → ¬ Replaces m x slot v)
        → Patched t k rest x none

  -- A patch along a path fails only where the path does not lead to a value that can be written over: an integer,
  -- if the number is whole and in the range of `i64`, or a float. Else the path holds the number in its place, of
  -- the same kind; every path that does not run along it, in either direction, reads as before.
  pub patch_path-Patched :
      (t : Table) (k : Str) (rest : List Str) (x : Float)
      → Patched t k rest x (patch_path m t k rest x)
  patch_path-Patched t k rest x = elim (Option-cases (patch_path m t k rest x)) [
    | inl e ↦ subst (Patched t k rest x) (sym e) (
        refused (λ slot v found replaces.
          let (t', done) = patch_path_succeeds t k rest x slot v found replaces in cc))
    | inr (t', e) ↦
        subst (Patched t k rest x) (sym e) (patched t' (patch_path_left t k rest x t' e))
  ]
