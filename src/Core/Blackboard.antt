-- ===== src/Core/Blackboard.antt =====
-- `Blackboard` of crates/socsim-core/src/lib.rs: a map from names to values of any type. The map is
-- a list of entries. `Any` is the type of boxed values, with the test that
-- `downcast_ref` makes given where a value is read.
use Prim.Native.String.{String}
use text.Mathlib.Text.{◌==◌}
use text.Mathlib.TextEquality.{eq_iff}
use rs_social_simulation_too.Prelude.{◌≡◌, refl, Option, none, some, List, [], ◌∷◌, arith}
use rs_social_simulation_too.Prelude.{if◌then◌else◌, subst, ap, ◌∙◌, ◌≢◌, false}
use mathlib.Core.Path.{subst_refl}
use mathlib.Core.HLevel.{hedberg}
use text.Mathlib.TextPositions.{eq_refl}

pub record Blackboard (Any : Type 0) : Type 0 where
  pub entries : List (String × Any)

module _ {Any : Type 0} where
  abbrev pub new : Blackboard Any
  new = record { entries = [] }

  unfoldable pub find : String → List (String × Any) → Option Any
  find k [] = none
  find k ((j, v) ∷ m) = if j == k then some v else find k m

  -- `HashMap::insert`: the value of a present key is replaced.
  unfoldable pub put : String → Any → List (String × Any) → List (String × Any)
  put k v [] = (k, v) ∷ []
  put k v ((j, w) ∷ m) = if j == k then (k, v) ∷ m else (j, w) ∷ put k v m

  abbrev pub clear : Blackboard Any → Blackboard Any
  clear b = new

-- `downcast_ref::<T>()` of a boxed value, for a type `T` with a code: the type of a value is its
-- code, and a value of another type is not read.
pub record Types : Type 1 where
  pub Code : Type 0
  pub El : Code → Type 0
  pub same : Discrete Code

module _ (types : Types) where
  open types use {Code, El, same}

  -- `Box<dyn Any>`.
  abbrev pub Boxed : Type 0
  Boxed = (c : Code) × El c

  abbrev cast : (c : Code) (b : Boxed) → Dec (b.0 ≡ c) → Option (El c)
  cast c b (yes e) = some (subst El e b.1)
  cast c b (no _) = none

  unfoldable pub downcast : (c : Code) → Option Boxed → Option (El c)
  downcast c none = none
  downcast c (some b) = cast c b (same b.0 c)

  unfoldable pub insert : (c : Code) → String → El c → Blackboard Boxed → Blackboard Boxed
  unfolding put
  insert c key value b = record { entries = put key (c, value) b.entries }

  -- `get` and `get_mut` find the same value.
  unfoldable pub get : (c : Code) → String → Blackboard Boxed → Option (El c)
  unfolding find downcast
  get c key b = downcast c (find key b.entries)

  find-put :
      (k j : String) (v : Boxed) (m : List (String × Boxed))
      → find j (put k v m) ≡ (if k == j then some v else find j m)
  unfolding find put
  find-put k j v [] = refl
  find-put k j v ((i, w) ∷ m) = ground (arith, eq_iff k j, eq_iff i k, eq_iff i j, find-put k j v m)

  cast_self : (c : Code) (v : El c) (d : Dec (c ≡ c)) → cast c (c, v) d ≡ some v
  cast_self c v (yes e) =
      ap some (ap (λ (q : c ≡ c). subst El q v) (hedberg same c c e refl) ∙ subst_refl El v)
  cast_self c v (no n) = absurd (n refl)

  cast_other : (c d : Code) (v : El c) (q : Dec (c ≡ d)) → c ≢ d → cast d (c, v) q ≡ none
  cast_other c d v (yes e) ne = absurd (ne e)
  cast_other c d v (no n) ne = refl

  -- After an insert, the key reads as the value at its own type and as nothing at any other type,
  -- and every other key reads as before, at every type.
  pub get-insert :
      (c d : Code) (key other : String) (v : El c) (b : Blackboard Boxed)
      → (get c key (insert c key v b) ≡ some v)
        × (c ≢ d → get d key (insert c key v b) ≡ none)
        × ((key == other) ≡ false → get d other (insert c key v b) ≡ get d other b)
  unfolding get insert downcast
  get-insert c d key other v b = (
    rw (find-put key key (c, v) b.entries, eq_refl key) (cast_self c v (same c c)),
    (λ ne. rw (find-put key key (c, v) b.entries, eq_refl key) (cast_other c d v (same c d) ne)),
    λ e. rw (find-put key other (c, v) b.entries, e),
  )
