-- ===== src/Prelude/BTree.antt =====
-- `BTreeMap` of Rust's standard library with numbers for keys: entries in ascending key order.
use Prim.Native.Nat.{ℕ, ◌<◌}
use mathlib.Core.Path.{◌≡◌, refl}
use mathlib.Core.Option.{Option, none, some}
use mathlib.Core.List.{List, [], ◌∷◌}
use native.Mathlib.Omega.{arith}
use rs_social_simulation_too.Prelude.Tests.{◌==◌, ltb, if◌then◌else◌}
use rs_social_simulation_too.Prelude.Members.{All}

module _ {ℓ} {V : Type ℓ} where
  unfoldable pub lookup : ℕ → List (ℕ × V) → Option V
  lookup k [] = none
  lookup k ((j, v) ∷ m) = if k == j then some v else lookup k m

  unfoldable pub insert : ℕ → V → List (ℕ × V) → List (ℕ × V)
  insert k v [] = (k, v) ∷ []
  insert k v ((j, w) ∷ m) =
      if k == j then (k, v) ∷ m else if ltb k j then (k, v) ∷ (j, w) ∷ m else (j, w) ∷ insert k v m

  unfoldable pub keys : List (ℕ × V) → List ℕ
  keys [] = []
  keys ((j, v) ∷ m) = j ∷ keys m

  pub lookup-insert :
      (k j : ℕ) (v : V) (m : List (ℕ × V))
      → lookup j (insert k v m) ≡ (if j == k then some v else lookup j m)
  unfolding lookup insert
  lookup-insert k j v [] = refl
  lookup-insert k j v ((i, w) ∷ m) = ground (arith, lookup-insert k j v m)

abbrev pub IsAscending : List ℕ → Type 0
IsAscending [] = Unit
IsAscending (k ∷ ks) = All (λ j. k < j) ks × IsAscending ks

All-weaken : (i k : ℕ) (ks : List ℕ) → i < k → All (λ j. k < j) ks → All (λ j. i < j) ks
All-weaken i k [] h a = tt
All-weaken i k (j ∷ ks) h a = (omega arith, All-weaken i k ks h a.1)

module _ {V : Type 0} where
  All-keys-insert :
      (i k : ℕ) (v : V) (m : List (ℕ × V))
      → i < k
      → All (λ j. i < j) (keys m)
      → All (λ j. i < j) (keys (insert k v m))
  unfolding insert keys
  All-keys-insert i k v [] h a = (h, tt)
  All-keys-insert i k v ((j, w) ∷ m) h a = ground (arith, All-keys-insert i k v m h)

  pub insert-IsAscending :
      (k : ℕ) (v : V) (m : List (ℕ × V)) → IsAscending (keys m) → IsAscending (keys (insert k v m))
  unfolding insert keys
  insert-IsAscending k v [] h = (tt, tt)
  insert-IsAscending k v ((j, w) ∷ m) h =
      ground (arith, insert-IsAscending k v m h.1, All-keys-insert j k v m, All-weaken k j (keys m))
