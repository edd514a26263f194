-- ===== src/Core/Tests.antt =====
-- The blackboard with numbers and truth values on it.
use rs_social_simulation_too.Prelude.{ℕ, ◌≡◌, ◌≢◌, refl, Bool, true, false, none, some}
use rs_social_simulation_too.Core.Blackboard.{
  Blackboard, Types, Boxed, insert, get, get-insert, new,
}
use text.Mathlib.Text.{◌==◌}

data Code : Type 0 where
  number truth : Code

abbrev Meaning : Code → Type 0
Meaning number = ℕ
Meaning truth = Bool

abbrev is_number : Code → Bool
is_number number = true
is_number truth = false

distinct : number ≢ truth
distinct e = cc

same_code : Discrete Code
same_code number number = yes refl
same_code number truth = no distinct
same_code truth number = no (λ e. cc)
same_code truth truth = yes refl

abbrev types : Types
types = record { Code = Code; El = Meaning; same = same_code }

abbrev noted : Blackboard (Boxed types)
noted = insert types truth "seen" true new

get-insert_example :
    (get types number "count" (insert types number "count" 5 noted) ≡ some 5)
    × (number ≢ truth → get types truth "count" (insert types number "count" 5 noted) ≡ none)
    × (("count" == "seen") ≡ false
        → get types truth "seen" (insert types number "count" 5 noted)
          ≡ get types truth "seen" noted)
get-insert_example = get-insert types number truth "count" "seen" 5 noted
