-- ===== src/Games/Solve/Tests.antt =====
-- A game of two roles with two actions each, with numbers in place of `f64`.
use rs_social_simulation_too.Prelude.{
  ℕ, ◌-◌, ◌*◌, ◌≡◌, refl, arith, leb, min, max, some, List, [], ◌∷◌, ◌==◌,
}
use rs_social_simulation_too.Prelude.{if◌then◌else◌, inr, ◌⊎◌}
use rs_social_simulation_too.Games.Solve.{Reals, FiniteGame, SolveError, PureNash, pure_nash}
use rs_social_simulation_too.Prelude.{ltb, ◌&&◌}
use rs_social_simulation_too.Games.Solve.Regret.{Ordered}
use rs_social_simulation_too.Games.Solve.Nash.{Solves, pure_nash-Solves}

abbrev counts : Reals
counts = record {
  Float = ℕ;
  nil = 0;
  unit = 1;
  tiny = 0;
  infinity = 1000;
  neg_infinity = 0;
  is_finite = λ x. ltb 0 x && ltb x 1000;
  least = min;
  most = max;
  sub = ◌-◌;
  mul = ◌*◌;
  le = leb;
}

counts-Ordered : Ordered counts
counts-Ordered = record {
  IsNumber = λ n. Unit {0};
  finite-IsNumber = λ x h. tt;
  nil-IsNumber = tt;
  infinity-IsNumber = tt;
  neg_infinity-IsNumber = tt;
  sub-IsNumber = λ x y h k. tt;
  greater = record {
    below_refl = λ a h. ground arith;
    below_trans = λ a b c h k l m n. ground arith;
    cases = λ a b h k. ground arith;
    first = λ a b h k. ground arith;
    second = λ a b h k. ground arith;
  };
  smaller = record {
    below_refl = λ a h. ground arith;
    below_trans = λ a b c h k l m n. ground arith;
    cases = λ a b h k. ground arith;
    first = λ a b h k. ground arith;
    second = λ a b h k. ground arith;
  };
  above_neg_infinity = λ x h. ground arith;
  below_infinity = λ x h. ground arith;
  sub_self = λ x h. omega arith;
  sub_monotone = λ x y z h k l m. ground arith;
}

-- Both gain where they do the same.
abbrev agreed : List ℕ → ℕ
agreed (a ∷ (b ∷ [])) = if a == b then 5 else 1
agreed profile = 0

abbrev coordination : FiniteGame ℕ
coordination = record { n_roles = 2; n_actions = λ role. 2; payoff = λ role. agreed }

equilibrium : ℕ → PureNash ℕ
equilibrium a = record { profile = a ∷ a ∷ []; payoffs = 5 ∷ 5 ∷ []; regret = 0 }

both_equilibria : pure_nash counts coordination 4 ≡ some (inr (equilibrium 0 ∷ equilibrium 1 ∷ []))
unfolding pure_nash equilibrium
both_equilibria = refl

pure_nash-Solves_example :
    (result : SolveError ⊎ List (PureNash ℕ)) × (pure_nash counts coordination 4 ≡ some result)
    × Solves counts counts-Ordered coordination 4 result
pure_nash-Solves_example = pure_nash-Solves counts counts-Ordered coordination 4 (omega arith)
