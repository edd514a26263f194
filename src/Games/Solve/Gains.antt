-- ===== src/Games/Solve/Gains.antt =====
-- What the folds of the solvers over payoffs find, where the numbers are ordered.
use rs_social_simulation_too.Prelude.{ℕ, ◌<◌, ◌≡◌, sym, ◌∙◌, ap, subst, arith}
use rs_social_simulation_too.Prelude.{
  true, false, inl, inr, ◌⊎◌, ◌∈◌, All, All_get, All-intro, List, ◌∷◌, map, set, range_from,
}
use rs_social_simulation_too.Games.Solve.{Reals, FiniteGame}
use rs_social_simulation_too.Games.Solve.Regret.{
  Ordered, AtMost, AtLeast, gain, IsRegret, deviations, best_of, most_gain,
}
use rs_social_simulation_too.Games.Solve.Extremes.{
  IsExtreme, fold, fold-both, fold-IsExtreme, mem-map, mem-map_cases,
}
use rs_social_simulation_too.Games.Solve.Extremes.{mem-range_from, mem-range_from_bounds}

module _ (f : Reals) (o : Ordered f) (game : FiniteGame f.Float) where
  open f use {Float, nil, infinity, neg_infinity, is_finite, least, most, sub, le}
  open o use {IsNumber, finite-IsNumber, nil-IsNumber, sub-IsNumber, sub_self, sub_monotone}

  -- The payoffs of a profile, and of each that differs from it in the action of one role, are finite.
  pub record IsFiniteAt (p : List ℕ) : Type 0 where
    pub own : (role : ℕ) → role < game.n_roles → is_finite (game.payoff role p) ≡ true
    pub other :
        (role a : ℕ)
        → role < game.n_roles
        → a < game.n_actions role
        → is_finite (game.payoff role (set p role a)) ≡ true

  module _ (p : List ℕ) (at_p : IsFiniteAt p) where
    devs : ℕ → List Float
    devs role = deviations f game p role 0 (game.n_actions role)

    best-IsExtreme :
        (role : ℕ)
        → role < game.n_roles
        → IsExtreme (AtMost f game) (game.payoff role p ∷ devs role) (best_of f game p role)
    unfolding devs
    best-IsExtreme role h =
        fold-IsExtreme o.greater (game.payoff role p) (devs role)
          (finite-IsNumber _ (at_p.own role h))
          (All-intro IsNumber (devs role) (λ x m.
            let (a, listed, e) = mem-map_cases _ (range_from 0 (game.n_actions role)) x m in
            let (above, below) = mem-range_from_bounds 0 (game.n_actions role) a listed in
            subst IsNumber (sym e) (finite-IsNumber _ (at_p.other role a h (omega arith)))))

    -- The best payoff is the role's own or that of another action.
    best_cases :
        (role : ℕ)
        → role < game.n_roles
        → (best_of f game p role ≡ game.payoff role p)
          ⊎ ((a : ℕ) × (a < game.n_actions role)
              × (best_of f game p role ≡ game.payoff role (set p role a)))
    unfolding devs
    best_cases role h = elim (best-IsExtreme role h).0 [
      | inl e ↦ inl e
      | inr m ↦
          let (a, listed, e) = mem-map_cases _ (range_from 0 (game.n_actions role)) _ m in
          let (above, below) = mem-range_from_bounds 0 (game.n_actions role) a listed in
          inr (a, omega arith, e)
    ]

    best_finite : (role : ℕ) → role < game.n_roles → is_finite (best_of f game p role) ≡ true
    best_finite role h = elim (best_cases role h) [
      | inl e ↦ ap is_finite e ∙ at_p.own role h
      | inr (a, below, e) ↦ ap is_finite e ∙ at_p.other role a h below
    ]

    gain-le :
        (role a : ℕ)
        → role < game.n_roles
        → a < game.n_actions role
        → le (gain f game p role a) (most_gain f game p role) ≡ true
    unfolding devs
    gain-le role a h k =
        sub_monotone (game.payoff role (set p role a)) (best_of f game p role) (game.payoff role p)
          (at_p.other role a h k) (best_finite role h) (at_p.own role h)
          (All_get _ (devs role) _ (best-IsExtreme role h).1.1 (
            mem-map (λ b. game.payoff role (set p role b)) (range_from 0 (game.n_actions role)) a
              (mem-range_from 0 (game.n_actions role) a (omega arith) (omega arith))))

    gain-IsNumber :
        (role a : ℕ)
        → role < game.n_roles
        → a < game.n_actions role
        → IsNumber (gain f game p role a)
    gain-IsNumber role a h k = sub-IsNumber _ _ (at_p.other role a h k) (at_p.own role h)

    most_gain-IsNumber : (role : ℕ) → role < game.n_roles → IsNumber (most_gain f game p role)
    most_gain-IsNumber role h = sub-IsNumber _ _ (best_finite role h) (at_p.own role h)

    abbrev most_gains : List Float
    most_gains = map (most_gain f game p) (range_from 0 game.n_roles)

    -- Folding the roles' greatest gains from zero on finds the regret.
    pub fold-IsRegret : IsRegret f game p (fold most nil most_gains)
    fold-IsRegret =
        let (number, (member, (not_negative, all))) =
          fold-both o.greater nil most_gains nil-IsNumber (
            All-intro IsNumber most_gains (λ x m.
              let (role, listed, e) = mem-map_cases _ (range_from 0 game.n_roles) x m in
              let (above, below) = mem-range_from_bounds 0 game.n_roles role listed in
              subst IsNumber (sym e) (most_gain-IsNumber role (omega arith)))) in
        record {
          not_negative = not_negative;
          bounds = λ role a h k.
              o.greater.below_trans (gain f game p role a) (most_gain f game p role)
                (fold most nil most_gains) (gain-IsNumber role a h k) (most_gain-IsNumber role h)
                number (gain-le role a h k)
                (All_get _ most_gains _ all (
                  mem-map (most_gain f game p) (range_from 0 game.n_roles) role
                    (mem-range_from 0 game.n_roles role (omega arith) (omega arith))));
          reached = elim member [
            | inl e ↦ inl e
            | inr m ↦
                let (role, listed, e) = mem-map_cases _ (range_from 0 game.n_roles) _ m in
                let (above, below) = mem-range_from_bounds 0 game.n_roles role listed in
                let h : role < game.n_roles = omega arith in
                elim (best_cases role h) [
                  | inl own ↦ inl (
                      e
                      ∙ ap (λ (b : Float). sub b (game.payoff role p)) own
                      ∙ sub_self _ (at_p.own role h))
                  | inr (a, k, best) ↦
                      inr (role, a, h, k, e ∙ ap (λ (b : Float). sub b (game.payoff role p)) best)
                ]
          ];
        }

  module _ (xs : List Float) (finite : (x : Float) → x ∈ xs → is_finite x ≡ true) where
    abbrev numbers : All IsNumber xs
    numbers = All-intro IsNumber xs (λ x m. finite-IsNumber x (finite x m))

    impossible : true ≡ false → ⊥
    impossible h = cc

    -- Folding finds the greatest and the least of finite numbers that are not none.
    pub fold-greatest :
        (x : Float) → x ∈ xs → IsExtreme (AtMost f game) xs (fold most neg_infinity xs)
    fold-greatest x m =
        let (member, (above, all)) =
          fold-IsExtreme o.greater neg_infinity xs o.neg_infinity-IsNumber numbers in
        (
          elim member [
            | inl e ↦ absurd (
                impossible
                  (sym (All_get _ xs x all m) ∙ ap (le x) e ∙ o.above_neg_infinity x (finite x m)))
            | inr listed ↦ listed
          ],
          all,
        )

    pub fold-least : (x : Float) → x ∈ xs → IsExtreme (AtLeast f game) xs (fold least infinity xs)
    fold-least x m =
        let (member, (below, all)) =
          fold-IsExtreme o.smaller infinity xs o.infinity-IsNumber numbers in
        (
          elim member [
            | inl e ↦ absurd (
                impossible (
                  sym (All_get _ xs x all m)
                  ∙ ap (λ (y : Float). le y x) e
                  ∙ o.below_infinity x (finite x m)))
            | inr listed ↦ listed
          ],
          all,
        )
