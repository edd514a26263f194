-- ===== src/Games/Solve/Regret.antt =====
-- The regret of a profile and the tolerance of a game, against their descriptions: no gain of a role by another
-- action exceeds the regret, and the tolerance is scaled by the greatest and the least payoff.
use rs_social_simulation_too.Prelude.{
  ℕ, zero, suc, ◌+◌, ◌≤◌, ◌<◌, ◌≡◌, refl, sym, ◌∙◌, ap, subst, arith,
}
use rs_social_simulation_too.Prelude.{true, false, inl, inr, ◌⊎◌, ◌∈◌, if_true, if◌then◌else◌}
use rs_social_simulation_too.Prelude.{List, [], ◌∷◌, ◌++◌, map, set, range_from}
use rs_social_simulation_too.Prelude.{mem-append_left, mem-append_right}
use rs_social_simulation_too.Games.Solve.{
  Reals, FiniteGame, SolveError, best_from, regret_from, scan_roles,
}
use rs_social_simulation_too.Games.Solve.Profiles.{for_each, then_each}
use rs_social_simulation_too.Games.Solve.Scanning.{counts_from}
use rs_social_simulation_too.Games.Solve.Extremes.{Choice, IsExtreme, fold, fold-append, mem-map}
use rs_social_simulation_too.Games.Solve.Extremes.{mem-range_from}

-- What the solvers rely on of `f64`. A number is a value that is not NaN.
pub record Ordered (f : Reals) : Type 1 where
  pub IsNumber : f.Float → Type 0
  pub finite-IsNumber : (x : f.Float) → f.is_finite x ≡ true → IsNumber x
  pub nil-IsNumber : IsNumber f.nil
  pub infinity-IsNumber : IsNumber f.infinity
  pub neg_infinity-IsNumber : IsNumber f.neg_infinity
  pub sub-IsNumber :
      (x y : f.Float) → f.is_finite x ≡ true → f.is_finite y ≡ true → IsNumber (f.sub x y)
  pub greater : Choice IsNumber (λ a b. f.le a b ≡ true) f.most
  pub smaller : Choice IsNumber (λ a b. f.le b a ≡ true) f.least
  pub above_neg_infinity : (x : f.Float) → f.is_finite x ≡ true → f.le x f.neg_infinity ≡ false
  pub below_infinity : (x : f.Float) → f.is_finite x ≡ true → f.le f.infinity x ≡ false
  pub sub_self : (x : f.Float) → f.is_finite x ≡ true → f.sub x x ≡ f.nil
  pub sub_monotone :
      (x y z : f.Float)
      → f.is_finite x ≡ true
      → f.is_finite y ≡ true
      → f.is_finite z ≡ true
      → f.le x y ≡ true
      → f.le (f.sub x z) (f.sub y z) ≡ true

module _ (f : Reals) (game : FiniteGame f.Float) where
  open f use {Float, nil, unit, tiny, infinity, neg_infinity, is_finite, least, most, sub, mul, le}

  abbrev pub AtMost : Float → Float → Type 0
  AtMost a b = le a b ≡ true

  abbrev pub AtLeast : Float → Float → Type 0
  AtLeast a b = le b a ≡ true

  -- What a role gains by an action instead of its own in the profile.
  abbrev pub gain : List ℕ → ℕ → ℕ → Float
  gain p role a = sub (game.payoff role (set p role a)) (game.payoff role p)

  -- The greatest of zero and of the gains of all roles by all their actions.
  pub record IsRegret (p : List ℕ) (r : Float) : Type 0 where
    pub not_negative : le nil r ≡ true
    pub bounds :
        (role a : ℕ) → role < game.n_roles → a < game.n_actions role → le (gain p role a) r ≡ true
    pub reached :
        (r ≡ nil)
        ⊎ ((role : ℕ) × (a : ℕ) × (role < game.n_roles)
            × (a < game.n_actions role)
            × (r ≡ gain p role a))

  -- The payoffs of all roles in the profiles of a list.
  abbrev pub role_payoffs : List ℕ → ℕ → ℕ → List Float
  role_payoffs p role n = map (λ r. game.payoff r p) (range_from role n)

  abbrev pub all_payoffs : List (List ℕ) → List Float
  all_payoffs [] = []
  all_payoffs (p ∷ ps) = role_payoffs p 0 game.n_roles ++ all_payoffs ps

  -- A ten-thousand-millionth of the difference of the greatest and the least payoff, or of one if that is more;
  -- where the difference is not finite, the parts are scaled before they are subtracted.
  abbrev pub IsTolerance : List (List ℕ) → Float → Type 0
  IsTolerance ps t =
      (lo : Float) × (hi : Float) × IsExtreme AtLeast (all_payoffs ps) lo
      × IsExtreme AtMost (all_payoffs ps) hi
      × (t ≡ (
          if is_finite (sub hi lo)
          then mul tiny (most (sub hi lo) unit)
          else most (sub (mul hi tiny) (mul lo tiny)) tiny))

  -- The payoffs of a role by the `n` actions from `a` on.
  abbrev pub deviations : List ℕ → ℕ → ℕ → ℕ → List Float
  deviations p role a n = map (λ b. game.payoff role (set p role b)) (range_from a n)

  best_from-fold :
      (p : List ℕ) (role a n : ℕ) (best : Float)
      → best_from f game p role a n best ≡ fold most best (deviations p role a n)
  unfolding best_from
  best_from-fold p role a zero best = refl
  best_from-fold p role a (suc n) best = best_from-fold p role (a + 1) n _

  -- The greatest of a role's payoff and those by its other actions.
  abbrev pub best_of : List ℕ → ℕ → Float
  best_of p role = fold most (game.payoff role p) (deviations p role 0 (game.n_actions role))

  abbrev pub most_gain : List ℕ → ℕ → Float
  most_gain p role = sub (best_of p role) (game.payoff role p)

  pub regret_from-fold :
      (p : List ℕ) (role n : ℕ) (m : Float)
      → regret_from f game p role (counts_from f game role n) m
        ≡ fold most m (map (most_gain p) (range_from role n))
  unfolding regret_from
  regret_from-fold p role zero m = refl
  regret_from-fold p role (suc n) m =
      ap
        (λ (b : Float).
          regret_from f game p (role + 1) (counts_from f game (role + 1) n)
            (most m (sub b (game.payoff role p))))
        (best_from-fold p role 0 (game.n_actions role) (game.payoff role p))
      ∙ regret_from-fold p (role + 1) n _

  scan_roles-fold :
      (p : List ℕ) (role n : ℕ) (lo hi : Float)
      → ((r : ℕ) → role ≤ r → r < role + n → is_finite (game.payoff r p) ≡ true)
      → scan_roles f game p role n (lo, hi)
        ≡ inr (fold least lo (role_payoffs p role n), fold most hi (role_payoffs p role n))
  unfolding scan_roles
  scan_roles-fold p role zero lo hi finite = refl
  scan_roles-fold p role (suc n) lo hi finite =
      if_true _ _ (finite role (omega arith) (omega arith))
      ∙ scan_roles-fold p (role + 1) n _ _ (λ r h k. finite r (omega arith) (omega arith))

  abbrev pub scan : List ℕ → Float × Float → SolveError ⊎ (Float × Float)
  scan p range = scan_roles f game p 0 game.n_roles range

  pub for_each-fold :
      (ps : List (List ℕ)) (lo hi : Float)
      → ((p : List ℕ) (r : ℕ) → p ∈ ps → r < game.n_roles → is_finite (game.payoff r p) ≡ true)
      → for_each scan ps (lo, hi)
        ≡ inr (fold least lo (all_payoffs ps), fold most hi (all_payoffs ps))
  for_each-fold [] lo hi finite = refl
  for_each-fold (p ∷ ps) lo hi finite =
      let pays = role_payoffs p 0 game.n_roles in
      ap (λ (s : SolveError ⊎ (Float × Float)). then_each scan s (for_each scan ps))
        (scan_roles-fold p 0 game.n_roles lo hi (λ r h k. finite p r (inl refl) (omega arith)))
      ∙ for_each-fold ps (fold least lo pays) (fold most hi pays) (λ q r m h. finite q r (inr m) h)
      ∙ ap (λ (x : Float). inr (x, fold most (fold most hi pays) (all_payoffs ps)))
          (sym (fold-append least lo pays (all_payoffs ps)))
      ∙ ap (λ (x : Float). inr (fold least lo (pays ++ all_payoffs ps), x))
          (sym (fold-append most hi pays (all_payoffs ps)))

  pub mem-all_payoffs :
      (ps : List (List ℕ)) (p : List ℕ) (role : ℕ)
      → p ∈ ps
      → role < game.n_roles
      → game.payoff role p ∈ all_payoffs ps
  mem-all_payoffs [] p role m h = absurd m
  mem-all_payoffs (q ∷ ps) p role (inl e) h =
      mem-append_left _ (role_payoffs q 0 game.n_roles) (all_payoffs ps) (
        subst (λ r. game.payoff role p ∈ role_payoffs r 0 game.n_roles) e
          (mem-map (λ r. game.payoff r p) (range_from 0 game.n_roles) role
            (mem-range_from 0 game.n_roles role (omega arith) (omega arith))))
  mem-all_payoffs (q ∷ ps) p role (inr m) h =
      mem-append_right _ (role_payoffs q 0 game.n_roles) (all_payoffs ps)
        (mem-all_payoffs ps p role m h)
