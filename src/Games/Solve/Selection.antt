-- ===== src/Games/Solve/Selection.antt =====
-- Which profiles the loop over them keeps: those whose regret is at most the tolerance.
use rs_social_simulation_too.Prelude.{ℕ, zero, suc, ◌+◌, ◌<◌, ◌≡◌, refl, sym, ◌∙◌, ap, arith, subst}
use rs_social_simulation_too.Prelude.{true, false, ◌∈◌, Bool-cases, inl, inr}
use rs_social_simulation_too.Prelude.{
  some, List, [], ◌∷◌, ◌++◌, map, range_from, get_elem?, set, mem-append_cases,
}
use mathlib.Core.List.{append-nil, append_assoc}
use rs_social_simulation_too.Games.Solve.{Reals, FiniteGame}
use rs_social_simulation_too.Games.Solve.{PureNash}
use rs_social_simulation_too.Games.Solve.{regret_from, payoffs_from, add_equilibrium}
use rs_social_simulation_too.Games.Solve.Profiles.{profiles, for_each}
use rs_social_simulation_too.Games.Solve.Scanning.{counts_from}
use rs_social_simulation_too.Games.Solve.Extremes.{mem-map_cases, mem-range_from_bounds}
use rs_social_simulation_too.Games.Solve.Listing.{mem-profiles, profiles-IsProfile, set-IsProfile}
use rs_social_simulation_too.Games.Solve.Regret.{
  Ordered, IsRegret, all_payoffs, role_payoffs, regret_from-fold,
}
use rs_social_simulation_too.Games.Solve.Gains.{IsFiniteAt, fold-IsRegret}

module _ (f : Reals) (o : Ordered f) (game : FiniteGame f.Float) where
  open f use {Float, nil, is_finite, least, most, le}

  -- Of the profiles of a list, those whose regret is at most the tolerance, in their order, each with the payoffs
  -- of its roles and its regret.
  pub data Lists (tolerance : Float) : List (List ℕ) → List (PureNash Float) → Type 0 where
    finished : Lists tolerance [] []
    kept :
        (p : List ℕ) (r : Float) (ps : List (List ℕ)) (found : List (PureNash Float))
        → IsRegret f game p r
        → le r tolerance ≡ true
        → Lists tolerance ps found
        → Lists tolerance (p ∷ ps) (
            record {
              profile = p;
              payoffs = map (λ role. game.payoff role p) (range_from 0 game.n_roles);
              regret = r;
            }
            ∷ found)
    skipped :
        (p : List ℕ) (r : Float) (ps : List (List ℕ)) (found : List (PureNash Float))
        → IsRegret f game p r
        → le r tolerance ≡ false
        → Lists tolerance ps found
        → Lists tolerance (p ∷ ps) found

  -- The counts of the roles' actions, and what is to be known of the payoffs.
  abbrev pub all_counts : List ℕ
  all_counts = counts_from f game 0 game.n_roles

  abbrev pub AllFinite : Type 0
  AllFinite =
      (profile : List ℕ) (role : ℕ)
      → profile ∈ profiles all_counts
      → role < game.n_roles
      → is_finite (game.payoff role profile) ≡ true

  payoffs_from-map :
      (p : List ℕ) (role n : ℕ)
      → payoffs_from f game p role n ≡ map (λ r. game.payoff r p) (range_from role n)
  payoffs_from-map p role zero = refl
  payoffs_from-map p role (suc n) = ap (◌∷◌ (game.payoff role p)) (payoffs_from-map p (role + 1) n)

  pub for_each-Lists :
      (tolerance : Float) (ps : List (List ℕ)) (result : List (PureNash Float))
      → ((p : List ℕ) → p ∈ ps → IsFiniteAt f o game p)
      → (found : List (PureNash Float)) × (for_each
            (add_equilibrium f game (record { counts = all_counts; tolerance = tolerance }))
            ps
            result
          ≡ inr (result ++ found))
        × Lists tolerance ps found
  unfolding add_equilibrium
  for_each-Lists tolerance [] result at_all = ([], ap inr (sym (append-nil result)), finished)
  for_each-Lists tolerance (p ∷ ps) result at_all =
      let r = regret_from f game p 0 all_counts nil in
      let regret : IsRegret f game p r =
        subst (IsRegret f game p) (sym (regret_from-fold f game p 0 game.n_roles nil))
          (fold-IsRegret f o game p (at_all p (inl refl))) in
      elim (Bool-cases (le r tolerance)) [
        | inl e ↦
            let entry : PureNash Float = record {
              profile = p;
              payoffs = payoffs_from f game p 0 game.n_roles;
              regret = r;
            } in
            let (found, looped, lists) =
              for_each-Lists tolerance ps (result ++ (entry ∷ [])) (λ q m. at_all q (inr m)) in
            (
              entry ∷ found,
              rw e (looped ∙ ap inr (append_assoc result (entry ∷ []) found)),
              subst
                  (λ (pays : List Float).
                    Lists tolerance (p ∷ ps)
                      (record { profile = p; payoffs = pays; regret = r } ∷ found))
                  (sym (payoffs_from-map p 0 game.n_roles)) (kept p r ps found regret e lists),
            )
        | inr e ↦
            let (found, looped, lists) =
              for_each-Lists tolerance ps result (λ q m. at_all q (inr m)) in
            (found, rw e looped, skipped p r ps found regret e lists)
      ]

  get_elem?-counts_from :
      (role n k : ℕ)
      → k < n
      → get_elem? (counts_from f game role n) k ≡ some (game.n_actions (role + k))
  get_elem?-counts_from role zero k h = absurd (omega arith)
  get_elem?-counts_from role (suc n) zero h = ap (λ (r : ℕ). some (game.n_actions r)) (omega arith)
  get_elem?-counts_from role (suc n) (suc k) h =
      get_elem?-counts_from (role + 1) n k (omega arith)
      ∙ ap (λ (r : ℕ). some (game.n_actions r)) (omega arith)

  pub AllFinite-IsFiniteAt :
      AllFinite → (p : List ℕ) → p ∈ profiles all_counts → IsFiniteAt f o game p
  AllFinite-IsFiniteAt good p m = record {
    own = λ role h. good p role m h;
    other = λ role a h k.
        good (set p role a) role
          (mem-profiles (set p role a) all_counts (
            set-IsProfile p all_counts role a (game.n_actions role)
              (profiles-IsProfile p all_counts m)
              (get_elem?-counts_from 0 game.n_roles role h
                ∙ ap (λ (r : ℕ). some (game.n_actions r)) (omega arith))
              k))
          h;
  }

  pub all_payoffs_finite :
      (ps : List (List ℕ))
      → ((p : List ℕ) (role : ℕ)
          → p ∈ ps
          → role < game.n_roles
          → is_finite (game.payoff role p) ≡ true)
      → (x : Float) → x ∈ all_payoffs f game ps
      → is_finite x ≡ true
  all_payoffs_finite [] good x m = absurd m
  all_payoffs_finite (p ∷ ps) good x m =
      elim (mem-append_cases x (role_payoffs f game p 0 game.n_roles) (all_payoffs f game ps) m) [
        | inl here ↦
            let (role, listed, e) = mem-map_cases _ (range_from 0 game.n_roles) x here in
            let (above, below) = mem-range_from_bounds 0 game.n_roles role listed in
            ap is_finite e ∙ good p role (inl refl) (omega arith)
        | inr later ↦ all_payoffs_finite ps (λ q role m h. good q role (inr m) h) x later
      ]
