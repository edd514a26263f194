-- ===== src/Games/Solve/Listing.antt =====
-- The list of the profiles holds exactly the profiles.
use rs_social_simulation_too.Prelude.{ℕ, zero, suc, ◌+◌, ◌≤◌, ◌<◌, ◌≡◌, refl, sym, subst, arith}
use rs_social_simulation_too.Prelude.{List, [], ◌∷◌, map, inl, inr, ◌⊎◌, ◌∈◌, some, get_elem?, set}
use rs_social_simulation_too.Prelude.{mem-append_right, mem-append_left, mem-append_cases}
use rs_social_simulation_too.Games.Solve.Profiles.{blocks, profiles, IsProfile}
use rs_social_simulation_too.Games.Solve.Extremes.{mem-map, mem-map_cases}

mem-blocks :
    (later : List (List ℕ)) (a n b : ℕ) (q : List ℕ)
    → q ∈ later
    → a ≤ b
    → b < a + n
    → (b ∷ q) ∈ blocks later a n
mem-blocks later a zero b q m h l = absurd (omega arith)
mem-blocks later a (suc n) b q m h l = elim (here_or_later a b h) [
  | inl e ↦
      mem-append_left (b ∷ q) (map (◌∷◌ a) later) (blocks later (a + 1) n)
        (subst (λ c. (c ∷ q) ∈ map (◌∷◌ a) later) e (mem-map (◌∷◌ a) later q m))
  | inr above ↦
      mem-append_right (b ∷ q) (map (◌∷◌ a) later) (blocks later (a + 1) n)
        (mem-blocks later (a + 1) n b q m (omega arith) (omega arith))
]
  where
    here_or_later : (a b : ℕ) → a ≤ b → (a ≡ b) ⊎ (a < b)
    here_or_later a b h = ground arith

mem-blocks_cases :
    (later : List (List ℕ)) (a n : ℕ) (p : List ℕ)
    → p ∈ blocks later a n
    → (b : ℕ) × (q : List ℕ) × (q ∈ later) × (b < a + n) × (p ≡ b ∷ q)
mem-blocks_cases later a zero p m = absurd m
mem-blocks_cases later a (suc n) p m =
    elim (mem-append_cases p (map (◌∷◌ a) later) (blocks later (a + 1) n) m) [
      | inl here ↦
          let (q, member, e) = mem-map_cases (◌∷◌ a) later p here in (a, q, member, omega arith, e)
      | inr behind ↦
          let (b, q, member, below, e) = mem-blocks_cases later (a + 1) n p behind in
          (b, q, member, omega arith, e)
    ]

pub mem-profiles : (p counts : List ℕ) → IsProfile p counts → p ∈ profiles counts
mem-profiles [] [] valid = inl refl
mem-profiles [] (c ∷ counts) valid = absurd valid
mem-profiles (a ∷ p) [] valid = absurd valid
mem-profiles (a ∷ p) (c ∷ counts) (h, valid) =
    mem-blocks (profiles counts) 0 c a p (mem-profiles p counts valid) (omega arith) (omega arith)

pub profiles-IsProfile : (p counts : List ℕ) → p ∈ profiles counts → IsProfile p counts
profiles-IsProfile p [] (inl e) = subst (λ q. IsProfile q []) (sym e) tt
profiles-IsProfile p [] (inr m) = absurd m
profiles-IsProfile p (c ∷ counts) m =
    let (b, q, member, below, e) = mem-blocks_cases (profiles counts) 0 c p m in
    subst (λ r. IsProfile r (c ∷ counts)) (sym e) (omega arith, profiles-IsProfile q counts member)

-- Another action of one role.
pub set-IsProfile :
    (p counts : List ℕ) (role a c : ℕ)
    → IsProfile p counts
    → get_elem? counts role ≡ some c
    → a < c
    → IsProfile (set p role a) counts
set-IsProfile [] [] role a c valid e h = tt
set-IsProfile [] (d ∷ counts) role a c valid e h = absurd valid
set-IsProfile (b ∷ p) [] role a c valid e h = absurd valid
set-IsProfile (b ∷ p) (d ∷ counts) zero a c (below, valid) e h =
    let same : d ≡ c = cc in (omega arith, valid)
set-IsProfile (b ∷ p) (d ∷ counts) (suc role) a c (below, valid) e h =
    (below, set-IsProfile p counts role a c valid e h)
