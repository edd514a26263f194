-- ===== src/Games/Matching/Groups.antt =====
-- The groups that `RandomGroups` and `RandomPairs` seat.
use mathlib.Core.List.{append_assoc, append-nil, Perm, Permᴰ}
use mathlib.Core.Logic.{∥∥₁_elim}
use native.Mathlib.Nat.{div-eq-sub-div, div-eq_of_lt, ℕ_set}
use rs_social_simulation_too.Prelude.{
  ℕ, zero, suc, ◌+◌, ◌*◌, ◌-◌, ◌/◌, ◌≤◌, ◌<◌, ◌≡◌, refl, sym, ◌∙◌,
}
use rs_social_simulation_too.Prelude.{ap, arith, true, leb, ◌==◌}
use rs_social_simulation_too.Prelude.{Bool-cases, inl, inr, leb→le, subst}
use rs_social_simulation_too.Prelude.{
  none, List, [], ◌∷◌, ◌++◌, length, take, drop, All, length-append, replicate,
}
use rs_social_simulation_too.Core.{AgentId}
use rs_social_simulation_too.Engine.Scheduling.{Shuffle}
use rs_social_simulation_too.Games.Arena.{PlayArena, all, push, n_encounters}
use rs_social_simulation_too.Games.Arena.{u32_max}
use rs_social_simulation_too.Games.Matching.{MatchContext, Reply, success, push_all}
use rs_social_simulation_too.Games.Matching.{
  chunks_from, chunks_exact, groups_into, agents_of, pair_seats, fixed_into,
}
use rs_social_simulation_too.Games.Matching.{FixedPlayers}

pub joined : List (List AgentId) → List AgentId
joined [] = []
joined (g ∷ gs) = g ++ joined gs

abbrev HasSize : ℕ → List AgentId → Type 0
HasSize k g = length g ≡ k

length-drop : (k : ℕ) (xs : List AgentId) → length (drop k xs) ≡ length xs - k
length-drop zero xs = omega arith
length-drop (suc k) [] = omega arith
length-drop (suc k) (x ∷ xs) = omega (arith, length-drop k xs)

take_exact : (k : ℕ) (xs : List AgentId) → k ≤ length xs → length (take k xs) ≡ k
take_exact zero xs h = refl
take_exact (suc k) [] h = absurd (omega arith)
take_exact (suc k) (x ∷ xs) h = ap suc (take_exact k xs (omega arith))

take_nil : (n : ℕ) → take {A = AgentId} n [] ≡ []
take_nil zero = refl
take_nil (suc n) = refl

take-drop :
    (k n m : ℕ) (xs : List AgentId) → k + n ≡ m → take k xs ++ take n (drop k xs) ≡ take m xs
take-drop zero n m xs h = ap (λ (j : ℕ). take j xs) (omega arith)
take-drop (suc k) n zero xs h = absurd (omega arith)
take-drop (suc k) n (suc m) [] h = take_nil n
take-drop (suc k) n (suc m) (x ∷ xs) h = ap (◌∷◌ x) (take-drop k n m xs (omega arith))

-- What the chunks of a list are.
record Cuts (k : ℕ) (xs : List AgentId) (gs : List (List AgentId)) : Type 0 where
  sized : All (HasSize k) gs
  count : length gs ≡ length xs / k
  whole : joined gs ≡ take (length xs / k * k) xs

short-Cuts : (k : ℕ) (xs : List AgentId) → length xs < k → Cuts k xs []
unfolding joined
short-Cuts k xs h =
    let none_fit : length xs / k ≡ 0 = div-eq_of_lt h in
    let zero_seats : length xs / k * k ≡ 0 = ap (λ (q : ℕ). q * k) none_fit ∙ omega arith in
    record { sized = tt; count = sym none_fit; whole = rw zero_seats refl }

one_more : (q k : ℕ) → k + q * k ≡ (q + 1) * k
one_more q k = grind arith

longer-Cuts :
    (k : ℕ) (xs : List AgentId) (gs : List (List AgentId))
    → 0 < k
    → k ≤ length xs
    → Cuts k (drop k xs) gs
    → Cuts k xs (take k xs ∷ gs)
unfolding joined
longer-Cuts k xs gs h l c =
    let q : ℕ = length (drop k xs) / k in
    let quotient : length xs / k ≡ q + 1 =
      div-eq-sub-div h l ∙ ap (λ (n : ℕ). n / k + 1) (sym (length-drop k xs)) in
    record {
      sized = (take_exact k xs l, c.sized);
      count = omega (arith, c.count, quotient);
      whole =
          ap (λ (ys : List AgentId). take k xs ++ ys) c.whole
          ∙ take-drop k (q * k) (length xs / k * k) xs
              (one_more q k ∙ ap (λ (n : ℕ). n * k) (sym quotient));
    }

chunks_from-Cuts :
    (fuel k : ℕ) (xs : List AgentId) → 0 < k → length xs ≤ fuel → Cuts k xs (chunks_from fuel k xs)
unfolding chunks_from
chunks_from-Cuts zero k xs h l = short-Cuts k xs (omega arith)
chunks_from-Cuts (suc fuel) k xs h l = elim (Bool-cases (leb k (length xs))) [
  | inl e ↦
      let fits = leb→le k (length xs) e in
      rw e (
        longer-Cuts k xs (chunks_from fuel k (drop k xs)) h fits
          (chunks_from-Cuts fuel k (drop k xs) h (omega (arith, length-drop k xs))))
  | inr e ↦ rw e (short-Cuts k xs (ground arith))
]

listed_length : {xs ys : List AgentId} → Permᴰ xs ys → length xs ≡ length ys
listed_length Permᴰ.nil = refl
listed_length (Permᴰ.cons e p) = ap suc (listed_length p)
listed_length (Permᴰ.swap e f) = refl
listed_length (Permᴰ.trans p q) = listed_length p ∙ listed_length q

length-perm : {xs ys : List AgentId} → Perm xs ys → length xs ≡ length ys
length-perm p = ∥∥₁_elim p (ℕ_set _ _) listed_length

module _ {A F : Type 0} (nothing : F) where
  -- All of the encounters are pushed, one after another.
  pub record Seated (a : PlayArena A F) (gs : List (List AgentId)) (o : Reply × PlayArena A F)
      : Type 0 where
    pub arena : PlayArena A F
    pub result : o ≡ (success, arena)
    pub roles : arena.n_roles ≡ a.n_roles
    pub seats : arena.seats ≡ a.seats ++ joined gs
    pub count : n_encounters arena ≡ n_encounters a + length gs

  push_all-Seated :
      (gs : List (List AgentId)) (a : PlayArena A F)
      → All (HasSize a.n_roles) gs
      → n_encounters a + length gs ≤ u32_max + 1
      → Seated a gs (push_all nothing a gs)
  unfolding push_all joined push
  push_all-Seated [] a h l = record {
    arena = a;
    result = refl;
    roles = refl;
    seats = sym (append-nil a.seats);
    count = omega arith;
  }
  push_all-Seated (g ∷ gs) a h l =
      let fits : (length g == a.n_roles) ≡ true = ground (arith, h.0) in
      let room : leb (n_encounters a) u32_max ≡ true = ground arith in
      let b : PlayArena A F = record a {
        seats = a.seats ++ g;
        credit = a.credit ++ (all ∷ []);
        actions = a.actions ++ replicate a.n_roles none;
        payoffs = a.payoffs ++ replicate a.n_roles nothing;
      } in
      let counted : n_encounters b ≡ n_encounters a + 1 = length-append a.credit (all ∷ []) in
      let rest = push_all-Seated gs b h.1 (omega (arith, counted)) in
      record {
        arena = rest.arena;
        result = rw (fits, room) rest.result;
        roles = rest.roles;
        seats = rest.seats ∙ append_assoc a.seats g (joined gs);
        count = omega (arith, rest.count, counted);
      }

  -- In a game of `k` roles, `k` at least one, on an arena without encounters, where the number of
  -- groups that `k` makes of the agents is at most `u32::MAX` and one, the groups are all seated
  -- without an error: the arena then holds as many encounters as `k` goes into the number of the
  -- context's agents, and its seats are the shuffled agents in their order, without those at the
  -- end that fill no group.
  pub groups_into-Seated :
      {R : Type 0} (s : Shuffle R) (k : ℕ) (ctx : MatchContext) (rng : R) (a : PlayArena A F)
      → 0 < k
      → a.n_roles ≡ k
      → a.seats ≡ []
      → a.credit ≡ []
      → length ctx.ids / k ≤ u32_max + 1
      → (b : PlayArena A F) × (groups_into nothing s k ctx rng a
          ≡ ((success, b), (s.shuffle ctx.ids rng).1))
        × (n_encounters b ≡ length ctx.ids / k)
        × (b.seats ≡ take (length ctx.ids / k * k) (s.shuffle ctx.ids rng).0)
  unfolding groups_into
  groups_into-Seated s k ctx rng a h roles no_seats no_credit room =
      let ids = (s.shuffle ctx.ids rng).0 in
      let cuts = chunks_from-Cuts (length ids) k ids h (omega arith) in
      let same : length ids ≡ length ctx.ids = length-perm (s.shuffle-perm ctx.ids rng) in
      let groups : length ids / k ≡ length ctx.ids / k = ap (λ (n : ℕ). n / k) same in
      let sized : All (HasSize a.n_roles) (chunks_exact k ids) =
        subst (λ n. All (HasSize n) (chunks_exact k ids)) (sym roles) cuts.sized in
      let empty : n_encounters a ≡ 0 = ap length no_credit in
      let all_in =
        push_all-Seated (chunks_exact k ids) a sized (omega (arith, empty, cuts.count, groups)) in
      (
        all_in.arena,
        ap (λ (o : Reply × PlayArena A F). (o, (s.shuffle ctx.ids rng).1)) all_in.result,
        omega (arith, all_in.count, empty, cuts.count, groups),
        (all_in.seats
            ∙ ap (λ (xs : List AgentId). xs ++ joined (chunks_exact k ids)) no_seats
            ∙ cuts.whole
            ∙ ap (λ (n : ℕ). take (n * k) ids) groups),
      )

joined-pair_seats : (ps : List (AgentId × AgentId)) → joined (pair_seats ps) ≡ agents_of ps
unfolding joined pair_seats agents_of
joined-pair_seats [] = refl
joined-pair_seats ((l, r) ∷ ps) = ap (λ (xs : List AgentId). l ∷ r ∷ xs) (joined-pair_seats ps)

pair_seats-HasSize : (ps : List (AgentId × AgentId)) → All (HasSize 2) (pair_seats ps)
unfolding pair_seats
pair_seats-HasSize [] = tt
pair_seats-HasSize ((l, r) ∷ ps) = (refl, pair_seats-HasSize ps)

length-pair_seats : (ps : List (AgentId × AgentId)) → length (pair_seats ps) ≡ length ps
unfolding pair_seats
length-pair_seats [] = refl
length-pair_seats ((l, r) ∷ ps) = ap suc (length-pair_seats ps)

-- In a game of two roles, with room for the pairs in a `u32`, `FixedPlayers` seats all of its pairs
-- without an error: behind the seats that the arena had stand the pairs' agents, in their order, and
-- each pair is one encounter.
pub fixed_into-Seated :
    {A F : Type 0} (nothing : F) (m : FixedPlayers) (a : PlayArena A F)
    → a.n_roles ≡ 2
    → n_encounters a + length m.pairs ≤ u32_max + 1
    → (b : PlayArena A F) × (fixed_into nothing m a ≡ (success, b))
      × (b.seats ≡ a.seats ++ agents_of m.pairs)
      × (n_encounters b ≡ n_encounters a + length m.pairs)
unfolding fixed_into
fixed_into-Seated nothing m a roles room =
    let groups = pair_seats m.pairs in
    let sized : All (HasSize a.n_roles) groups =
      subst (λ n. All (HasSize n) groups) (sym roles) (pair_seats-HasSize m.pairs) in
    let all_in =
      push_all-Seated nothing groups a sized (omega (arith, room, length-pair_seats m.pairs)) in
    (
      all_in.arena,
      all_in.result,
      (all_in.seats ∙ ap (λ (xs : List AgentId). a.seats ++ xs) (joined-pair_seats m.pairs)),
      omega (arith, all_in.count, length-pair_seats m.pairs),
    )
