-- ===== src/Games/Arena/Laws.antt =====
-- What the arena holds after each push.
use rs_social_simulation_too.Prelude.{ℕ, ◌+◌, ◌*◌, ◌≤◌, ◌<◌, ◌≡◌, ◌≢◌, refl, sym, ◌∙◌}
use rs_social_simulation_too.Prelude.{ap, arith, ◌&&◌, leb, ◌==◌}
use rs_social_simulation_too.Prelude.{Bool-cases, inl, inr, if_true, ==→≡, ==→≢, leb→le}
use rs_social_simulation_too.Prelude.{Option, none, some, List, [], ◌∷◌, ◌++◌, length}
use rs_social_simulation_too.Prelude.{replicate, length-append, length-replicate, slice-append_left}
use rs_social_simulation_too.Prelude.{
  slice-append_right, get_elem?-append_left, get_elem?-append_last,
}
use rs_social_simulation_too.Core.{AgentId}
use rs_social_simulation_too.Games.Arena.{Credit, PlayArena, PushReply, pushed}
use rs_social_simulation_too.Games.Arena.{wrong_seats, too_many, u32_max, get_range, n_encounters}
use rs_social_simulation_too.Games.Arena.{encounter, actions_of, payoffs_of, push}

module _ {T : Type 0} where
  get_range-append_left :
      (s e : ℕ) (xs ys : List T)
      → s ≤ e
      → e ≤ length xs
      → get_range (xs ++ ys) s e ≡ get_range xs s e
  get_range-append_left s e xs ys h k =
      if_true {b = leb s e && leb e (length (xs ++ ys))} _ none
        (ground (arith, length-append xs ys))
      ∙ ap some (slice-append_left s e xs ys k)
      ∙ sym (if_true {b = leb s e && leb e (length xs)} _ none (ground arith))

  get_range-append_right :
      (s e : ℕ) (xs ys : List T)
      → s ≡ length xs
      → e ≡ length xs + length ys
      → get_range (xs ++ ys) s e ≡ some ys
  get_range-append_right s e xs ys h k =
      if_true {b = leb s e && leb e (length (xs ++ ys))} _ none
        (ground (arith, length-append xs ys))
      ∙ ap some (slice-append_right s e xs ys h k)

one_more : (c n : ℕ) → (c + 1) * n ≡ c * n + n
one_more c n = grind arith

row_end : (j c n : ℕ) → j < c → j * n + n ≤ c * n
row_end j c n h = grind arith

module _ {A F : Type 0} where
  -- Every flat list has an entry for each seat of each encounter.
  pub record IsValid (a : PlayArena A F) : Type 0 where
    pub seats : length a.seats ≡ n_encounters a * a.n_roles
    pub actions : length a.actions ≡ n_encounters a * a.n_roles
    pub payoffs : length a.payoffs ≡ n_encounters a * a.n_roles

  -- `b` is `a` with one more encounter, undecided and unpaid, and the earlier ones as they were.
  pub record Extended (nothing : F) (a b : PlayArena A F) (seats : List AgentId) (credit : Credit)
      : Type 0 where
    pub valid : IsValid b
    pub roles : b.n_roles ≡ a.n_roles
    pub count : n_encounters b ≡ n_encounters a + 1
    pub newest :
        encounter b (n_encounters a)
        ≡ some (record { id = n_encounters a; seats = seats; credit = credit })
    pub undecided : actions_of b (n_encounters a) ≡ some (replicate a.n_roles none)
    pub unpaid : payoffs_of b (n_encounters a) ≡ some (replicate a.n_roles nothing)
    pub earlier :
        (j : ℕ)
        → j < n_encounters a
        → (encounter b j ≡ encounter a j)
          × (actions_of b j ≡ actions_of a j)
          × (payoffs_of b j ≡ payoffs_of a j)

  pub data Pushes (nothing : F) (a : PlayArena A F) (seats : List AgentId) (credit : Credit)
      : PushReply × PlayArena A F → Type 0 where
    refused_seats :
        length seats ≢ a.n_roles
        → Pushes nothing a seats credit (wrong_seats (length seats) a.n_roles, a)
    refused_count :
        length seats ≡ a.n_roles
        → u32_max < n_encounters a
        → Pushes nothing a seats credit (too_many, a)
    done :
        (b : PlayArena A F)
        → n_encounters a ≤ u32_max
        → Extended nothing a b seats credit
        → Pushes nothing a seats credit (pushed (n_encounters a), b)

  module _ (nothing : F) (a : PlayArena A F) (seats : List AgentId) (credit : Credit) where
    abbrev extended : PlayArena A F
    extended = record a {
      seats = a.seats ++ seats;
      credit = a.credit ++ (credit ∷ []);
      actions = a.actions ++ replicate a.n_roles none;
      payoffs = a.payoffs ++ replicate a.n_roles nothing;
    }

    extended-Extended :
        IsValid a → length seats ≡ a.n_roles → Extended nothing a extended seats credit
    unfolding encounter actions_of payoffs_of
    extended-Extended v h =
        let c : ℕ = length a.credit in
        let n : ℕ = a.n_roles in
        let more : length (a.credit ++ (credit ∷ [])) ≡ c + 1 =
          length-append a.credit (credit ∷ []) in
        let size : length (a.credit ++ (credit ∷ [])) * n ≡ c * n + n =
          ap (λ (k : ℕ). k * n) more ∙ one_more c n in
        let blank = replicate {A = Option A} n none in
        let unpaid = replicate n nothing in
        let blank_size : length blank ≡ n = length-replicate n none in
        let unpaid_size : length unpaid ≡ n = length-replicate n nothing in
        record {
          valid = record {
            seats = omega (arith, v.seats, size, h, length-append a.seats seats);
            actions = omega (arith, v.actions, size, blank_size, length-append a.actions blank);
            payoffs = omega (arith, v.payoffs, size, unpaid_size, length-append a.payoffs unpaid);
          };
          roles = refl;
          count = more;
          newest =
              rw
                (
                  get_range-append_right (c * n) (c * n + n) a.seats seats (sym v.seats)
                      (omega (arith, v.seats, h)),
                  get_elem?-append_last a.credit credit c refl,
                )
                refl;
          undecided =
              get_range-append_right (c * n) (c * n + n) a.actions blank (sym v.actions)
                (omega (arith, v.actions, blank_size));
          unpaid =
              get_range-append_right (c * n) (c * n + n) a.payoffs unpaid (sym v.payoffs)
                (omega (arith, v.payoffs, unpaid_size));
          earlier = λ j k.
              let inside = row_end j c n k in
              (
                rw
                    (
                      get_range-append_left (j * n) (j * n + n) a.seats seats (omega arith)
                          (omega (arith, v.seats, inside)),
                      get_elem?-append_left a.credit (credit ∷ []) j k,
                    )
                    refl,
                get_range-append_left (j * n) (j * n + n) a.actions blank (omega arith)
                    (omega (arith, v.actions, inside)),
                get_range-append_left (j * n) (j * n + n) a.payoffs unpaid (omega arith)
                    (omega (arith, v.payoffs, inside)),
              );
        }

    -- On a valid arena `push` refuses a list of seats that is not one for each role, then an arena
    -- that already holds more than `u32::MAX` encounters, and leaves it as it was. Else it replies
    -- the number of encounters so far, under which the arena then gives back the seats and the
    -- credit, with no action chosen and a zero payoff for each seat; every earlier encounter stays
    -- as it was, and the arena stays valid.
    pub push-Pushes : IsValid a → Pushes nothing a seats credit (push nothing a seats credit)
    unfolding push
    push-Pushes v = elim (Bool-cases (length seats == a.n_roles)) [
      | inr e ↦ rw e (refused_seats (==→≢ _ _ e))
      | inl e ↦ elim (Bool-cases (leb (n_encounters a) u32_max)) [
        | inl f ↦ rw (e, f) (done extended (leb→le _ _ f) (extended-Extended v (==→≡ _ _ e)))
        | inr f ↦ rw (e, f) (refused_count (==→≡ _ _ e) (ground arith))
      ]
    ]
