-- ===== src/Games/Matching/Fixed.antt =====
-- What the check of `FixedPlayers` lets pass.
use rs_social_simulation_too.Prelude.{ℕ, ◌<◌, ◌≡◌, ◌≢◌, refl, sym, ◌∙◌, ap, ◌↔◌, arith}
use rs_social_simulation_too.Prelude.{Bool, true, false, ltb, ◌==◌, Bool-cases, inl, inr}
use rs_social_simulation_too.Prelude.{
  Option, none, some, List, [], ◌∷◌, length, get_elem?, set, replicate,
}
use rs_social_simulation_too.Prelude.{◌∈◌, All, get_elem?-set, get_elem?-replicate, get_elem?_bound}
use rs_social_simulation_too.Prelude.{if_true, if_false, ==→≡, ==→≢}
use rs_social_simulation_too.Core.{AgentId}
use rs_social_simulation_too.Games.Matching.{ok, MatchContext, FixedPlayers, agents_of}
use rs_social_simulation_too.Games.Matching.{mark, mark_all, check_fixed}

-- No agent stands twice in the list.
abbrev pub Distinct : List AgentId → Type 0
Distinct [] = Unit
Distinct (x ∷ xs) = ¬ (x ∈ xs) × Distinct xs

abbrev Free : List Bool → AgentId → Type 0
Free seen a = get_elem? seen a ≡ some false

true_taken : some false ≡ some true → ⊥
true_taken e = cc

Free-before :
    (seen : List Bool) (x a : AgentId)
    → Free seen x
    → Free (set seen x true) a
    → Free seen a × (a ≢ x)
Free-before seen x a h k =
    let after = get_elem?-set seen x a true (get_elem?_bound seen x false h) in
    elim (Bool-cases (x == a)) [
      | inl e ↦
          let taken : some false ≡ some true = sym k ∙ after ∙ if_true _ _ e in
          absurd (true_taken taken)
      | inr e ↦ (sym (after ∙ if_false _ _ e) ∙ k, λ q. ==→≢ x a e (sym q))
    ]

Free-after :
    (seen : List Bool) (x a : AgentId)
    → Free seen x
    → Free seen a
    → a ≢ x
    → Free (set seen x true) a
Free-after seen x a h k ne =
    let after = get_elem?-set seen x a true (get_elem?_bound seen x false h) in
    elim (Bool-cases (x == a)) [
      | inl e ↦ absurd (ne (sym (==→≡ x a e)))
      | inr e ↦ after ∙ if_false _ _ e ∙ k
    ]

All-before :
    (seen : List Bool) (x : AgentId) (xs : List AgentId)
    → Free seen x
    → All (Free (set seen x true)) xs
    → All (Free seen) xs × ¬ (x ∈ xs)
All-before seen x [] h k = (tt, λ m. m)
All-before seen x (a ∷ xs) h (k, ks) =
    let rest = All-before seen x xs h ks in
    let first = Free-before seen x a h k in
    ((first.0, rest.0), λ m. elim m [ inl e ↦ first.1 (sym e) | inr n ↦ rest.1 n ])

All-after :
    (seen : List Bool) (x : AgentId) (xs : List AgentId)
    → Free seen x
    → All (Free seen) xs
    → ¬ (x ∈ xs)
    → All (Free (set seen x true)) xs
All-after seen x [] h k n = tt
All-after seen x (a ∷ xs) h (k, ks) n =
    (Free-after seen x a h k (λ e. n (inl (sym e))), All-after seen x xs h ks (λ m. n (inr m)))

by_mark :
    (seen : List Bool) (a : AgentId) (agents : List AgentId) (o : Option Bool)
    → get_elem? seen a ≡ o
    → ((mark_all (set seen a true) agents ≡ ok tt)
        ↔ (All (Free (set seen a true)) agents × Distinct agents))
    → (mark o a (mark_all (set seen a true) agents) ≡ ok tt)
      ↔ (All (Free seen) (a ∷ agents) × Distinct (a ∷ agents))
by_mark seen a agents none e ih = (λ h. cc, λ f. let free = f.0.0 in cc)
by_mark seen a agents (some true) e ih = (λ h. cc, λ f. let free = f.0.0 in cc)
by_mark seen a agents (some false) e ih = (
  (λ h. let f = ih.0 h in let b = All-before seen a agents e f.0 in ((e, b.0), (b.1, f.1))),
  (λ f. ih.1 (All-after seen a agents e f.0.1 f.1.0, f.1.1)),
)

mark_all_iff :
    (agents : List AgentId) (seen : List Bool)
    → (mark_all seen agents ≡ ok tt) ↔ (All (Free seen) agents × Distinct agents)
unfolding mark_all
mark_all_iff [] seen = (λ e. (tt, tt), λ h. refl)
mark_all_iff (a ∷ agents) seen =
    by_mark seen a agents (get_elem? seen a) refl (mark_all_iff agents (set seen a true))

known : (n a : ℕ) → Free (replicate n false) a ↔ (a < n)
known n a =
    let read = get_elem?-replicate n a false in
    elim (Bool-cases (ltb a n)) [
      | inl e ↦ (λ h. ground arith, λ h. read ∙ if_true _ _ e)
      | inr e ↦ (
        (λ h.
            let missing : some false ≡ none = sym h ∙ read ∙ if_false _ _ e in
            absurd (nothing_read missing)),
        (λ h. absurd (ground arith)),
      )
    ]
  where
    nothing_read : some false ≡ none → ⊥
    nothing_read e = cc

All-known : (n : ℕ) (xs : List AgentId) → All (Free (replicate n false)) xs ↔ All (λ a. a < n) xs
All-known n [] = (λ h. tt, λ h. tt)
All-known n (x ∷ xs) = (
  (λ (h, hs). ((known n x).0 h, (All-known n xs).0 hs)),
  (λ (h, hs). ((known n x).1 h, (All-known n xs).1 hs)),
)

-- In a game of two roles, the check of `FixedPlayers` passes exactly if every agent of the pairs is
-- one of the context's, numbered from zero, and none stands in the pairs twice.
pub check_fixed_iff :
    (m : FixedPlayers) (ctx : MatchContext)
    → ctx.n_roles ≡ 2
    → (check_fixed m ctx ≡ ok tt)
      ↔ (All (λ a. a < length ctx.ids) (agents_of m.pairs) × Distinct (agents_of m.pairs))
unfolding check_fixed
check_fixed_iff m ctx two =
    let n : ℕ = length ctx.ids in
    let agents = agents_of m.pairs in
    let marked = mark_all_iff agents (replicate n false) in
    let pass : check_fixed m ctx ≡ mark_all (replicate n false) agents =
      if_true _ _ (ap (λ (r : ℕ). r == 2) two) in
    (
      (λ e. let f = marked.0 (sym pass ∙ e) in ((All-known n agents).0 f.0, f.1)),
      (λ f. pass ∙ marked.1 ((All-known n agents).1 f.0, f.1)),
    )
