-- ===== src/Grid/Index/Exact.antt =====
-- The two tables of the index stay in agreement under its operations.
use rs_social_simulation_too.Prelude.{ℕ, ◌≡◌, ◌≢◌, sym, ◌∙◌, arith, true, false, ◌==◌}
use rs_social_simulation_too.Prelude.{if◌then◌else◌, Bool-cases, Option, none, some, inl, inr}
use rs_social_simulation_too.Prelude.{==→≡, ==→≢, ==_refl, ap, subst}
use rs_social_simulation_too.Prelude.Sort.Numbers.{pair_eq, pair_eq_sound, pair_eq_refl}
use rs_social_simulation_too.Grid.{Cell, len}
use rs_social_simulation_too.Grid.Neighbors.{InGrid}
use rs_social_simulation_too.Grid.Index.{GridIndex, AgentId, Reply, place, occupant}
use rs_social_simulation_too.Grid.Index.{position, move_to}
use rs_social_simulation_too.Grid.Index.Invariant.{IsValid, IsExact, Placed, Moved}
use rs_social_simulation_too.Grid.Index.Place.{Places, place-Places}
use rs_social_simulation_too.Grid.Index.Move.{Moves, move_to-Moves}

-- What a reply leaves has a property.
abbrev pub After : (GridIndex → Type 0) → Option (Reply × GridIndex) → Type 0
After P none = ⊥
After P (some (reply, x)) = P x

pub some_inj {ℓ} : {A : Type ℓ} {a b : A} → some a ≡ some b → a ≡ b
some_inj h = cc

-- Cells with different contents differ.
pub cells_differ :
    (x : GridIndex) (p q : Cell) (o o' : Option AgentId)
    → occupant x p.0 p.1 ≡ some o
    → occupant x q.0 q.1 ≡ some o'
    → o' ≢ o
    → pair_eq q p ≡ false
cells_differ x p q o o' ep eq ne = elim (Bool-cases (pair_eq q p)) [
  | inl e ↦
      let same : occupant x q.0 q.1 ≡ occupant x p.0 p.1 =
        ap (λ (c : Cell). occupant x c.0 c.1) (pair_eq_sound q p e) in
      absurd (ne (some_inj (sym eq ∙ same ∙ ep)))
  | inr e ↦ e
]

pub some-ne-none : {j : AgentId} → some j ≢ none
some-ne-none e = cc

module _ (x : GridIndex) (id : AgentId) (p : Cell) (x' : GridIndex) (h : InGrid x.grid p) where
  -- The recorded cell of any agent holds it, after either operation.
  held_after :
      ((j : AgentId) → position x' j ≡ (if j == id then some p else position x j))
      → occupant x' p.0 p.1 ≡ some (some id)
      → ((j : AgentId) (q : Cell)
          → j ≢ id
          → position x j ≡ some q
          → InGrid x.grid q × (occupant x' q.0 q.1 ≡ some (some j)))
      → (j : AgentId) (q : Cell) → position x' j ≡ some q
      → InGrid x.grid q × (occupant x' q.0 q.1 ≡ some (some j))
  held_after agents seat others j q at = elim (Bool-cases (j == id)) [
    | inl e ↦
        let here : position x' j ≡ some p = rw e at (agents j) in
        let same : p ≡ q = some_inj (sym here ∙ at) in rw (← same, ==→≡ j id e) (h, seat)
    | inr e ↦
        let there : position x' j ≡ position x j = rw e at (agents j) in
        others j q (==→≢ j id e) (sym there ∙ at)
  ]

  pub Placed-IsValid : occupant x p.0 p.1 ≡ some none → IsValid x → Placed x id p x' → IsValid x'
  Placed-IsValid vacant v m = record {
    sized = m.sized ∙ v.sized ∙ ap len (sym m.grid);
    placed = λ j q at.
        let held = held_after m.at_agent seat others j q at in
        (subst (λ g. InGrid g q) (sym m.grid) held.0, held.1);
  }
    where
      seat : occupant x' p.0 p.1 ≡ some (some id)
      seat = rw (m.at_cell p h, pair_eq_refl p)

      others :
          (j : AgentId) (q : Cell)
          → j ≢ id
          → position x j ≡ some q
          → InGrid x.grid q × (occupant x' q.0 q.1 ≡ some (some j))
      others j q ne at =
          let was = v.placed j q at in
          (
            was.0,
            m.at_cell q was.0
                ∙ rw (cells_differ x p q none (some j) vacant was.1 some-ne-none) was.1,
          )

  Moved-IsValid :
      (old : Cell)
      → position x id ≡ some old
      → occupant x p.0 p.1 ≡ some none
      → IsValid x
      → Moved x id old p x'
      → IsValid x'
  Moved-IsValid old from vacant v m = record {
    sized = m.sized ∙ v.sized ∙ ap len (sym m.grid);
    placed = λ j q at.
        let held = held_after m.at_agent seat others j q at in
        (subst (λ g. InGrid g q) (sym m.grid) held.0, held.1);
  }
    where
      seat : occupant x' p.0 p.1 ≡ some (some id)
      seat = rw (m.at_cell p h, pair_eq_refl p)

      others :
          (j : AgentId) (q : Cell)
          → j ≢ id
          → position x j ≡ some q
          → InGrid x.grid q × (occupant x' q.0 q.1 ≡ some (some j))
      others j q ne at =
          let was = v.placed j q at in
          let home = (v.placed id old from).1 in
          (
            was.0,
            m.at_cell q was.0
                ∙ rw
                    (
                      cells_differ x p q none (some j) vacant was.1 some-ne-none,
                      cells_differ x old q (some id) (some j) home was.1 (λ e. ne (some_inj e)),
                    )
                    was.1,
          )

  pub Placed-IsExact :
      position x id ≡ none
      → occupant x p.0 p.1 ≡ some none
      → IsExact x
      → Placed x id p x'
      → IsExact x'
  Placed-IsExact new_agent vacant v m = record {
    valid = Placed-IsValid vacant v.valid m;
    seated = λ j q k at. seat j q (subst (λ g. InGrid g q) m.grid k) at;
  }
    where
      seat :
          (j : AgentId) (q : Cell)
          → InGrid x.grid q
          → occupant x' q.0 q.1 ≡ some (some j)
          → position x' j ≡ some q
      seat j q k at = elim (Bool-cases (pair_eq q p)) [
        | inl e ↦
            let holds : occupant x' q.0 q.1 ≡ some (some id) = rw e at (m.at_cell q k) in
            let same : j ≡ id = some_inj (some_inj (sym at ∙ holds)) in
            rw (m.at_agent j, same, ==_refl id, pair_eq_sound q p e)
        | inr e ↦
            let kept : occupant x' q.0 q.1 ≡ occupant x q.0 q.1 = rw e at (m.at_cell q k) in
            let was : position x j ≡ some q = v.seated j q k (sym kept ∙ at) in
            ground (arith, m.at_agent j)
      ]

  pub Moved-IsExact :
      (old : Cell)
      → position x id ≡ some old
      → occupant x p.0 p.1 ≡ some none
      → IsExact x
      → Moved x id old p x'
      → IsExact x'
  Moved-IsExact old from vacant v m = record {
    valid = Moved-IsValid old from vacant v.valid m;
    seated = λ j q k at. seat j q (subst (λ g. InGrid g q) m.grid k) at;
  }
    where
      seat :
          (j : AgentId) (q : Cell)
          → InGrid x.grid q
          → occupant x' q.0 q.1 ≡ some (some j)
          → position x' j ≡ some q
      seat j q k at = elim (Bool-cases (pair_eq q p)) [
        | inl e ↦
            let holds : occupant x' q.0 q.1 ≡ some (some id) = rw e at (m.at_cell q k) in
            let same : j ≡ id = some_inj (some_inj (sym at ∙ holds)) in
            rw (m.at_agent j, same, ==_refl id, pair_eq_sound q p e)
        | inr e ↦ elim (Bool-cases (pair_eq q old)) [
          | inl f ↦ let empty : occupant x' q.0 q.1 ≡ some none = rw (e, f) at (m.at_cell q k) in cc
          | inr f ↦
              let kept : occupant x' q.0 q.1 ≡ occupant x q.0 q.1 = rw (e, f) at (m.at_cell q k) in
              let was : position x j ≡ some q = v.seated j q k (sym kept ∙ at) in
              let other : (j == id) ≡ false = elim (Bool-cases (j == id)) [
                | inl g ↦
                    let home : old ≡ q = some_inj (sym from ∙ rw (==→≡ j id g) at was) in
                    let bad : pair_eq q old ≡ true = rw home (pair_eq_refl q) in cc
                | inr g ↦ g
              ] in
              rw (m.at_agent j, other) was
        ]
      ]

-- On a valid index `place` and `move_to` leave a valid index, whatever they reply.
pub place-move_to-IsValid :
    (x : GridIndex) (id : AgentId) (r c : ℕ)
    → IsValid x
    → After IsValid (place x id r c) × After IsValid (move_to x id r c)
place-move_to-IsValid x id r c v = (
  after_place (place x id r c) (place-Places x id r c v),
  after_move (move_to x id r c) (move_to-Moves x id r c v),
)
  where
    after_place : (o : Option (Reply × GridIndex)) → Places x id r c o → After IsValid o
    after_place _ (Places.off_grid _) = v
    after_place _ (Places.taken j _ _) = v
    after_place _ (Places.done x' h vacant m) = Placed-IsValid x id (r, c) x' h vacant v m

    after_move : (o : Option (Reply × GridIndex)) → Moves x id r c o → After IsValid o
    after_move _ (Moves.unknown _) = v
    after_move _ (Moves.off_grid old _ _) = v
    after_move _ (Moves.taken old j _ _ _ _) = v
    after_move _ (Moves.stays old _ _ _) = v
    after_move _ (Moves.done old x' from h vacant m) =
        Moved-IsValid x id (r, c) x' h old from vacant v m
