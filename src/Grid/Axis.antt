-- ===== src/Grid/Axis.antt =====
-- One axis of the lattice: `wrap` is the Euclidean remainder, and the cells that an offset reaches
-- are those within its absolute value, by the separation that `Grid::distance` measures.
use native.Mathlib.Nat.{mod-lt, mod-eq_of_lt, mod-eq-sub-mod, mod-mod, add-mod_right, mod_self}
use native.Mathlib.Nat.{mod-add-mod, mul-mod_right, zero-mod, div-add-mod}
use rs_social_simulation_too.Prelude.{ℕ, suc, ◌+◌, ◌-◌, ◌%◌, ◌≤◌, ◌<◌, ◌≡◌, ◌∙◌, arith}
use rs_social_simulation_too.Prelude.{
  ap, sym, ◌*◌, ◌/◌, ==→≡, ltb, leb, ltb→lt, ◌==◌, if◌then◌else◌, Bool-cases, inl, inr,
}
use rs_social_simulation_too.Prelude.Int.{
  ℤ, pos, negsuc, ◌+ℤ◌, unsigned_abs, sub_ℕ, neg_part, pos_part,
}
use rs_social_simulation_too.Grid.{Boundary, fixed, toroidal, wrap, separation, abs_diff}

add_zero_part : (a n : ℕ) → pos a +ℤ pos n ≡ pos (a + n)
add_zero_part a n = ground arith

neg_add : (y n : ℕ) → y ≤ n → sub_ℕ 0 y +ℤ pos n ≡ pos (n - y)
neg_add y n h = ground arith

wrap_pos : (a n : ℕ) → wrap (pos a) n ≡ a % n
unfolding wrap
wrap_pos a n = rw (add_zero_part (a % n) n, add-mod_right, mod-mod)

wrap_negsuc : (a n : ℕ) → 0 < n → wrap (negsuc a) n ≡ (n - suc a % n) % n
unfolding wrap
wrap_negsuc a n h = rw (neg_add (suc a % n) n (omega (arith, mod-lt (suc a) h)))

-- The results, with the remainders worked out for a step of less than one round.
wrap_inside : (a n : ℕ) → a < n → wrap (pos a) n ≡ a
wrap_inside a n h = wrap_pos a n ∙ mod-eq_of_lt h

wrap_above : (a n : ℕ) → n ≤ a → a < n + n → wrap (pos a) n ≡ a - n
wrap_above a n h k = wrap_pos a n ∙ mod-eq-sub-mod h ∙ mod-eq_of_lt (omega arith)

wrap_below : (m n : ℕ) → m < n → wrap (negsuc m) n ≡ n - suc m
wrap_below m n h = elim (Bool-cases (suc m == n)) [
  | inl e ↦
      let whole : suc m % n ≡ 0 = ap (λ (k : ℕ). k % n) (==→≡ (suc m) n e) ∙ mod_self n in
      wrap_negsuc m n (omega arith)
      ∙ ap (λ (k : ℕ). (n - k) % n) whole
      ∙ ap (λ (k : ℕ). k % n) (omega arith)
      ∙ mod_self n
      ∙ omega (arith, ==→≡ (suc m) n e)
  | inr e ↦
      let part : suc m % n ≡ suc m = mod-eq_of_lt (ground arith) in
      wrap_negsuc m n (omega arith) ∙ ap (λ (k : ℕ). (n - k) % n) part ∙ mod-eq_of_lt (omega arith)
]

-- A wrapped coordinate lies on the axis.
pub wrap-lt : (v : ℤ) (n : ℕ) → 0 < n → wrap v n < n
wrap-lt (pos a) n h = rw (wrap_pos a n) (mod-lt a h)
wrap-lt (negsuc a) n h = rw (wrap_negsuc a n h) (mod-lt (n - suc a % n) h)

shift : (a n : ℕ) → 0 < n → n - suc a % n + suc a ≡ n * suc (suc a / n)
shift a n h = omega (arith, div-add-mod (suc a) n, mod-lt (suc a) h)

-- The wrapped coordinate is congruent to the given one modulo the length of the axis: they differ
-- by a multiple of it.
pub wrap_congruent : (v : ℤ) (n : ℕ) → 0 < n → (wrap v n + neg_part v) % n ≡ pos_part v % n
wrap_congruent (pos a) n h = rw wrap_pos (ap (λ (k : ℕ). k % n) (omega arith) ∙ mod-mod a n)
wrap_congruent (negsuc a) n h =
    rw (wrap_negsuc a n h, mod-add-mod)
      (ap (λ (k : ℕ). k % n) (shift a n h) ∙ mul-mod_right n (suc (suc a / n)) ∙ sym (zero-mod n))

-- The offset `d` moves coordinate `a` of an axis of length `n` to `b`.
unfoldable pub Reaches : Boundary → ℕ → ℤ → ℕ → ℕ → Type 0
Reaches fixed a d b n = (pos a +ℤ d ≡ pos b) × (b < n)
Reaches toroidal a d b n = wrap (pos a +ℤ d) n ≡ b

pub Reaches-lt : (k : Boundary) (a : ℕ) (d : ℤ) (b n : ℕ) → 0 < n → Reaches k a d b n → b < n
unfolding Reaches
Reaches-lt fixed a d b n h r = r.1
Reaches-lt toroidal a d b n h r = rw (← r) (wrap-lt (pos a +ℤ d) n h)

add_negsuc_inside : (a m : ℕ) → m < a → pos a +ℤ negsuc m ≡ pos (a - suc m)
add_negsuc_inside a m h = ground arith

add_negsuc_outside : (a m : ℕ) → a ≤ m → pos a +ℤ negsuc m ≡ negsuc (m - a)
add_negsuc_outside a m h = ground arith

add_direct : (a b : ℕ) → pos a +ℤ sub_ℕ b a ≡ pos b
add_direct a b = ground arith

add_backward : (a b n : ℕ) → b < n → pos a +ℤ sub_ℕ b (a + n) ≡ negsuc (n - b - 1)
add_backward a b n h = ground arith

add_forward : (a b n : ℕ) → a < n → pos a +ℤ sub_ℕ (b + n) a ≡ pos (b + n)
add_forward a b n h = ground arith

-- An offset covers at least the separation of the cells that it joins.
pub separation-le :
    (k : Boundary) (a : ℕ) (d : ℤ) (b n : ℕ)
    → a < n
    → Reaches k a d b n
    → separation k a b n ≤ unsigned_abs d
unfolding Reaches
separation-le fixed a (pos m) b n h r = ground arith
separation-le fixed a (negsuc m) b n h r = ground arith
separation-le toroidal a (pos m) b n h r =
    let r' : wrap (pos (a + m)) n ≡ b = rw (add_zero_part a m) at r in
    let inside : b < n = rw (← r') (wrap-lt (pos (a + m)) n (omega arith)) in
    ground (arith, wrap_inside (a + m) n, wrap_above (a + m) n)
separation-le toroidal a (negsuc m) b n h r = elim (Bool-cases (ltb m a)) [
  | inl e ↦
      let r' : wrap (pos (a - suc m)) n ≡ b = rw (add_negsuc_inside a m (ltb→lt m a e)) at r in
      let inside : b < n = rw (← r') (wrap-lt (pos (a - suc m)) n (omega arith)) in
      ground (arith, wrap_inside (a - suc m) n)
  | inr e ↦
      let r' : wrap (negsuc (m - a)) n ≡ b = rw (add_negsuc_outside a m (ground arith)) at r in
      let inside : b < n = rw (← r') (wrap-lt (negsuc (m - a)) n (omega arith)) in
      ground (arith, wrap_below (m - a) n)
]

-- The offset by the shorter way round.
shortest : Boundary → ℕ → ℕ → ℕ → ℤ
shortest fixed a b n = sub_ℕ b a
shortest toroidal a b n =
    if leb (separation fixed a b n + separation fixed a b n) n
    then sub_ℕ b a
    else if ltb a b
    then sub_ℕ b (a + n)
    else sub_ℕ (b + n) a

shortest-Reaches : (a b n : ℕ) → a < n → b < n → Reaches toroidal a (shortest toroidal a b n) b n
unfolding Reaches shortest
shortest-Reaches a b n h l = elim (Bool-cases (leb (abs_diff a b + abs_diff a b) n)) [
  | inl e ↦ rw (e, add_direct a b) (wrap_inside b n l)
  | inr e ↦ elim (Bool-cases (ltb a b)) [
    | inl f ↦ rw (e, f, add_backward a b n l) (wrap_below (n - b - 1) n (omega arith) ∙ omega arith)
    | inr f ↦
        rw (e, f, add_forward a b n h)
          (wrap_above (b + n) n (omega arith) (omega arith) ∙ omega arith)
  ]
]

-- Two cells of an axis are joined by an offset of exactly their separation.
pub separation_reached :
    (k : Boundary) (a b n : ℕ)
    → a < n
    → b < n
    → (d : ℤ) × Reaches k a d b n × (unsigned_abs d ≡ separation k a b n)
unfolding Reaches shortest
separation_reached fixed a b n h l = (shortest fixed a b n, (ground arith, l), ground arith)
separation_reached toroidal a b n h l =
    (shortest toroidal a b n, shortest-Reaches a b n h l, ground arith)
