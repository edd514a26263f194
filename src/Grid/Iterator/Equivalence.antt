-- ===== src/Grid/Iterator/Equivalence.antt =====
-- The iterator over the neighbours against `neighbors`: the arrays never overflow, and the iterator
-- yields the same cells in the same order.
use rs_social_simulation_too.Prelude.{
  ℕ, zero, suc, ◌+◌, ◌-◌, ◌≤◌, ◌<◌, ◌≡◌, refl, sym, ◌∙◌, ap, arith,
}
use rs_social_simulation_too.Prelude.{true, false, not, ltb}
use rs_social_simulation_too.Prelude.{if_false, Bool-cases, inl, inr, subst}
use rs_social_simulation_too.Prelude.{
  Option, some, List, [], ◌∷◌, ◌++◌, length, get_elem?, take, drop,
}
use rs_social_simulation_too.Prelude.Int.{ℤ}
use rs_social_simulation_too.Prelude.Sort.{sort, insert, dedup, dedup_after}
use rs_social_simulation_too.Prelude.Sort.Numbers.{pair_ord, pair_eq, pair_eq_sound, pair_le}
use rs_social_simulation_too.Grid
use rs_social_simulation_too.Grid.{
  Grid, Cell, Neighborhood, moore, von_neumann, is_empty, is_center,
}
use rs_social_simulation_too.Grid.{resolve, offsets, neighbors, neighbors_radius, push_cell}
use rs_social_simulation_too.Grid.Iterator.{Buffer8, empty, then_do}
use rs_social_simulation_too.Grid.Iterator.{scan_rows, steps, sort_used, copy, keep_if, copy_from}
use rs_social_simulation_too.Grid.Iterator.{NeighborsIter, new, next, drain, remaining}
use rs_social_simulation_too.Grid.Iterator.Buffer.{
  Holds, empty-Holds, Keeps, push-Keeps, same-Keeps,
}
use mathlib.Core.List.{append-nil, append_assoc}
use rs_social_simulation_too.Grid.Iterator.Scan.{scan-Keeps}

-- What reading a list from a place on gives.
abbrev Reads : List Cell → ℕ → List Cell → Type 0
Reads items i xs = (k : ℕ) → k < length xs → get_elem? items (i + k) ≡ get_elem? xs k

Reads-head :
    (items : List Cell) (i : ℕ) (x : Cell) (xs : List Cell)
    → Reads items i (x ∷ xs)
    → get_elem? items i ≡ some x
Reads-head items i x xs r = ap (get_elem? items) (omega arith) ∙ r 0 (omega arith)

pair_eq_sym : (p q : Cell) → pair_eq p q ≡ pair_eq q p
pair_eq_sym (a, b) (c, d) = ground arith

copy_round :
    (tmp buf : Buffer8) (i : ℕ) (x y : Cell)
    → get_elem? tmp.items i ≡ some x
    → get_elem? tmp.items (suc i) ≡ some y
    → copy tmp (suc i) buf ≡ keep_if y buf (not (pair_eq x y))
copy_round tmp buf i x y h k =
    let before : get_elem? tmp.items (suc i - 1) ≡ some x =
      ap (get_elem? tmp.items) (omega arith) ∙ h in
    rw (k, before, pair_eq_sym y x)

copy_rest :
    (tmp : Buffer8) (i j : ℕ) (x : Cell) (rest : List Cell) (buf : Buffer8) (out : List Cell)
    → j ≡ suc i
    → Reads tmp.items i (x ∷ rest)
    → Holds buf out
    → length out ≤ j
    → j + length rest ≤ 8
    → Keeps (copy_from tmp j (length rest) buf) (out ++ dedup_after pair_ord x rest) 8
unfolding copy_from dedup_after
copy_rest tmp i j x [] buf out s r h l k = rw append-nil (same-Keeps buf out 8 h (omega arith))
copy_rest tmp i j x (y ∷ rest) buf out s r h l k =
    let tail : Reads tmp.items j (y ∷ rest) =
      λ n b. ap (get_elem? tmp.items) (omega arith) ∙ r (suc n) (omega arith) in
    let first = Reads-head tmp.items i x (y ∷ rest) r in
    let second : get_elem? tmp.items (suc i) ≡ some y =
      ap (get_elem? tmp.items) (sym s) ∙ Reads-head tmp.items j y rest tail in
    let round : copy tmp j buf ≡ keep_if y buf (not (pair_eq x y)) =
      ap (λ (n : ℕ). copy tmp n buf) s ∙ copy_round tmp buf i x y first second in
    elim (Bool-cases (pair_eq x y)) [
      | inl e ↦
          let same = pair_eq_sound x y e in
          rw (round, e, same)
            (copy_rest tmp j (j + 1) y rest buf out (omega arith) tail h (omega arith)
              (omega arith))
      | inr e ↦
          let added = push-Keeps y buf out j h l (omega arith) in
          rw (round, e, added.result, ← append_assoc out (y ∷ []) (dedup_after pair_ord y rest))
            (copy_rest tmp j (j + 1) y rest added.buffer (out ++ (y ∷ [])) (omega arith) tail
              added.holds added.few (omega arith))
    ]

length-insert : (x : Cell) (xs : List Cell) → length (insert pair_ord x xs) ≡ suc (length xs)
unfolding insert
length-insert x [] = refl
length-insert x (y ∷ xs) = elim (Bool-cases (pair_le x y)) [
  | inl e ↦ rw e
  | inr e ↦ rw e (ap suc (length-insert x xs))
]

length-sort : (xs : List Cell) → length (sort pair_ord xs) ≡ length xs
unfolding sort
length-sort [] = refl
length-sort (x ∷ xs) = length-insert x (sort pair_ord xs) ∙ ap suc (length-sort xs)

get_elem?-append :
    (xs ys : List Cell) (k : ℕ) → k < length xs → get_elem? (xs ++ ys) k ≡ get_elem? xs k
get_elem?-append [] ys k h = absurd (omega arith)
get_elem?-append (x ∷ xs) ys zero h = refl
get_elem?-append (x ∷ xs) ys (suc k) h = get_elem?-append xs ys k (omega arith)

get_elem?-take : (n : ℕ) (xs : List Cell) (k : ℕ) → k < n → get_elem? (take n xs) k ≡ get_elem? xs k
get_elem?-take zero xs k h = absurd (omega arith)
get_elem?-take (suc n) [] k h = refl
get_elem?-take (suc n) (x ∷ xs) zero h = refl
get_elem?-take (suc n) (x ∷ xs) (suc k) h = get_elem?-take n xs k (omega arith)

copy_all :
    (tmp : Buffer8) (xs : List Cell)
    → Reads tmp.items 0 xs
    → length xs ≤ 8
    → Keeps (copy_from tmp 0 (length xs) empty) (dedup pair_ord xs) 8
unfolding copy_from dedup
copy_all tmp [] r l = same-Keeps empty [] 8 empty-Holds (omega arith)
copy_all tmp (x ∷ rest) r l =
    let added = push-Keeps x empty [] 0 empty-Holds (omega arith) (omega arith) in
    rw (Reads-head tmp.items 0 x rest r, added.result)
      (copy_rest tmp 0 (0 + 1) x rest added.buffer (x ∷ []) (omega arith) r added.holds
        (omega arith) (omega arith))

-- Draining the iterator yields the cells in use from its place on.
drain_lem :
    (b : Buffer8) (i : ℕ) (xs : List Cell)
    → Reads b.items i xs
    → i + length xs ≡ b.used
    → drain (suc (length xs)) (record { buffer = b; at = i }) ≡ some xs
unfolding drain next
drain_lem b i [] r h = let over : ltb i b.used ≡ false = ground arith in rw over
drain_lem b i (x ∷ xs) r h =
    let under : ltb i b.used ≡ true = ground arith in
    let tail : Reads b.items (i + 1) xs =
      λ n k. ap (get_elem? b.items) (omega arith) ∙ r (suc n) (omega arith) in
    rw (under, Reads-head b.items i x xs r, drain_lem b (i + 1) xs tail (omega arith))

-- The iterator is made without a panic, announces as many cells as the list has, and gives them.
pub record Yields (o : Option NeighborsIter) (out : List Cell) : Type 0 where
  pub iterator : NeighborsIter
  pub made : o ≡ some iterator
  pub announced : remaining iterator ≡ length out
  pub seen : drain (suc (length out)) iterator ≡ some out

Yields-of :
    (o : Option Buffer8) (out : List Cell) (n : ℕ)
    → Keeps o out n
    → Yields (then_do o λ buf. some (record { buffer = buf; at = 0 })) out
Yields-of o out n k = record {
  iterator = record { buffer = k.buffer; at = 0 };
  made = rw k.result;
  announced = omega (arith, k.holds.count);
  seen =
      drain_lem k.buffer 0 out
        (λ i h.
          ap (get_elem? k.buffer.items) (omega arith)
          ∙ sym (get_elem?-take k.buffer.used k.buffer.items i (omega (arith, k.holds.count)))
          ∙ ap (λ (l : List Cell). get_elem? l i) k.holds.listed)
        (omega (arith, k.holds.count));
}

sorted_copy :
    (o : Option Buffer8) (out : List Cell)
    → Keeps o out 8
    → Keeps
        (then_do o λ tmp. copy_from (sort_used tmp) 0 tmp.used empty)
        (dedup pair_ord (sort pair_ord out))
        8
sorted_copy o out k =
    let xs = sort pair_ord out in
    let size : length xs ≡ k.buffer.used = omega (arith, length-sort out, k.holds.count) in
    let reads : Reads (sort_used k.buffer).items 0 xs = λ i h.
      ap (get_elem? (sort_used k.buffer).items) (omega arith)
      ∙ ap (λ (l : List Cell). get_elem? (sort pair_ord l ++ drop k.buffer.used k.buffer.items) i)
          k.holds.listed
      ∙ get_elem?-append xs (drop k.buffer.used k.buffer.items) i h in
    rw k.result (
      subst (λ n. Keeps (copy_from (sort_used k.buffer) 0 n empty) (dedup pair_ord xs) 8) size
        (copy_all (sort_used k.buffer) xs reads (omega (arith, length-sort out, k.few))))

same_offsets : offsets 1 ≡ steps
unfolding offsets
same_offsets = refl

module _ (g : Grid) (p : Cell) (nbhd : Neighborhood) where
  abbrev collected : Option Buffer8
  collected =
      then_do (scan_rows g p nbhd steps steps (some empty))
        λ tmp. copy_from (sort_used tmp) 0 tmp.used empty

  new_nonempty :
      is_empty g ≡ false
      → new g p nbhd ≡ then_do collected λ buf. some (record { buffer = buf; at = 0 })
  unfolding new
  new_nonempty e =
      ap (λ (b : Option Buffer8). then_do b λ buf. some (record { buffer = buf; at = 0 }))
        (if_false _ _ e)

  neighbors_nonempty :
      is_empty g ≡ false
      → neighbors g p nbhd
        ≡ dedup pair_ord (sort pair_ord (Grid.scan_rows g p nbhd 1 steps steps []))
  unfolding neighbors neighbors_radius
  neighbors_nonempty e =
      if_false _ _ e
      ∙ ap (λ (os : List ℤ). dedup pair_ord (sort pair_ord (Grid.scan_rows g p nbhd 1 os os [])))
          same_offsets

-- `neighbors_iter` yields what `neighbors` lists: for every lattice, every cell and either
-- neighbourhood, no array of eight overflows, the announced size is the number of the neighbours,
-- and the iterator gives exactly the neighbours, in the list's order, and then ends.
pub neighbors_iter-neighbors :
    (g : Grid) (p : Cell) (nbhd : Neighborhood) → Yields (new g p nbhd) (neighbors g p nbhd)
unfolding new neighbors neighbors_radius
neighbors_iter-neighbors g p nbhd = elim (Bool-cases (is_empty g)) [
  | inl e ↦ rw e (Yields-of (some empty) [] 0 (same-Keeps empty [] 0 empty-Holds (omega arith)))
  | inr e ↦
      subst (λ o. Yields o (neighbors g p nbhd)) (sym (new_nonempty g p nbhd e))
        (subst (Yields (then_do (collected g p nbhd) λ buf. some (record { buffer = buf; at = 0 })))
          (sym (neighbors_nonempty g p nbhd e))
          (Yields-of _ _ 8 (sorted_copy _ _ (scan-Keeps g p nbhd))))
]
