-- ===== src/Grid/Iterator.antt =====
-- `NeighborsIter` of crates/socsim-grid/src/lib.rs: the radius-1 neighbours, collected in arrays of
-- eight cells and then handed out one by one. `none` is a panic, an index past the eighth.
pub mod Buffer
pub mod Scan
pub mod Equivalence
use rs_social_simulation_too.Prelude.{
  ℕ, zero, suc, ◌+◌, ◌-◌, Bool, true, false, ◌||◌, not, ltb, leb,
}
use rs_social_simulation_too.Prelude.{◌==◌, if◌then◌else◌, Option, none, some, List, [], ◌∷◌, ◌++◌}
use rs_social_simulation_too.Prelude.{replicate, get_elem?, set, take, drop}
use rs_social_simulation_too.Prelude.Int.{ℤ, pos, negsuc, ◌+ℤ◌, unsigned_abs}
use rs_social_simulation_too.Prelude.Sort.{sort}
use rs_social_simulation_too.Prelude.Sort.Numbers.{pair_ord, pair_eq}
use rs_social_simulation_too.Grid.{
  Grid, Cell, Neighborhood, moore, von_neumann, is_empty, is_center,
}
use rs_social_simulation_too.Grid.{resolve}

-- An array of eight cells and the number of those in use.
pub record Buffer8 : Type 0 where
  pub items : List Cell
  pub used : ℕ

abbrev pub empty : Buffer8
empty = record { items = replicate 8 (0, 0); used = 0 }

unfoldable pub push : Cell → Buffer8 → Option Buffer8
push cell b =
    if ltb b.used 8
    then some (record { items = set b.items b.used cell; used = b.used + 1 })
    else none

-- The rest of a loop, unless it has panicked.
abbrev pub then_do : {A B : Type 0} → Option A → (A → Option B) → Option B
then_do none f = none
then_do (some a) f = f a

abbrev pub in_shape : Neighborhood → ℤ → ℤ → Bool
in_shape moore dr dc = true
in_shape von_neumann dr dc = leb (unsigned_abs dr + unsigned_abs dc) 1

module _ (g : Grid) (p : Cell) (nbhd : Neighborhood) where
  abbrev pub push_resolved : Option Cell → Buffer8 → Option Buffer8
  push_resolved none tmp = some tmp
  push_resolved (some cell) tmp = if pair_eq cell p then some tmp else push cell tmp

  -- One round of the two nested loops.
  unfoldable pub visit : ℤ → ℤ → Buffer8 → Option Buffer8
  unfolding push
  visit dr dc tmp =
      if is_center dr dc
      then some tmp
      else if not (in_shape nbhd dr dc)
      then some tmp
      else push_resolved (resolve g (pos p.0 +ℤ dr) (pos p.1 +ℤ dc)) tmp

  unfoldable pub scan_cols : ℤ → List ℤ → Option Buffer8 → Option Buffer8
  unfolding visit
  scan_cols dr [] tmp = tmp
  scan_cols dr (dc ∷ dcs) tmp = scan_cols dr dcs (then_do tmp (visit dr dc))

  unfoldable pub scan_rows : List ℤ → List ℤ → Option Buffer8 → Option Buffer8
  unfolding scan_cols
  scan_rows [] cs tmp = tmp
  scan_rows (dr ∷ drs) cs tmp = scan_rows drs cs (scan_cols dr cs tmp)

-- `tmp[..tmp_len].sort_unstable()`.
abbrev pub sort_used : Buffer8 → Buffer8
sort_used b = record b { items = sort pair_ord (take b.used b.items) ++ drop b.used b.items }

-- The test `i == 0 || tmp[i] != tmp[i - 1]`, for the two values read.
abbrev pub is_new : ℕ → Cell → Option Cell → Option Bool
is_new zero cell before = some true
is_new (suc i) cell none = none
is_new (suc i) cell (some before) = some (not (pair_eq cell before))

abbrev pub keep_if : Cell → Buffer8 → Bool → Option Buffer8
keep_if cell buf true = push cell buf
keep_if cell buf false = some buf

-- One round of the last loop.
abbrev pub copy : Buffer8 → ℕ → Buffer8 → Option Buffer8
copy tmp i buf =
    then_do (get_elem? tmp.items i)
      λ cell. then_do (is_new i cell (get_elem? tmp.items (i - 1))) (keep_if cell buf)

-- The loop over `i`, for the `n` last indices below `tmp_len`.
unfoldable pub copy_from : Buffer8 → ℕ → ℕ → Buffer8 → Option Buffer8
copy_from tmp i zero buf = some buf
copy_from tmp i (suc n) buf = then_do (copy tmp i buf) (copy_from tmp (i + 1) n)

abbrev pub steps : List ℤ
steps = negsuc 0 ∷ pos 0 ∷ pos 1 ∷ []

pub record NeighborsIter : Type 0 where
  pub buffer : Buffer8
  pub at : ℕ

-- `NeighborsIter::new`.
unfoldable pub new : Grid → Cell → Neighborhood → Option NeighborsIter
unfolding scan_rows copy_from
new g p nbhd =
    let filled =
      then_do (scan_rows g p nbhd steps steps (some empty))
        λ tmp. copy_from (sort_used tmp) 0 tmp.used empty in
    then_do (if is_empty g then some empty else filled)
      λ buf. some (record { buffer = buf; at = 0 })

-- `Iterator::next`: the item, if any, and the iterator after it.
unfoldable pub next : NeighborsIter → Option (Option Cell × NeighborsIter)
next x =
    if ltb x.at x.buffer.used
    then then_do (get_elem? x.buffer.items x.at) (λ v. some (some v, record x { at = x.at + 1 }))
    else some (none, x)

-- `size_hint`, whose two numbers are equal.
abbrev pub remaining : NeighborsIter → ℕ
remaining x = x.buffer.used - x.at

abbrev pub more :
    Option Cell × NeighborsIter → (NeighborsIter → Option (List Cell)) → Option (List Cell)
more (none, x) rest = some []
more (some v, x) rest = then_do (rest x) λ vs. some (v ∷ vs)

-- What a `for` loop over the iterator sees; the fuel bounds the calls of `next`.
unfoldable pub drain : ℕ → NeighborsIter → Option (List Cell)
unfolding next
drain zero x = none
drain (suc fuel) x = then_do (next x) λ r. more r (drain fuel)
