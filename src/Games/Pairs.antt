-- ===== src/Games/Pairs.antt =====
-- `PairHistory` of crates/socsim-games/src/world/pair_history.rs: for each pair of agents that has
-- met, a ring of the last encounters. `none` is a panic. Binary search on sorted keys gives the place
-- of the key or the place to insert it at, which a scan finds as well.
pub mod Ring
pub mod Keys
pub mod Refinement
mod Tests
use rs_social_simulation_too.Prelude.{ℕ, zero, suc, ◌+◌, ◌%◌, min, Bool, true, false, leb, ◌==◌}
use rs_social_simulation_too.Prelude.{
  if◌then◌else◌, Option, none, some, List, [], ◌∷◌, length, get_elem?,
}
use rs_social_simulation_too.Prelude.{set, replicate, map}
use rs_social_simulation_too.Prelude.Sort.Numbers.{pair_le, pair_eq}
use rs_social_simulation_too.Core.{AgentId}

pub record PairRecord (A : Type 0) : Type 0 where
  pub t : ℕ
  pub actions : A × A

pub record PairRing (A : Type 0) : Type 0 where
  pub head : ℕ
  pub filled : ℕ
  pub data_ : List (Option (PairRecord A))

module _ {A : Type 0} where
  unfoldable pub new_ring : ℕ → PairRing A
  new_ring len = record { head = 0; filled = 0; data_ = replicate len none }

  -- A write past the end and a remainder by zero panic.
  unfoldable pub push_ring : PairRing A → PairRecord A → Option (PairRing A)
  push_ring r x = elim (get_elem? r.data_ r.head) [
    | none ↦ none
    | some _ ↦ some (record {
      data_ = set r.data_ r.head (some x);
      head = (r.head + 1) % length r.data_;
      filled = min (r.filled + 1) (length r.data_);
    })
  ]

  abbrev pub item :
      Option (Option (PairRecord A)) → Option (List (PairRecord A)) → Option (List (PairRecord A))
  item (some (some x)) (some xs) = some (x ∷ xs)
  item _ _ = none

  -- The slots from the offset `k` on, `n` of them.
  unfoldable pub slots : PairRing A → ℕ → ℕ → ℕ → Option (List (PairRecord A))
  slots r start k zero = some []
  slots r start k (suc n) =
      item (get_elem? r.data_ ((start + k) % length r.data_)) (slots r start (k + 1) n)

  unfoldable pub iter_ring : PairRing A → Option (List (PairRecord A))
  unfolding slots
  iter_ring r =
      let start = if r.filled == length r.data_ then r.head else 0 in slots r start 0 r.filled

abbrev pub Key : Type 0
Key = AgentId × AgentId

pub record PairHistory (A : Type 0) : Type 0 where
  pub len : ℕ
  pub keys : List Key
  pub rings : List (PairRing A)

-- What a binary search finds.
pub data Search : Type 0 where
  found : ℕ → Search
  missing : ℕ → Search

abbrev pub further : Search → Search
further (found i) = found (i + 1)
further (missing i) = missing (i + 1)

unfoldable pub search_keys : Key → List Key → Search
search_keys k [] = missing 0
search_keys k (x ∷ xs) =
    let rest = further (search_keys k xs) in
    if pair_eq x k then found 0 else if pair_le k x then missing 0 else rest

-- `Vec::insert`, where the index is not past the end.
unfoldable pub insert_at : {A : Type 0} → ℕ → A → List A → List A
insert_at zero x xs = x ∷ xs
insert_at (suc i) x [] = x ∷ []
insert_at (suc i) x (y ∷ xs) = y ∷ insert_at i x xs

-- The key of a pair, and whether the agents stand in it the other way round.
abbrev pub key_of : AgentId → AgentId → Key
key_of first second = if leb first second then (first, second) else (second, first)

abbrev pub is_swapped : AgentId → AgentId → Bool
is_swapped first second = if leb first second then false else true

module _ {A : Type 0} where
  abbrev pub oriented : AgentId → AgentId → A → A → A × A
  oriented first second a b = if leb first second then (a, b) else (b, a)

  unfoldable pub new : ℕ → PairHistory A
  new len = record { len = len; keys = []; rings = [] }

  abbrev pub write_ring : PairHistory A → ℕ → Option (PairRing A) → Option (PairHistory A)
  write_ring h i none = none
  write_ring h i (some r) = some (record h { rings = set h.rings i r })

  abbrev pub push_at :
      PairHistory A → PairRecord A → ℕ → Option (PairRing A) → Option (PairHistory A)
  push_at h x i none = none
  push_at h x i (some r) = write_ring h i (push_ring r x)

  abbrev pub push_found : PairHistory A → Key → PairRecord A → Search → Option (PairHistory A)
  push_found h k x (found i) = push_at h x i (get_elem? h.rings i)
  push_found h k x (missing i) =
      let h' = record h {
        keys = insert_at i k h.keys;
        rings = insert_at i (new_ring h.len) h.rings;
      } in
      push_at h' x i (get_elem? h'.rings i)

  unfoldable pub push : PairHistory A → ℕ → AgentId → AgentId → A → A → Option (PairHistory A)
  unfolding push_ring search_keys insert_at new_ring
  push h t first second a b =
      let k = key_of first second in
      push_found h k (record { t = t; actions = oriented first second a b }) (search_keys k h.keys)

pub record PairView (A : Type 0) : Type 0 where
  pub ring : Option (PairRing A)
  pub swapped : Bool

module _ {A : Type 0} where
  abbrev pub found_ring : List (PairRing A) → Search → Option (PairRing A)
  found_ring rings (found i) = get_elem? rings i
  found_ring rings (missing i) = none

  unfoldable pub view : PairHistory A → AgentId → AgentId → PairView A
  unfolding search_keys
  view h first second = record {
    ring = found_ring h.rings (search_keys (key_of first second) h.keys);
    swapped = is_swapped first second;
  }

  -- `PairView::len`.
  abbrev pub view_len : PairView A → ℕ
  view_len v = elim v.ring [ none ↦ 0 | some r ↦ r.filled ]

  abbrev pub turned : Bool → PairRecord A → ℕ × A × A
  turned true x = (x.t, x.actions.1, x.actions.0)
  turned false x = (x.t, x.actions.0, x.actions.1)

  abbrev pub turned_all : Bool → Option (List (PairRecord A)) → Option (List (ℕ × A × A))
  turned_all swapped none = none
  turned_all swapped (some xs) = some (map (turned swapped) xs)

  -- `PairView::iter`.
  unfoldable pub iter : PairView A → Option (List (ℕ × A × A))
  unfolding iter_ring
  iter v = elim v.ring [ none ↦ some [] | some r ↦ turned_all v.swapped (iter_ring r) ]
