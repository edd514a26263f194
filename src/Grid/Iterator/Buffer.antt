-- ===== src/Grid/Iterator/Buffer.antt =====
-- The array of eight cells against the list of the cells in use.
use rs_social_simulation_too.Prelude.{ℕ, zero, suc, ◌+◌, ◌≤◌, ◌<◌, ◌≡◌, refl, ◌∙◌, ap, arith}
use rs_social_simulation_too.Prelude.{ltb, if_true}
use rs_social_simulation_too.Prelude.{Option, none, some, List, [], ◌∷◌, ◌++◌, length, set, take}
use rs_social_simulation_too.Prelude.{length-set}
use rs_social_simulation_too.Grid.{Cell}
use rs_social_simulation_too.Grid.Iterator.{Buffer8, push, empty}

module _ {A : Type 0} where
  pub take-set :
      (xs : List A) (n : ℕ) (v : A)
      → n < length xs
      → take (suc n) (set xs n v) ≡ take n xs ++ (v ∷ [])
  take-set [] n v h = absurd (omega arith)
  take-set (x ∷ xs) zero v h = refl
  take-set (x ∷ xs) (suc n) v h = ap (◌∷◌ x) (take-set xs n v (omega arith))

-- The buffer holds the list.
pub record Holds (b : Buffer8) (out : List Cell) : Type 0 where
  pub size : length b.items ≡ 8
  pub count : b.used ≡ length out
  pub listed : take b.used b.items ≡ out

pub empty-Holds : Holds empty []
empty-Holds = record { size = refl; count = refl; listed = refl }

length_snoc : (out : List Cell) (c : Cell) → length (out ++ (c ∷ [])) ≡ length out + 1
length_snoc [] c = refl
length_snoc (x ∷ out) c = omega (arith, length_snoc out c)

-- A result that holds the list, without a panic, in which no more than `n` cells are in use.
pub record Keeps (o : Option Buffer8) (out : List Cell) (n : ℕ) : Type 0 where
  pub buffer : Buffer8
  pub result : o ≡ some buffer
  pub holds : Holds buffer out
  pub few : length out ≤ n

pub push-Keeps :
    (c : Cell) (b : Buffer8) (out : List Cell) (n : ℕ)
    → Holds b out
    → length out ≤ n
    → n < 8
    → Keeps (push c b) (out ++ (c ∷ [])) (n + 1)
unfolding push
push-Keeps c b out n h l k = record {
  buffer = record { items = set b.items b.used c; used = b.used + 1 };
  result = if_true {b = ltb b.used 8} _ none (ground (arith, h.count));
  holds = record {
    size = length-set b.items b.used c ∙ h.size;
    count = omega (arith, h.count, length_snoc out c);
    listed =
        (let next : b.used + 1 ≡ suc b.used = omega arith in
          ap (λ (k : ℕ). take k (set b.items b.used c)) next)
        ∙ take-set b.items b.used c (omega (arith, h.size, h.count))
        ∙ ap (λ (l' : List Cell). l' ++ (c ∷ [])) h.listed;
  };
  few = omega (arith, length_snoc out c);
}

pub same-Keeps :
    (b : Buffer8) (out : List Cell) (n : ℕ) → Holds b out → length out ≤ n → Keeps (some b) out n
same-Keeps b out n h l = record { buffer = b; result = refl; holds = h; few = l }

pub weaken :
    {o : Option Buffer8} {out : List Cell} {n m : ℕ} → n ≤ m → Keeps o out n → Keeps o out m
weaken h k = record {
  buffer = k.buffer;
  result = k.result;
  holds = k.holds;
  few = omega (arith, k.few);
}
