-- ===== src/Rng/Seeds.antt =====
-- What `derive_seed` keeps apart: each of its steps can be undone.
use rs_social_simulation_too.Prelude.{ℕ, suc, ◌/◌, ◌%◌, ◌^◌, ◌<◌, ◌≡◌, refl, sym, ◌∙◌}
use rs_social_simulation_too.Prelude.{◌≢◌, ap, arith, List, [], ◌∷◌, ◌++◌, length, All, bit_xor}
use rs_social_simulation_too.Prelude.Bits.{xor_cancel, xor_comm, xor_zero, xor-lt, xor-shift}
use rs_social_simulation_too.Core.{u64_mod}
use rs_social_simulation_too.Rng.{fnv_offset, fnv_prime, wrapping_mul, fold_high, fmix64, absorb}
use rs_social_simulation_too.Rng.{absorb_all, derive_seed}

wrapping_mul-lt : (a b : ℕ) → wrapping_mul a b < u64_mod
wrapping_mul-lt a b = omega arith

-- The multipliers are odd, so each has an inverse.
undo_prime : (a : ℕ) → a < u64_mod → wrapping_mul (wrapping_mul a fnv_prime) 0xce965057aff6957b ≡ a
undo_prime a h = omega arith

undo_first :
    (a : ℕ) → a < u64_mod → wrapping_mul (wrapping_mul a 0xff51afd7ed558ccd) 0x4f74430c22a54005 ≡ a
undo_first a h = omega arith

undo_second :
    (a : ℕ) → a < u64_mod → wrapping_mul (wrapping_mul a 0xc4ceb9fe1a85ec53) 0x9cb4b2f8129337db ≡ a
undo_second a h = omega arith

fold_high-lt : (a : ℕ) → a < u64_mod → fold_high a < u64_mod
unfolding fold_high
fold_high-lt a h = xor-lt 64 a (a / 2 ^ 33) h (omega arith)

-- Folding twice gives the number back, since the high half is left as it was.
undo_fold : (a : ℕ) → a < u64_mod → fold_high (fold_high a) ≡ a
unfolding fold_high
undo_fold a h =
    let top : a / 2 ^ 33 / 2 ^ 33 ≡ 0 = omega arith in
    let high : bit_xor a (a / 2 ^ 33) / 2 ^ 33 ≡ a / 2 ^ 33 =
      xor-shift 33 a (a / 2 ^ 33) ∙ ap (bit_xor (a / 2 ^ 33)) top ∙ xor_zero (a / 2 ^ 33) in
    ap (bit_xor (bit_xor a (a / 2 ^ 33))) high ∙ xor_cancel a (a / 2 ^ 33)

-- The inverse of the finalizer.
pub unmix : ℕ → ℕ
unmix h =
    fold_high
      (wrapping_mul (fold_high (wrapping_mul (fold_high h) 0x9cb4b2f8129337db)) 0x4f74430c22a54005)

-- The finalizer loses nothing: it maps `u64` to `u64`, and `unmix` gives back every value mixed.
pub unmix-fmix64 : (a : ℕ) → a < u64_mod → (fmix64 a < u64_mod) × (unmix (fmix64 a) ≡ a)
unfolding fmix64 unmix
unmix-fmix64 a h =
    let b = fold_high a in
    let c = wrapping_mul b 0xff51afd7ed558ccd in
    let d = fold_high c in
    let e = wrapping_mul d 0xc4ceb9fe1a85ec53 in
    let d_small = fold_high-lt c (wrapping_mul-lt b 0xff51afd7ed558ccd) in
    (
      fold_high-lt e (wrapping_mul-lt d 0xc4ceb9fe1a85ec53),
      (rw
          (
            undo_fold e (wrapping_mul-lt d 0xc4ceb9fe1a85ec53),
            undo_second d d_small,
            undo_fold c (wrapping_mul-lt b 0xff51afd7ed558ccd),
            undo_first b (fold_high-lt a h),
          )
          (undo_fold a h)),
    )

absorb-lt : (h p : ℕ) → absorb h p < u64_mod
unfolding absorb
absorb-lt h p = wrapping_mul-lt (bit_xor h p) fnv_prime

absorb_all-lt : (ps : List ℕ) (h : ℕ) → h < u64_mod → absorb_all h ps < u64_mod
unfolding absorb_all
absorb_all-lt [] h k = k
absorb_all-lt (p ∷ ps) h k = absorb_all-lt ps (absorb h p) (absorb-lt h p)

undo_absorb :
    (h p : ℕ)
    → h < u64_mod
    → p < u64_mod
    → bit_xor (wrapping_mul (absorb h p) 0xce965057aff6957b) p ≡ h
unfolding absorb
undo_absorb h p k l =
    ap (λ (x : ℕ). bit_xor x p) (undo_prime (bit_xor h p) (xor-lt 64 h p k l)) ∙ xor_cancel h p

absorb_comm : (h p : ℕ) → absorb h p ≡ absorb p h
unfolding absorb
absorb_comm h p = ap (λ (x : ℕ). wrapping_mul x fnv_prime) (xor_comm h p)

-- Equal results of absorbing one label come from equal states.
absorb-injective :
    (g h p : ℕ) → g < u64_mod → h < u64_mod → p < u64_mod → absorb g p ≡ absorb h p → g ≡ h
absorb-injective g h p k l m e =
    sym (undo_absorb g p k m)
    ∙ ap (λ (x : ℕ). bit_xor (wrapping_mul x 0xce965057aff6957b) p) e
    ∙ undo_absorb h p l m

absorb_all-injective :
    (ps : List ℕ) (g h : ℕ)
    → All (λ p. p < u64_mod) ps
    → g < u64_mod
    → h < u64_mod
    → absorb_all g ps ≡ absorb_all h ps
    → g ≡ h
unfolding absorb_all
absorb_all-injective [] g h small k l e = e
absorb_all-injective (p ∷ ps) g h (m, small) k l e =
    absorb-injective g h p k l m
      (absorb_all-injective ps (absorb g p) (absorb h p) small (absorb-lt g p) (absorb-lt h p) e)

fmix64-injective : (a b : ℕ) → a < u64_mod → b < u64_mod → fmix64 a ≡ fmix64 b → a ≡ b
fmix64-injective a b h k e = sym (unmix-fmix64 a h).1 ∙ ap unmix e ∙ (unmix-fmix64 b k).1

abbrev rooted : ℕ → ℕ
rooted root = bit_xor fnv_offset (wrapping_mul root fnv_prime)

rooted-lt : (root : ℕ) → rooted root < u64_mod
rooted-lt root = xor-lt 64 fnv_offset (wrapping_mul root fnv_prime) (omega arith) (omega arith)

absorb_all-append :
    (xs ys : List ℕ) (h : ℕ) → absorb_all h (xs ++ ys) ≡ absorb_all (absorb_all h xs) ys
unfolding absorb_all
absorb_all-append [] ys h = refl
absorb_all-append (x ∷ xs) ys h = absorb_all-append xs ys (absorb h x)

-- Equal seeds from lists of equally many labels come from equal states before the finalizer.
same_state :
    (r s : ℕ) (ps qs : List ℕ)
    → length ps ≡ length qs
    → derive_seed r ps ≡ derive_seed s qs
    → absorb_all (rooted r) ps ≡ absorb_all (rooted s) qs
unfolding derive_seed
same_state r s ps qs n e =
    let count = length qs % u64_mod in
    let g = absorb_all (rooted r) ps in
    let h = absorb_all (rooted s) qs in
    let mixed : fmix64 (absorb g count) ≡ fmix64 (absorb h count) = rw n at e in
    absorb-injective g h count (absorb_all-lt ps (rooted r) (rooted-lt r))
      (absorb_all-lt qs (rooted s) (rooted-lt s)) (omega arith)
      (fmix64-injective (absorb g count) (absorb h count) (absorb-lt g count) (absorb-lt h count)
        mixed)

derive_seed-injective_root :
    (r s : ℕ) (labels : List ℕ)
    → r < u64_mod
    → s < u64_mod
    → All (λ p. p < u64_mod) labels
    → derive_seed r labels ≡ derive_seed s labels
    → r ≡ s
derive_seed-injective_root r s labels h k small e =
    let start =
      absorb_all-injective labels (rooted r) (rooted s) small (rooted-lt r) (rooted-lt s)
        (same_state r s labels labels refl e) in
    let spread : wrapping_mul r fnv_prime ≡ wrapping_mul s fnv_prime =
      sym (xor_cancel (wrapping_mul r fnv_prime) fnv_offset)
      ∙ ap (λ (x : ℕ). bit_xor x fnv_offset)
          (xor_comm (wrapping_mul r fnv_prime) fnv_offset
            ∙ start
            ∙ xor_comm fnv_offset (wrapping_mul s fnv_prime))
      ∙ xor_cancel (wrapping_mul s fnv_prime) fnv_offset in
    sym (undo_prime r h) ∙ ap (λ (x : ℕ). wrapping_mul x 0xce965057aff6957b) spread ∙ undo_prime s k

-- For `u64` labels, `u64` roots that differ give seeds that differ under the same labels.
pub derive_seed_distinct_roots :
    (r s : ℕ) (labels : List ℕ)
    → r < u64_mod
    → s < u64_mod
    → All (λ p. p < u64_mod) labels
    → r ≢ s
    → derive_seed r labels ≢ derive_seed s labels
derive_seed_distinct_roots r s labels h k small ne e =
    ne (derive_seed-injective_root r s labels h k small e)

same_length :
    (pre post : List ℕ) (p q : ℕ) → length (pre ++ (p ∷ post)) ≡ length (pre ++ (q ∷ post))
same_length [] post p q = refl
same_length (x ∷ pre) post p q = ap suc (same_length pre post p q)

derive_seed-injective_label :
    (root : ℕ) (pre post : List ℕ) (p q : ℕ)
    → All (λ x. x < u64_mod) post
    → p < u64_mod
    → q < u64_mod
    → derive_seed root (pre ++ (p ∷ post)) ≡ derive_seed root (pre ++ (q ∷ post))
    → p ≡ q
unfolding absorb_all
derive_seed-injective_label root pre post p q small h k e =
    let g = absorb_all (rooted root) pre in
    let g_small = absorb_all-lt pre (rooted root) (rooted-lt root) in
    let states : absorb_all (absorb g p) post ≡ absorb_all (absorb g q) post =
      sym (absorb_all-append pre (p ∷ post) (rooted root))
      ∙ same_state root root (pre ++ (p ∷ post)) (pre ++ (q ∷ post)) (same_length pre post p q) e
      ∙ absorb_all-append pre (q ∷ post) (rooted root) in
    let absorbed =
      absorb_all-injective post (absorb g p) (absorb g q) small (absorb-lt g p) (absorb-lt g q)
        states in
    absorb-injective p q g h k g_small (absorb_comm p g ∙ absorbed ∙ absorb_comm g q)

-- Under one root, two lists of `u64` labels that differ in one label, wherever it stands, give seeds
-- that differ.
pub derive_seed_distinct_labels :
    (root : ℕ) (pre post : List ℕ) (p q : ℕ)
    → All (λ x. x < u64_mod) post
    → p < u64_mod
    → q < u64_mod
    → p ≢ q
    → derive_seed root (pre ++ (p ∷ post)) ≢ derive_seed root (pre ++ (q ∷ post))
derive_seed_distinct_labels root pre post p q small h k ne e =
    ne (derive_seed-injective_label root pre post p q small h k e)
