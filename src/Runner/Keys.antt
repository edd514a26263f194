-- ===== src/Runner/Keys.antt =====
-- The keys that `parse_key` accepts are those that a target prints to.
use rs_social_simulation_too.Prelude.{◌↔◌, ◌≡◌, ◌≢◌, refl, sym, ◌∙◌, ap, subst, Bool, false}
use rs_social_simulation_too.Prelude.{◌||◌, Bool-cases, Option-cases, inl, inr, if_true, if_false}
use rs_social_simulation_too.Prelude.{Option, none, some, List, [], ◌∷◌, ◌++◌, All}
use rs_social_simulation_too.Runner.{Str, dot, world, strip_prefix, split, split_first, is_empty}
use rs_social_simulation_too.Runner.{
  any_empty, has_dot, AxisReason, SweepTarget, world_path, mechanism_param,
}
use rs_social_simulation_too.Runner.{
  parsed, refused, parse_world, parse_param, parse_rest, parse_key,
}
use rs_social_simulation_too.Runner.Strings.{
  IsSegment, join, strip_prefix-append, append_strip_prefix,
}
use rs_social_simulation_too.Runner.Strings.{
  split_first-append, or_false, append_split_first, split-join,
}
use rs_social_simulation_too.Runner.Strings.{split-Parts}

abbrev pub print : SweepTarget → Str
print (world_path segments) = world ++ (dot ∷ join segments)
print (mechanism_param mechanism param) = mechanism ++ (dot ∷ param)

-- A target that has a key: segments are not empty and hold no dot, and a mechanism's name is not the
-- reserved word.
abbrev pub IsTarget : SweepTarget → Type 0
IsTarget (world_path segments) = (is_empty segments ≡ false) × All IsSegment segments
IsTarget (mechanism_param mechanism param) =
    IsSegment mechanism × IsSegment param × (mechanism ≢ world)

none_empty : (segments : List Str) → All IsSegment segments → any_empty segments ≡ false
none_empty [] all = refl
none_empty (s ∷ rest) ((some_char, clean), all) =
    ap (λ (b : Bool). b || any_empty rest) some_char ∙ none_empty rest all

each-IsSegment :
    (segments : List Str)
    → any_empty segments ≡ false
    → All (λ (t : Str). has_dot t ≡ false) segments
    → All IsSegment segments
each-IsSegment [] h all = tt
each-IsSegment (s ∷ rest) h (clean, all) =
    let (some_char, others) = or_false (is_empty s) (any_empty rest) h in
    ((some_char, clean), each-IsSegment rest others all)

-- A mechanism's name before the dot is not the reserved word, so the prefix is not there.
not_reserved :
    (mechanism param : Str)
    → has_dot mechanism ≡ false
    → mechanism ≢ world
    → strip_prefix (world ++ (dot ∷ [])) (mechanism ++ (dot ∷ param)) ≡ none
not_reserved mechanism param clean other =
    elim (Option-cases (strip_prefix (world ++ (dot ∷ [])) (mechanism ++ (dot ∷ param)))) [
      | inl e ↦ e
      | inr (rest, e) ↦ absurd (
          other (
            same_name mechanism param world rest (
              sym (split_first-append mechanism param clean)
              ∙ ap split_first (append_strip_prefix (world ++ (dot ∷ [])) _ rest e)
              ∙ split_first-append world rest refl)))
    ]
  where
    same_name :
        (m p m' p' : Str) → ◌≡◌ {A = Option (Str × Str)} (some (m, p)) (some (m', p')) → m ≡ m'
    same_name m p m' p' h = cc

-- The key of a target parses to the target.
parse_key-print : (t : SweepTarget) → IsTarget t → parse_key (print t) ≡ parsed t
unfolding parse_key
parse_key-print (world_path segments) (one, all) =
    ap parse_world (split-join segments one all) ∙ if_false _ _ (none_empty segments all)
parse_key-print (mechanism_param mechanism param)
      ((some_char, clean), (some_param, clean_param), other) =
    ap (parse_rest (mechanism ++ (dot ∷ param))) (not_reserved mechanism param clean other)
    ∙ ap parse_param (split_first-append mechanism param clean)
    ∙ if_false _ _ some_char
    ∙ if_false _ _ some_param
    ∙ if_false _ _ clean_param

parse_world-print :
    (segments : List Str) (t : SweepTarget)
    → is_empty segments ≡ false
    → All (λ (s : Str). has_dot s ≡ false) segments
    → parse_world segments ≡ parsed t
    → IsTarget t × (print t ≡ world ++ (dot ∷ join segments))
parse_world-print segments t one clean h = elim (Bool-cases (any_empty segments)) [
  | inl e ↦ absurd (impossible (sym (if_true _ _ e) ∙ h))
  | inr e ↦
      let same : world_path segments ≡ t = injective (sym (if_false _ _ e) ∙ h) in
      subst (λ (u : SweepTarget). IsTarget u × (print u ≡ world ++ (dot ∷ join segments))) same
        ((one, each-IsSegment segments e clean), refl)
]
  where
    impossible : refused AxisReason.empty_segment ≡ parsed t → ⊥
    impossible h = cc

    injective : parsed (world_path segments) ≡ parsed t → world_path segments ≡ t
    injective h = cc

parse_param-print :
    (key mechanism param : Str) (t : SweepTarget)
    → has_dot mechanism ≡ false
    → key ≡ mechanism ++ (dot ∷ param)
    → strip_prefix (world ++ (dot ∷ [])) key ≡ none
    → parse_param (some (mechanism, param)) ≡ parsed t
    → IsTarget t × (print t ≡ key)
parse_param-print key mechanism param t clean whole free h =
    elim (Bool-cases (is_empty mechanism)) [
      | inl e ↦ absurd (impossible _ (sym (if_true _ _ e) ∙ h))
      | inr e ↦ elim (Bool-cases (is_empty param)) [
        | inl f ↦ absurd (impossible _ (sym (if_false _ _ e ∙ if_true _ _ f) ∙ h))
        | inr f ↦ elim (Bool-cases (has_dot param)) [
          | inl g ↦
              absurd (impossible _ (sym (if_false _ _ e ∙ if_false _ _ f ∙ if_true _ _ g) ∙ h))
          | inr g ↦
              let same : mechanism_param mechanism param ≡ t =
                injective (sym (if_false _ _ e ∙ if_false _ _ f ∙ if_false _ _ g) ∙ h) in
              subst (λ (u : SweepTarget). IsTarget u × (print u ≡ key)) same
                (((e, clean), (f, g), unreserved), sym whole)
        ]
      ]
    ]
  where
    impossible : (reason : AxisReason) → refused reason ≡ parsed t → ⊥
    impossible reason h = cc

    injective :
        parsed (mechanism_param mechanism param) ≡ parsed t → mechanism_param mechanism param ≡ t
    injective h = cc

    clash : none ≡ some param → ⊥
    clash e = cc

    unreserved : mechanism ≢ world
    unreserved e = clash (
        sym free
        ∙ ap (strip_prefix (world ++ (dot ∷ []))) (whole ∙ ap (λ (m : Str). m ++ (dot ∷ param)) e)
        ∙ strip_prefix-append (world ++ (dot ∷ [])) param)

-- A key that parses is what its target prints to, and the target is one that has a key.
print-parse_key :
    (key : Str) (t : SweepTarget) → parse_key key ≡ parsed t → IsTarget t × (print t ≡ key)
unfolding parse_key
print-parse_key key t h = by_prefix (strip_prefix (world ++ (dot ∷ [])) key) refl h
  where
    undotted : refused AxisReason.no_dot ≡ parsed t → ⊥
    undotted h = cc

    by_dot :
        (found : Option (Str × Str))
        → split_first key ≡ found
        → strip_prefix (world ++ (dot ∷ [])) key ≡ none
        → parse_param found ≡ parsed t
        → IsTarget t × (print t ≡ key)
    by_dot none e free h = absurd (undotted h)
    by_dot (some (mechanism, param)) e free h =
        let (whole, clean) = append_split_first key mechanism param e in
        parse_param-print key mechanism param t clean whole free h

    by_prefix :
        (found : Option Str)
        → strip_prefix (world ++ (dot ∷ [])) key ≡ found
        → parse_rest key found ≡ parsed t
        → IsTarget t × (print t ≡ key)
    by_prefix none e h = by_dot (split_first key) refl e h
    by_prefix (some rest) e h =
        let (one, clean, joined) = split-Parts rest in
        let (target, printed) = parse_world-print (split rest) t one clean h in
        (
          target,
          printed
              ∙ ap (λ (s : Str). world ++ (dot ∷ s)) joined
              ∙ sym (append_strip_prefix (world ++ (dot ∷ [])) key rest e),
        )

-- A key parses to a target exactly if the target is one that has a key, and prints to it: every such target
-- has one key, no two targets have the same one, and no other key is accepted.
pub parse_key_iff :
    (key : Str) (t : SweepTarget) → (parse_key key ≡ parsed t) ↔ (IsTarget t × (print t ≡ key))
parse_key_iff key t = (
  print-parse_key key t,
  λ (target, printed). ap parse_key (sym printed) ∙ parse_key-print t target,
)
