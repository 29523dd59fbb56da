-- ===== src/Diff/Location/Ignore.antt =====
-- What ignore rules cover: `Rules.Ignores` against a description of the rules, and the JSON Pointers
-- below an ignored one.
use graybox_core.Diff.Location.{
  Component, status, headers, body, same_component, Location, body_location, escape_token,
  append_json_pointer, Rules, covers, rule_ignores, any_ignores, ignores,
}
use graybox_core.Prelude.{
  true, false, ◌≡◌, ◌↔◌, ◌⊎◌, inl, inr, refl, ◌∙◌, List, [], ◌∷◌, ◌++◌, arith, Bool-cases,
}
use graybox_core.Text.Laws.{equal_iff, has_prefix-append, has_prefix-rest}
use graybox_core.Text.{Str, equal, to_lower, equal_fold}
use mathlib.Core.List.{append_assoc}

-- A rule with a path covers that path: for headers whatever the case of the letters, for bodies with
-- every path below it.
abbrev pub PathCovered : Component → Str → Str → Type 0
PathCovered status rule path = rule ≡ path
PathCovered headers rule path = to_lower rule ≡ to_lower path
PathCovered body rule path = (rule ≡ path) ⊎ ((s : Str) × (path ≡ rule ++ b'/' ∷ s))

-- A rule with no path covers its whole component.
abbrev pub Covered : Location → Location → Type 0
Covered rule l =
    (rule.component ≡ l.component) × ((rule.path ≡ []) ⊎ PathCovered l.component rule.path l.path)

abbrev pub AnyCovers : List Location → Location → Type 0
AnyCovers [] l = ⊥
AnyCovers (rule ∷ rules) l = Covered rule l ⊎ AnyCovers rules l

slash-append : (rule s : Str) → (rule ++ b'/' ∷ []) ++ s ≡ rule ++ b'/' ∷ s
slash-append rule s = append_assoc rule (b'/' ∷ []) s

covers_iff :
    (c : Component) (rule path : Str) → (covers c rule path ≡ true) ↔ PathCovered c rule path
unfolding covers equal_fold
covers_iff status rule path = equal_iff rule path
covers_iff headers rule path = equal_iff (to_lower rule) (to_lower path)
covers_iff body rule path = (
  λ h. elim (Bool-cases (equal rule path)) [
    | inl e ↦ inl ((equal_iff rule path).0 e)
    | inr e ↦
        let (s, k) = has_prefix-rest path (rule ++ b'/' ∷ []) (rw e at h) in
        inr (s, k ∙ slash-append rule s)
  ],
  λ h. elim h [
    | inl e ↦ rw ((equal_iff rule path).1 e)
    | inr (s, e) ↦ elim (Bool-cases (equal rule path)) [
      | inl f ↦ rw f
      | inr f ↦ rw f (rw (e, ← slash-append rule s) (has_prefix-append (rule ++ b'/' ∷ []) s))
    ]
  ],
)

pub same_component_iff : (a b : Component) → (same_component a b ≡ true) ↔ (a ≡ b)
same_component_iff status b = ground arith
same_component_iff headers b = ground arith
same_component_iff body b = ground arith

rule_ignores_iff : (rule l : Location) → (rule_ignores rule l ≡ true) ↔ Covered rule l
unfolding rule_ignores
rule_ignores_iff rule l = elim (Bool-cases (same_component rule.component l.component)) [
  | inl e ↦
      let same = (same_component_iff rule.component l.component).0 e in
      rw e (elim (Bool-cases (equal rule.path [])) [
        | inl p ↦ rw p (λ _. (same, inl ((equal_iff rule.path []).0 p)), λ _. refl)
        | inr p ↦
            let path = covers_iff l.component rule.path l.path in
            rw p (
              λ h. (same, inr (path.0 h)),
              λ c. elim c.1 [ inl q ↦ cc ((equal_iff rule.path []).1 q) | inr q ↦ path.1 q ],
            )
      ])
  | inr e ↦ rw e (λ h. cc, λ c. cc ((same_component_iff rule.component l.component).1 c.0))
]

not-Covered : (rule l : Location) → rule_ignores rule l ≡ false → ¬ Covered rule l
not-Covered rule l e c = cc ((rule_ignores_iff rule l).1 c)

any_ignores_iff :
    (rules : List Location) (l : Location) → (any_ignores rules l ≡ true) ↔ AnyCovers rules l
unfolding any_ignores
any_ignores_iff [] l = (λ h. cc, λ h. absurd h)
any_ignores_iff (rule ∷ rules) l = elim (Bool-cases (rule_ignores rule l)) [
  | inl e ↦ rw e (λ _. inl ((rule_ignores_iff rule l).0 e), λ _. refl)
  | inr e ↦ rw e (
    λ h. inr ((any_ignores_iff rules l).0 h),
    λ h. elim h [ inl c ↦ absurd (not-Covered rule l e c) | inr k ↦ (any_ignores_iff rules l).1 k ],
  )
]

-- A location is ignored exactly when some rule covers it: the rule names the same component, and has
-- no path or one that covers the location's path.
pub ignores_iff :
    (rules : Rules) (l : Location) → (ignores rules l ≡ true) ↔ AnyCovers rules.ignore l
unfolding ignores
ignores_iff rules l = any_ignores_iff rules.ignore l

-- A token is put behind a slash, also at the root.
pub append_json_pointer-eq :
    (pointer token : Str) → append_json_pointer pointer token ≡ pointer ++ b'/' ∷ escape_token token
unfolding append_json_pointer equal
append_json_pointer-eq [] token = refl
append_json_pointer-eq (c ∷ pointer) token = refl

below-covered :
    (rules : List Location) (pointer token : Str)
    → AnyCovers rules (body_location pointer)
    → AnyCovers rules (body_location (append_json_pointer pointer token))
unfolding body_location
below-covered [] pointer token h = h
below-covered (rule ∷ rules) pointer token (inr h) = inr (below-covered rules pointer token h)
below-covered (rule ∷ rules) pointer token (inl (c, inl e)) = inl (c, inl e)
below-covered (rule ∷ rules) pointer token (inl (c, inr (inl e))) =
    inl (c, inr (inr (escape_token token, append_json_pointer-eq pointer token ∙ rw e)))
below-covered (rule ∷ rules) pointer token (inl (c, inr (inr (s, e)))) = inl (
  c,
  inr (
      inr (
        s ++ b'/' ∷ escape_token token,
        append_json_pointer-eq pointer token
            ∙ rw e (append_assoc rule.path (b'/' ∷ s) (b'/' ∷ escape_token token)),
      )),
)

-- Whatever lies below an ignored JSON Pointer is ignored too.
pub ignores-below :
    (rules : Rules) (pointer token : Str)
    → ignores rules (body_location pointer) ≡ true
    → ignores rules (body_location (append_json_pointer pointer token)) ≡ true
ignores-below rules pointer token h =
    (ignores_iff rules (body_location (append_json_pointer pointer token))).1
      (below-covered rules.ignore pointer token ((ignores_iff rules (body_location pointer)).0 h))
