-- ===== src/Cli/Ignore/Built.antt =====
-- What the rules of a diff leave out.
use graybox_core.Cli.Ignore.Appended.{
  IsPaired, append_location-IsPaired, In-append_location, append_locations-IsPaired,
  In-append_locations,
}
use graybox_core.Cli.Ignore.{
  default_diff_ignored_locations, parse_diff_ignore_location, Ignored, append_location,
  append_locations, append_values, build_diff_rules,
}
use graybox_core.Diff.Location.Ignore.{Covered, AnyCovers, ignores_iff}
use graybox_core.Diff.Location.{Location, location_string, Rules, ignores}
use graybox_core.Failure.{ok, err, Result-cases, Yields, Yields-mono, Yields-bind, Yields-ok}
use graybox_core.Prelude.{true, ◌≡◌, ◌↔◌, ◌⊎◌, inl, inr, refl, sym, ap, ◌∙◌, List, [], ◌∷◌, map}
use graybox_core.Sort.Laws.{In, Distinct}
use mathlib.Core.Path.{subst}
use graybox_core.Text.{Str}

AnyCovers-iff :
    (rules : List Location) (l : Location)
    → AnyCovers rules l ↔ ((rule : Location) × In rule rules × Covered rule l)
AnyCovers-iff [] l = (λ h. absurd h, λ h. absurd h.1)
AnyCovers-iff (rule ∷ rules) l = (
  λ h. elim h [
    | inl c ↦ (rule, inl refl, c)
    | inr k ↦ let (r, m, c) = (AnyCovers-iff rules l).0 k in (r, inr m, c)
  ],
  λ h.
      let (r, m, c) = h in
      elim m [
        | inl e ↦ inl (subst (λ q. Covered q l) e c)
        | inr k ↦ inr ((AnyCovers-iff rules l).1 (r, k, c))
      ],
)

-- Given by one of the values.
abbrev pub NamedBy : List Str → Location → Type 0
NamedBy [] rule = ⊥
NamedBy (v ∷ vs) rule = (parse_diff_ignore_location v ≡ ok rule) ⊎ NamedBy vs rule

ok-injective : (a b : Location) → ok a ≡ ok b → a ≡ b
ok-injective a b e = ap (λ r. elim r [ ok x ↦ x | err _ ↦ a ]) e

-- What a list of values adds to the accumulator.
abbrev Extends : List Str → Ignored → Ignored → Type 0
Extends values s t =
    IsPaired t × ((k : Location) → In k t.locations ↔ (NamedBy values k ⊎ In k s.locations))

Extends-step :
    (v : Str) (vs : List Str) (l : Location) (s : Ignored)
    → parse_diff_ignore_location v ≡ ok l
    → (k : Location) (X : Type 0) → X ↔ (NamedBy vs k ⊎ In k (append_location l s).locations)
    → X ↔ (NamedBy (v ∷ vs) k ⊎ In k s.locations)
Extends-step v vs l s n k X e =
    let added = In-append_location k l s in
    (
      λ x. elim (e.0 x) [
        | inl m ↦ inl (inr m)
        | inr m ↦ elim (added.0 m) [ inl p ↦ inl (inl (rw (n, p))) | inr q ↦ inr q ]
      ],
      λ m. e.1 (elim m [
        | inl (inl p) ↦ inr (added.1 (inl (ok-injective k l (sym p ∙ n))))
        | inl (inr q) ↦ inl q
        | inr q ↦ inr (added.1 (inr q))
      ]),
    )

append_values-Extends :
    (values : List Str) (s : Ignored)
    → IsPaired s
    → Yields (Extends values s) (append_values values s)
unfolding append_values
append_values-Extends [] s h = (h, λ k. (inr, λ m. elim m [ inl x ↦ absurd x | inr p ↦ p ]))
append_values-Extends (v ∷ vs) s h = elim (Result-cases (parse_diff_ignore_location v)) [
  | inr (e, n) ↦ rw n tt
  | inl (l, n) ↦
      let s' = append_location l s in
      rw n (
        Yields-mono (Extends vs s') (Extends (v ∷ vs) s) (append_values vs s')
          (λ t e. (e.0, λ k. Extends-step v vs l s n k (In k t.locations) (e.1 k)))
          (append_values-Extends vs s' (append_location-IsPaired l s h)))
]

abbrev nothing : Ignored
nothing = record { locations = []; display = [] }

abbrev start : Ignored
start = append_locations default_diff_ignored_locations nothing

start-IsPaired : IsPaired start
start-IsPaired = append_locations-IsPaired default_diff_ignored_locations nothing (tt, refl)

In-start : (k : Location) → In k start.locations ↔ In k default_diff_ignored_locations
In-start k =
    let both = In-append_locations k default_diff_ignored_locations nothing in
    (λ x. elim (both.0 x) [ inl m ↦ m | inr y ↦ absurd y ], λ m. both.1 (inl m))

-- What `build_diff_rules` promises of its results.
abbrev Builds : List Str → (Rules × List Str) → Type 0
Builds values (rules, display) =
    ((l : Location)
      → (ignores rules l ≡ true) ↔ (
          (rule : Location) × (In rule default_diff_ignored_locations ⊎ NamedBy values rule)
          × Covered rule l))
    × Distinct rules.ignore
    × (display ≡ map location_string rules.ignore)

Builds-covers :
    (values : List Str) (t : Ignored)
    → ((k : Location) → In k t.locations ↔ (NamedBy values k ⊎ In k start.locations))
    → (l : Location)
    → (ignores (record { ignore = t.locations }) l ≡ true) ↔ (
        (rule : Location) × (In rule default_diff_ignored_locations ⊎ NamedBy values rule)
        × Covered rule l)
Builds-covers values t e l =
    let ignored = ignores_iff (record { ignore = t.locations }) l in
    let covered = AnyCovers-iff t.locations l in
    (
      λ h.
          let (rule, m, c) = covered.0 (ignored.0 h) in
          (rule, elim ((e rule).0 m) [ inl n ↦ inr n | inr d ↦ inl ((In-start rule).0 d) ], c),
      λ h.
          let (rule, m, c) = h in
          ignored.1 (
            covered.1
              (rule, (e rule).1 (elim m [ inl d ↦ inr ((In-start rule).1 d) | inr n ↦ inl n ]), c)),
    )

-- If the values are well formed, a location is left out exactly if a rule covers it that is one of the
-- two default ones (Date and Content-Length) or that one of the values names; no rule stands twice,
-- and the texts shown are those of the rules.
pub build_diff_rules-covers :
    (values : List Str) (rules : Rules) (display : List Str)
    → build_diff_rules values ≡ ok (rules, display)
    → ((l : Location)
        → (ignores rules l ≡ true) ↔ (
            (rule : Location) × (In rule default_diff_ignored_locations ⊎ NamedBy values rule)
            × Covered rule l))
      × Distinct rules.ignore
      × (display ≡ map location_string rules.ignore)
unfolding build_diff_rules
build_diff_rules-covers values rules display h =
    Yields-ok (Builds values) (build_diff_rules values) (rules, display)
      (Yields-bind (Extends values start) (Builds values) (append_values values start) _
        (append_values-Extends values start start-IsPaired)
        (λ t e. (λ l. Builds-covers values t (e.1) l, e.0.0, e.0.1)))
      h
