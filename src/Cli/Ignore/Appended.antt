-- ===== src/Cli/Ignore/Appended.antt =====
-- How `appendLocation` fills the rules of a diff.
use graybox_core.Cli.Ignore.{
  same_location, contains_location, Ignored, append_location, append_locations,
}
use graybox_core.Dict.Laws.{In-append, Distinct-concat}
use graybox_core.Diff.Location.Ignore.{same_component_iff}
use graybox_core.Diff.Location.{Location, location_string}
use graybox_core.Prelude.{
  true, ◌≡◌, ◌↔◌, ◌⊎◌, inl, inr, refl, sym, ap, List, [], ◌∷◌, ◌++◌, map, arith, Bool-cases,
}
use graybox_core.Sort.Laws.{In, Distinct}
use mathlib.Core.Path.{subst}
use graybox_core.Text.Laws.{equal_iff}

same_location_iff : (a b : Location) → (same_location a b ≡ true) ↔ (a ≡ b)
unfolding same_location
same_location_iff a b =
    ground (arith, same_component_iff a.component b.component, equal_iff a.path b.path)

contains_location_iff :
    (ls : List Location) (l : Location) → (contains_location ls l ≡ true) ↔ In l ls
unfolding contains_location
contains_location_iff [] l = ground arith
contains_location_iff (k ∷ ls) l =
    let here = same_location_iff k l in
    let rest = contains_location_iff ls l in
    elim (Bool-cases (same_location k l)) [
      | inl e ↦ rw e (λ _. inl (sym (here.0 e)), λ _. refl)
      | inr e ↦
          rw e (λ h. inr (rest.0 h), λ h. elim h [ inl p ↦ cc (here.1 (sym p)) | inr p ↦ rest.1 p ])
    ]

-- The accumulator holds no location twice, and each display text beside its location.
abbrev pub IsPaired : Ignored → Type 0
IsPaired s = Distinct s.locations × (s.display ≡ map location_string s.locations)

map-concat :
    {A B : Type 0} (f : A → B) (xs : List A) (x : A) → map f (xs ++ x ∷ []) ≡ map f xs ++ f x ∷ []
map-concat f [] x = refl
map-concat f (y ∷ xs) x = ap (λ t. f y ∷ t) (map-concat f xs x)

pub append_location-IsPaired :
    (l : Location) (s : Ignored) → IsPaired s → IsPaired (append_location l s)
unfolding append_location
append_location-IsPaired l s h = elim (Bool-cases (contains_location s.locations l)) [
  | inl e ↦ rw e h
  | inr e ↦ rw e (
    Distinct-concat s.locations l h.0 (λ m. cc ((contains_location_iff s.locations l).1 m)),
    rw (h.1, map-concat location_string s.locations l),
  )
]

pub In-append_location :
    (k l : Location) (s : Ignored)
    → In k (append_location l s).locations ↔ ((k ≡ l) ⊎ In k s.locations)
unfolding append_location
In-append_location k l s = elim (Bool-cases (contains_location s.locations l)) [
  | inl e ↦ rw e (
    inr,
    λ h. elim h [
      | inl p ↦ subst (λ q. In q s.locations) (sym p) ((contains_location_iff s.locations l).0 e)
      | inr m ↦ m
    ],
  )
  | inr e ↦
      let there = In-append k s.locations (l ∷ []) in
      rw e (
        λ h. elim (there.0 h) [ inl m ↦ inr m | inr (inl p) ↦ inl p | inr (inr x) ↦ absurd x ],
        λ h. there.1 (elim h [ inl p ↦ inr (inl p) | inr m ↦ inl m ]),
      )
]

pub append_locations-IsPaired :
    (ls : List Location) (s : Ignored) → IsPaired s → IsPaired (append_locations ls s)
unfolding append_locations
append_locations-IsPaired [] s h = h
append_locations-IsPaired (l ∷ ls) s h =
    append_locations-IsPaired ls (append_location l s) (append_location-IsPaired l s h)

pub In-append_locations :
    (k : Location) (ls : List Location) (s : Ignored)
    → In k (append_locations ls s).locations ↔ (In k ls ⊎ In k s.locations)
unfolding append_locations
In-append_locations k [] s = (inr, λ m. elim m [ inl x ↦ absurd x | inr q ↦ q ])
In-append_locations k (l ∷ ls) s =
    let added = In-append_location k l s in
    let rest = In-append_locations k ls (append_location l s) in
    (
      λ x. elim (rest.0 x) [
        | inl m ↦ inl (inr m)
        | inr m ↦ elim (added.0 m) [ inl p ↦ inl (inl p) | inr q ↦ inr q ]
      ],
      λ m. rest.1 (elim m [
        | inl (inl p) ↦ inr (added.1 (inl p))
        | inl (inr q) ↦ inl q
        | inr q ↦ inr (added.1 (inr q))
      ]),
    )
