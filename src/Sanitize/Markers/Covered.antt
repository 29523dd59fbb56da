-- ===== src/Sanitize/Markers/Covered.antt =====
-- The headers that a recording shows as redacted stay redacted.
use graybox_core.Dict.Laws.{In-append}
use graybox_core.Dict.{lookup}
use graybox_core.Platform.{Platform}
use graybox_core.Prelude.{
  Bool, true, false, ◌≡◌, ◌||◌, inl, inr, refl, sym, ap, ◌∙◌, List, [], ◌∷◌, ◌++◌, Option, none,
  some, arith, Bool-cases, if◌then◌else◌,
}
use graybox_core.Recording.{Headers}
use graybox_core.Sanitize.Markers.{redacted_names, with_recorded_markers}
use graybox_core.Sanitize.Redact.{any_redacted, is_sensitive, redact_all}
use graybox_core.Sanitize.Rules.Protect.{names_it, In→names_it, hidden, apply_headers_lem}
use graybox_core.Sanitize.Rules.{Rules, apply_headers}
use graybox_core.Sort.Laws.{In, sort_by-In}
use graybox_core.Sort.{sort_strings}
use graybox_core.Text.Laws.{equal_iff, equal_self}
use graybox_core.Text.{Str, equal, equal_fold, to_lower, less}
use mathlib.Core.Option.{map, some-injective}

In-added :
    (a n : Str) (b c : Bool) (names : List Str)
    → In a names
    → In a (if b then names else if c then n ∷ names else names)
In-added a n true c names i = i
In-added a n false true names i = inr i
In-added a n false false names i = i

redacted_names-In :
    (name : Str) (values : List Str) (headers : Headers)
    → lookup name headers ≡ some values
    → is_sensitive name ≡ false
    → any_redacted values ≡ true
    → In name (redacted_names headers)
unfolding lookup redacted_names
redacted_names-In name values [] h s r = ground arith
redacted_names-In name values ((n, vs) ∷ headers) h s r = elim (Bool-cases (equal n name)) [
  | inl e ↦
      (let same = (equal_iff n name).0 e in
        rw (ap is_sensitive same ∙ s, ap any_redacted (some-injective vs values (rw e at h)) ∙ r)
          (inl (sym same)))
  | inr e ↦
      In-added name n (is_sensitive n) (any_redacted vs) (redacted_names headers)
        (redacted_names-In name values headers (rw e at h) s r)
]

equal_fold_self : (name : Str) → equal_fold name name ≡ true
unfolding equal_fold
equal_fold_self name = equal_self (to_lower name)

with_recorded_markers-names_it :
    (go : Platform) (r : Rules) (headers : Headers) (content name : Str)
    → In name (redacted_names headers)
    → names_it (with_recorded_markers go r headers content).headers name ≡ true
unfolding with_recorded_markers sort_strings
with_recorded_markers-names_it go r headers content name i =
    In→names_it (sort_strings (r.headers ++ redacted_names headers)) name name
      (sort_by-In less name (r.headers ++ redacted_names headers)
        ((In-append name r.headers (redacted_names headers)).1 (inr i)))
      (equal_fold_self name)

-- Where a recorded header holds the marker, the policy that takes in the recording's markers hides
-- every value of that header, in whatever headers it is applied to.
pub apply_headers-with_recorded_markers :
    (go : Platform) (r : Rules) (headers src : Headers) (content name : Str) (values : List Str)
    → lookup name headers ≡ some values
    → any_redacted values ≡ true
    → lookup name (apply_headers (with_recorded_markers go r headers content) src)
      ≡ map redact_all (lookup name src)
apply_headers-with_recorded_markers go r headers src content name values h a =
    apply_headers_lem (with_recorded_markers go r headers content) src name ∙ all (lookup name src)
  where
    covered :
        is_sensitive name || names_it (with_recorded_markers go r headers content).headers name
        ≡ true
    covered = elim (Bool-cases (is_sensitive name)) [
      | inl s ↦ ground arith
      | inr s ↦ ground (
        arith,
        with_recorded_markers-names_it go r headers content name
            (redacted_names-In name values headers h s a),
      )
    ]

    all :
        (o : Option (List Str))
        → map (hidden (with_recorded_markers go r headers content) name) o ≡ map redact_all o
    all none = refl
    all (some vs) = rw covered refl
