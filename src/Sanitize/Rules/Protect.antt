-- ===== src/Sanitize/Rules/Protect.antt =====
-- What `ApplyHeaders` hides, and what a merge of two policies hides.
use graybox_core.Dict.Laws.{In-add_keys}
use graybox_core.Dict.{lookup, add_keys}
use graybox_core.Prelude.{
  Bool, true, false, ◌≡◌, ◌↔◌, ◌⊎◌, inl, inr, refl, sym, ap, ◌∙◌, ◌||◌, List, [], ◌∷◌, Option, none,
  some, arith, if◌then◌else◌, Bool-cases, Bool-ext,
}
use graybox_core.Recording.{Headers}
use graybox_core.Sanitize.Redact.{is_sensitive, redact_all, redact_headers}
use graybox_core.Sanitize.Rules.{
  Rules, apply_names, apply_entries, apply_headers, merge_names, merge,
}
use graybox_core.Sort.{sort_strings}
use graybox_core.Sort.Laws.{In, In-sort_by, sort_by-In}
use graybox_core.Text.{Str, equal, less, equal_fold}
use graybox_core.Text.Laws.{equal_iff}
use mathlib.Core.Option.{map}

-- A configured name that is the given one but for letter case.
abbrev pub names_it : List Str → Str → Bool
names_it [] name = false
names_it (n ∷ names) name = equal_fold name n || names_it names name

redact_all_idem : (values : List Str) → redact_all (redact_all values) ≡ redact_all values
unfolding redact_all
redact_all_idem [] = refl
redact_all_idem (v ∷ values) = rw (redact_all_idem values) refl

apply_names_lem :
    (names : List Str) (name : Str) (values : List Str)
    → apply_names names name values ≡ (if names_it names name then redact_all values else values)
unfolding apply_names
apply_names_lem [] name values = refl
apply_names_lem (n ∷ names) name values = ground (
  arith,
  apply_names_lem names name values,
  apply_names_lem names name (redact_all values),
  redact_all_idem values,
)

-- What becomes of the values under a name.
abbrev pub hidden : Rules → Str → List Str → List Str
hidden r name values =
    if is_sensitive name || names_it r.headers name then redact_all values else values

hide_lem :
    (r : Rules) (name : Str) (values : List Str)
    → apply_names r.headers name (if is_sensitive name then redact_all values else values)
      ≡ hidden r name values
hide_lem r name values = ground (
  arith,
  apply_names_lem r.headers name values,
  apply_names_lem r.headers name (redact_all values),
  redact_all_idem values,
)

apply_entries_lem :
    (r : Rules) (k : Str) (h : Headers)
    → lookup k (apply_entries r.headers (redact_headers h)) ≡ map (hidden r k) (lookup k h)
unfolding lookup apply_entries redact_headers
apply_entries_lem r k [] = refl
apply_entries_lem r k ((name, values) ∷ h) = elim (Bool-cases (equal name k)) [
  | inl e ↦
      rw e (ap some (hide_lem r name values ∙ ap (λ n. hidden r n values) ((equal_iff name k).0 e)))
  | inr e ↦ rw e (apply_entries_lem r k h)
]

-- `ApplyHeaders` keeps every name. It replaces each value by the marker where the name is a
-- credential header or, but for letter case, a configured one, and changes no other value.
pub apply_headers_lem :
    (r : Rules) (src : Headers) (name : Str)
    → lookup name (apply_headers r src) ≡ map (hidden r name) (lookup name src)
unfolding apply_headers
apply_headers_lem r src name = apply_entries_lem r name src

names_it→In :
    (names : List Str) (name : Str)
    → names_it names name ≡ true
    → (n : Str) × (In n names × (equal_fold name n ≡ true))
names_it→In [] name h = ground arith
names_it→In (n ∷ names) name h = elim (Bool-cases (equal_fold name n)) [
  | inl e ↦ (n, (inl refl, e))
  | inr e ↦ let (m, (i, f)) = names_it→In names name (ground arith) in (m, (inr i, f))
]

pub In→names_it :
    (names : List Str) (name n : Str)
    → In n names
    → equal_fold name n ≡ true
    → names_it names name ≡ true
In→names_it [] name n i f = absurd i
In→names_it (m ∷ names) name n (inl e) f = rw (sym e, f) refl
In→names_it (m ∷ names) name n (inr i) f = ground (arith, In→names_it names name n i f)

In-merge_names :
    (n : Str) (left right : List Str) → In n (merge_names left right) ↔ (In n right ⊎ In n left)
unfolding merge_names sort_strings
In-merge_names n left right = (
  λ i.
      (elim ((In-add_keys n right (add_keys left [])).0
        (In-sort_by less n (add_keys right (add_keys left [])) i)) [
          | inl p ↦ inl p
          | inr p ↦ (elim ((In-add_keys n left []).0 p) [ inl q ↦ inr q | inr q ↦ absurd q ])
        ]),
  λ i. sort_by-In less n (add_keys right (add_keys left [])) (
      (In-add_keys n right (add_keys left [])).1
        (elim i [ inl p ↦ inl p | inr p ↦ inr ((In-add_keys n left []).1 (inl p)) ])),
)

-- The merged list names what either list names.
names_it-merge_names :
    (left right : List Str) (name : Str)
    → names_it (merge_names left right) name ≡ names_it right name || names_it left name
names_it-merge_names left right name =
    Bool-ext (names_it (merge_names left right) name) (names_it right name || names_it left name)
      (λ h.
        (let (n, (i, f)) = names_it→In (merge_names left right) name h in
          elim ((In-merge_names n left right).0 i) [
            | inl p ↦ rw (In→names_it right name n p f) refl
            | inr p ↦ ground (arith, In→names_it left name n p f)
          ]))
      (λ h. (elim (Bool-cases (names_it right name)) [
        | inl e ↦
            let (n, (i, f)) = names_it→In right name e in
            In→names_it (merge_names left right) name n ((In-merge_names n left right).1 (inl i)) f
        | inr e ↦
            let (n, (i, f)) = names_it→In left name (ground arith) in
            In→names_it (merge_names left right) name n ((In-merge_names n left right).1 (inr i)) f
      ]))

hidden-merge :
    (r other : Rules) (name : Str) (values : List Str)
    → hidden (merge r other) name values ≡ hidden other name (hidden r name values)
unfolding merge
hidden-merge r other name values =
    ground (arith, names_it-merge_names r.headers other.headers name, redact_all_idem values)

-- Redacting headers by a merged policy is redacting them by the one policy and then by the other.
pub apply_headers-merge :
    (r other : Rules) (src : Headers) (name : Str)
    → lookup name (apply_headers (merge r other) src)
      ≡ lookup name (apply_headers other (apply_headers r src))
apply_headers-merge r other src name =
    apply_headers_lem (merge r other) src name
    ∙ both (lookup name src)
    ∙ sym (
        apply_headers_lem other (apply_headers r src) name
        ∙ ap (map (hidden other name)) (apply_headers_lem r src name))
  where
    both :
        (o : Option (List Str))
        → map (hidden (merge r other) name) o ≡ map (hidden other name) (map (hidden r name) o)
    both none = refl
    both (some values) = ap some (hidden-merge r other name values)
