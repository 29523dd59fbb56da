-- ===== src/Diff/Headers/Normal.antt =====
-- `normalizeHeaders` and `headerNames` against the map that they are given: what is merged under a
-- name, and that the iteration order of the map does not matter.
use graybox_core.Dict.Laws.{SameDict, lookup-put, In-keys, lookup→In}
use graybox_core.Dict.{keys, put}
use graybox_core.Diff.Headers.{values_of, name_less, merge_names, normalize_headers}
use graybox_core.Diff.Location.{header_location}
use graybox_core.Prelude.{
  true, false, ◌≡◌, refl, sym, ◌∙◌, ap, inl, inr, List, [], ◌∷◌, ◌++◌, arith, if◌then◌else◌,
  Bool-cases,
}
use graybox_core.Recording.{Headers}
use graybox_core.Sort.Laws.{In, Distinct, StrictOrder, sort_by-ext}
use graybox_core.Sort.{sort_by}
use graybox_core.Text.Laws.{equal_iff, equal_self, less_irrefl, less_trans, less_total}
use graybox_core.Text.{Str, equal}
use mathlib.Core.List.{append-nil, append_assoc}

-- The comparison path of a header name.
abbrev pub path_of : Str → Str
path_of name = (header_location name).path

name_less_irrefl : (a : Str) → name_less a a ≡ false
unfolding name_less
name_less_irrefl a = rw (equal_self (path_of a)) (less_irrefl a)

name_less_trans : (a b c : Str) → name_less a b ≡ true → name_less b c ≡ true → name_less a c ≡ true
unfolding name_less
name_less_trans a b c h k = ground (
  arith,
  equal_iff (path_of a) (path_of b),
  equal_iff (path_of b) (path_of c),
  equal_iff (path_of a) (path_of c),
  less_trans (path_of a) (path_of b) (path_of c),
  less_trans a b c,
  less_irrefl (path_of a),
  less_irrefl (path_of b),
)

name_less_total : (a b : Str) → name_less a b ≡ false → name_less b a ≡ false → a ≡ b
unfolding name_less
name_less_total a b h k = ground (
  arith,
  equal_iff (path_of a) (path_of b),
  equal_iff (path_of b) (path_of a),
  less_total (path_of a) (path_of b),
  less_total a b,
)

-- The order that `normalizeHeaders` sorts by leaves no tie between different names.
pub name_less-StrictOrder : StrictOrder name_less
name_less-StrictOrder = record {
  irrefl = name_less_irrefl;
  trans = name_less_trans;
  total = name_less_total;
}

merge_names-cong :
    (h h' : Headers) (names : List Str) (acc : Headers)
    → ((name : Str) → values_of name h ≡ values_of name h')
    → merge_names h names acc ≡ merge_names h' names acc
unfolding merge_names
merge_names-cong h h' [] acc e = refl
merge_names-cong h h' (o ∷ names) acc e = rw (e o) (merge_names-cong h h' names _ e)

SameDict-In : (h h' : Headers) → SameDict h h' → (name : Str) → In name (keys h) → In name (keys h')
SameDict-In h h' e name i = lookup→In name h' (λ n. In-keys name h i (e name ∙ n))

-- The order in which the map yields its entries does not change the normalized headers.
pub normalize_headers-SameDict :
    (h h' : Headers)
    → Distinct (keys h)
    → Distinct (keys h')
    → SameDict h h'
    → normalize_headers h ≡ normalize_headers h'
unfolding normalize_headers values_of
normalize_headers-SameDict h h' d d' e =
    merge_names-cong h h' (sort_by name_less (keys h)) [] (λ name. rw (e name, values_of))
    ∙ ap (λ (names : List Str). merge_names h' names [])
        (sort_by-ext name_less name_less-StrictOrder (keys h) (keys h') d d' (SameDict-In h h' e)
          (SameDict-In h' h (λ name. sym (e name))))

-- The values under all the names in the list that have the path `name`, in the list's order.
abbrev pub gather : Headers → Str → List Str → List Str
gather h name [] = []
gather h name (o ∷ os) = (if equal (path_of o) name then values_of o h else []) ++ gather h name os

values_of-put :
    (k j : Str) (vs : List Str) (h : Headers)
    → values_of j (put k vs h) ≡ (if equal k j then vs else values_of j h)
unfolding values_of
values_of-put k j vs h = elim (Bool-cases (equal k j)) [
  | inl e ↦ rw (lookup-put k j vs h, e, values_of)
  | inr e ↦ rw (lookup-put k j vs h, e, values_of)
]

merge_names-values :
    (h : Headers) (name : Str) (names : List Str) (acc : Headers)
    → values_of name (merge_names h names acc) ≡ values_of name acc ++ gather h name names
unfolding merge_names
merge_names-values h name [] acc = sym (append-nil (values_of name acc))
merge_names-values h name (o ∷ os) acc =
    merge_names-values h name os _
    ∙ ap (λ (vs : List Str). vs ++ gather h name os)
        (values_of-put (path_of o) name (values_of (path_of o) acc ++ values_of o h) acc)
    ∙ elim (Bool-cases (equal (path_of o) name)) [
      | inl e ↦
          rw (e, (equal_iff (path_of o) name).0 e)
            (append_assoc (values_of name acc) (values_of o h) (gather h name os))
      | inr e ↦ rw e
    ]

-- Under each name the normalized headers hold the values of every spelling of that name, one spelling
-- after the other in sorted order, each with its values in their recorded order.
pub normalize_headers-values :
    (h : Headers) (name : Str)
    → values_of name (normalize_headers h) ≡ gather h name (sort_by name_less (keys h))
unfolding normalize_headers
normalize_headers-values h name = merge_names-values h name (sort_by name_less (keys h)) []
