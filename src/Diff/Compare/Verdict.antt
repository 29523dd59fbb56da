-- ===== src/Diff/Compare/Verdict.antt =====
-- What the result of `Compare` says of the two responses.
use graybox_core.Diff.Body.Values.Same.{SameJson}
use graybox_core.Diff.Body.Values.Verdict.{compare_json_values_iff}
use graybox_core.Diff.Body.{ensure_comparable_body, decode_json, compare_contents, compare_body}
use graybox_core.Diff.Compare.{compare_status, option_list, compare}
use graybox_core.Diff.Domain.{Difference}
use graybox_core.Diff.Headers.{compare_headers}
use graybox_core.Diff.Location.{Rules, any_ignores, ignores, body_location}
use graybox_core.Failure.{BodySide, baseline_side, current_side}
use graybox_core.Json.Codec.{Codec}
use graybox_core.Json.{Json}
use graybox_core.Prelude.{
  ℕ, true, false, ◌≡◌, ◌↔◌, ◌⊎◌, refl, sym, ◌∙◌, inl, inr, List, [], ◌∷◌, ◌++◌, none, some, arith,
  Bool-cases, Option-cases,
}
use graybox_core.Recording.{Response}
use graybox_core.Text.Laws.{equal_iff}
use graybox_core.Text.{Str, equal}
use mathlib.Core.List.{cons-ne-nil}
use mathlib.Core.Option.{some-injective}
use mathlib.Core.Path.{subst}

-- Every byte of the body was kept, and the body was received to its end.
abbrev pub Available : Response → Type 0
Available r = (r.truncated ≡ false) × (r.complete ≡ true)

ensure_comparable_body_iff :
    (side : BodySide) (r : Response) → (ensure_comparable_body side r ≡ none) ↔ Available r
unfolding ensure_comparable_body
ensure_comparable_body_iff side r = ground arith

-- Both bodies are the same bytes, or both decode as JSON to the same value.
pub data SameBody (json : Codec) (b c : Str) : Type 0 where
  same_bytes : b ≡ c → SameBody json b c
  same_values :
      (v w : Json)
      → decode_json json b ≡ some v
      → decode_json json c ≡ some w
      → SameJson json v w
      → SameBody json b c

module _ (sha256 : Str → Str) (json : Codec) where
  undecodable_left :
      {A : Type 0} (b c : Str)
      → equal b c ≡ false
      → decode_json json b ≡ none
      → SameBody json b c
      → A
  undecodable_left b c e n (same_bytes p) = absurd (cc ((equal_iff b c).1 p))
  undecodable_left b c e n (same_values v w p q s) = absurd (cc)

  undecodable_right :
      {A : Type 0} (b c : Str)
      → equal b c ≡ false
      → decode_json json c ≡ none
      → SameBody json b c
      → A
  undecodable_right b c e n (same_bytes p) = absurd (cc ((equal_iff b c).1 p))
  undecodable_right b c e n (same_values v w p q s) = absurd (cc)

  decoded :
      (b c : Str) (v w : Json)
      → equal b c ≡ false
      → decode_json json b ≡ some v
      → decode_json json c ≡ some w
      → SameBody json b c
      → SameJson json v w
  decoded b c v w e n m (same_bytes p) = absurd (cc ((equal_iff b c).1 p))
  decoded b c v w e n m (same_values v' w' p q s) =
      let ev = some-injective v' v (sym p ∙ n) in
      let ew = some-injective w' w (sym q ∙ m) in
      subst (λ x. SameJson json x w) ev (subst (λ y. SameJson json v' y) ew s)

  compare_contents_iff :
      (b c : Str)
      → (compare_contents sha256 json (record { ignore = [] }) b c ≡ []) ↔ SameBody json b c
  unfolding compare_contents
  compare_contents_iff b c = elim (Bool-cases (equal b c)) [
    | inl e ↦ rw e (λ _. same_bytes ((equal_iff b c).0 e), λ _. refl)
    | inr e ↦ elim (Option-cases (decode_json json b)) [
      | inl n ↦ rw (e, n, compare_contents) (λ h. cc, undecodable_left b c e n)
      | inr (v, n) ↦ elim (Option-cases (decode_json json c)) [
        | inl m ↦ rw (e, n, m, compare_contents) (λ h. cc, undecodable_right b c e m)
        | inr (w, m) ↦
            rw (e, n, m, compare_contents)
              (
                λ h. same_values v w n m ((compare_json_values_iff json [] v w).0 h),
                λ h. (compare_json_values_iff json [] v w).1 (decoded b c v w e n m h),
              )
      ]
    ]
  ]

  -- The error is absent exactly when the body is ignored or both bodies are available.
  compare_body-ignored :
      (rules : Rules) (b c : Response)
      → ignores rules (body_location []) ≡ true
      → compare_body sha256 json rules b c ≡ ([], none)
  unfolding compare_body
  compare_body-ignored rules b c e = rw e

  compare_body-Available :
      (rules : Rules) (b c : Response)
      → ignores rules (body_location []) ≡ false
      → Available b
      → Available c
      → compare_body sha256 json rules b c
        ≡ (compare_contents sha256 json rules b.body c.body, none)
  unfolding compare_body
  compare_body-Available rules b c e h k = rw (
    e,
    (ensure_comparable_body_iff baseline_side b).1 h,
    (ensure_comparable_body_iff current_side c).1 k,
    compare_body,
  )

  compare_body-err :
      (rules : Rules) (b c : Response)
      → ignores rules (body_location []) ≡ false
      → (compare_body sha256 json rules b c).1 ≡ none
      → Available b × Available c
  unfolding compare_body
  compare_body-err rules b c e h = elim (Option-cases (ensure_comparable_body baseline_side b)) [
    | inl n ↦ elim (Option-cases (ensure_comparable_body current_side c)) [
      | inl m ↦ (
        (ensure_comparable_body_iff baseline_side b).0 n,
        (ensure_comparable_body_iff current_side c).0 m,
      )
      | inr (f, m) ↦ cc (rw (e, n, m, compare_body) at h)
    ]
    | inr (f, n) ↦ cc (rw (e, n, compare_body) at h)
  ]

-- `Compare` returns no error exactly when the whole body is ignored or both bodies are available:
-- complete, and captured without truncation.
pub compare-err_iff :
    (sha256 : Str → Str) (json : Codec) (b c : Response) (rules : Rules)
    → ((compare sha256 json b c rules).1 ≡ none)
      ↔ ((ignores rules (body_location []) ≡ true) ⊎ (Available b × Available c))
unfolding compare
compare-err_iff sha256 json b c rules = (
  λ h. elim (Bool-cases (ignores rules (body_location []))) [
    | inl e ↦ inl e
    | inr e ↦ inr (compare_body-err sha256 json rules b c e h)
  ],
  λ h. elim h [
    | inl e ↦ rw (compare_body-ignored sha256 json rules b c e)
    | inr (k, l) ↦ elim (Bool-cases (ignores rules (body_location []))) [
      | inl e ↦ rw (compare_body-ignored sha256 json rules b c e)
      | inr e ↦ rw (compare_body-Available sha256 json rules b c e k l)
    ]
  ],
)

-- The status differs from the recorded one.
compare_status_iff :
    (m n : ℕ) → (option_list (compare_status m n (record { ignore = [] })) ≡ []) ↔ (m ≡ n)
unfolding compare_status ignores any_ignores
compare_status_iff m n = ground arith

nothing_ignored : (ignores (record { ignore = [] }) (body_location [])) ≡ false
unfolding ignores any_ignores
nothing_ignored = refl

split-nil : (xs ys zs : List Difference) → xs ++ (ys ++ zs) ≡ [] → (xs ≡ []) × (ys ≡ []) × (zs ≡ [])
split-nil [] [] zs e = (refl, refl, e)
split-nil [] (y ∷ ys) zs e = absurd (cons-ne-nil y (ys ++ zs) e)
split-nil (x ∷ xs) ys zs e = absurd (cons-ne-nil x (xs ++ (ys ++ zs)) e)

-- The two responses behave alike: equal status codes, equal entries under every header name, and
-- available bodies that are the same.
pub record Alike (json : Codec) (b c : Response) : Type 0 where
  pub status : b.status_code ≡ c.status_code
  pub headers : compare_headers b.headers c.headers (record { ignore = [] }) ≡ []
  pub available : Available b × Available c
  pub body : SameBody json b.body c.body

-- With no ignore rules `Compare` returns no difference and no error exactly when the responses behave
-- alike: the same status code, no header difference, both bodies available, and the bodies equal as
-- bytes or as JSON values.
pub compare-Alike :
    (sha256 : Str → Str) (json : Codec) (b c : Response)
    → (((compare sha256 json b c (record { ignore = [] })).0.differences ≡ [])
        × ((compare sha256 json b c (record { ignore = [] })).1 ≡ none))
      ↔ Alike json b c
unfolding compare
compare-Alike sha256 json b c = (
  λ h.
      let available =
        compare_body-err sha256 json (record { ignore = [] }) b c nothing_ignored h.1 in
      let whole =
        compare_body-Available sha256 json (record { ignore = [] }) b c nothing_ignored available.0
          available.1 in
      let (status, headers, contents) = split-nil _ _ _ (rw whole at h.0) in
      record {
        status = (compare_status_iff b.status_code c.status_code).0 status;
        headers = headers;
        available = available;
        body = (compare_contents_iff sha256 json b.body c.body).0 contents;
      },
  λ k.
      rw
        (
          compare_body-Available sha256 json (record { ignore = [] }) b c nothing_ignored
              k.available.0 k.available.1,
          (compare_status_iff b.status_code c.status_code).1 k.status,
          k.headers,
          (compare_contents_iff sha256 json b.body c.body).1 k.body,
        )
        (refl, refl),
)
