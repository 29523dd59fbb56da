-- ===== src/Replay/Headers/Nominated.antt =====
-- Which names the Connection header nominates, as the header is written, and that `copyReplayHeaders`
-- omits them.
use graybox_core.Dict.{contains, lookup}
use graybox_core.Prelude.{
  ℕ, true, false, ◌≡◌, ◌≢◌, inl, inr, refl, sym, ap, ◌∙◌, List, [], ◌∷◌, ◌++◌, some, arith, ◌==◌,
  All, All-append, if◌then◌else◌, Option-cases,
}
use graybox_core.Recording.{Headers}
use graybox_core.Replay.Headers.{omitted_headers, add_tokens, add_nominated, omitted_names}
use graybox_core.Sort.Laws.{In}
use graybox_core.Text.Laws.{equal_iff}
use graybox_core.Text.Split.{StartsAt, EndsAt, split_on-In, trim_space-between, last_byte}
use graybox_core.Text.{Str, codes, equal, to_lower, is_space, trim_space, split_on}
use mathlib.Core.Path.{subst}

-- The headers that belong to one connection, or that the request carries otherwise.
abbrev pub connection_headers : List Str
connection_headers =
    codes "connection"
    ∷ codes "proxy-connection"
    ∷ codes "keep-alive"
    ∷ codes "te"
    ∷ codes "trailer"
    ∷ codes "transfer-encoding"
    ∷ codes "upgrade"
    ∷ codes "proxy-authenticate"
    ∷ codes "proxy-authorization"
    ∷ codes "host"
    ∷ codes "content-length"
    ∷ []

-- Neither a comma nor white space.
abbrev pub IsNameByte : ℕ → Type 0
IsNameByte c = ((c == b',') ≡ false) × (is_space c ≡ false)

abbrev IsBlank : Str → Type 0
IsBlank = All (λ c. is_space c ≡ true)

-- The value is a list between commas, and one of its members is the name, in some spelling and with white
-- space around it.
pub record Lists (name value : Str) : Type 0 where
  pub before : Str
  pub left : Str
  pub spelled : Str
  pub right : Str
  pub after : Str
  pub written : value ≡ before ++ ((left ++ (spelled ++ right)) ++ after)
  pub starts : StartsAt b',' before
  pub left_blank : All (λ c. is_space c ≡ true) left
  pub filled : spelled ≢ []
  pub solid : All IsNameByte spelled
  pub right_blank : All (λ c. is_space c ≡ true) right
  pub ends : EndsAt b',' after
  pub named : to_lower spelled ≡ to_lower name

-- A value of the Connection header lists the name.
abbrev pub IsNominated : Headers → Str → Type 0
IsNominated src name =
    (values : List Str) × (lookup (codes "Connection") src ≡ some values)
    × (value : Str) × In value values
    × Lists name value

abbrev NoComma : ℕ → Type 0
NoComma c = (c == b',') ≡ false

All-weaken : (P Q : ℕ → Type 0) (s : Str) → ((c : ℕ) → P c → Q c) → All P s → All Q s
All-weaken P Q [] f h = tt
All-weaken P Q (c ∷ s) f h = (f c h.0, All-weaken P Q s f h.1)

trimmed :
    (left spelled right : Str)
    → IsBlank left
    → IsBlank right
    → spelled ≢ []
    → All IsNameByte spelled
    → trim_space (left ++ (spelled ++ right)) ≡ spelled
trimmed left [] right l r n s = absurd (n refl)
trimmed left (c ∷ spelled) right l r n s =
    let (b, y, e, last) = last_byte IsNameByte c spelled s in
    trim_space-between left (c ∷ spelled) right spelled b c y l r refl e s.0.1 last.1

module _ (k : Str) where
  contains_later :
      (token : Str) (omitted : List Str)
      → contains omitted k ≡ true
      → contains
          (if equal (trim_space token) [] then omitted else to_lower (trim_space token) ∷ omitted)
          k
        ≡ true
  contains_later token omitted h = ground arith

  add_tokens-keeps :
      (tokens omitted : List Str)
      → contains omitted k ≡ true
      → contains (add_tokens tokens omitted) k ≡ true
  unfolding add_tokens
  add_tokens-keeps [] omitted h = h
  add_tokens-keeps (token ∷ tokens) omitted h =
      add_tokens-keeps tokens _ (contains_later token omitted h)

  add_tokens-adds :
      (tokens omitted : List Str) (token : Str)
      → In token tokens
      → trim_space token ≢ []
      → to_lower (trim_space token) ≡ k
      → contains (add_tokens tokens omitted) k ≡ true
  unfolding add_tokens
  add_tokens-adds [] omitted token i n e = absurd i
  add_tokens-adds (t ∷ tokens) omitted token (inl p) n e = add_tokens-keeps tokens _ (
      subst
        (λ u.
          contains (if equal (trim_space u) [] then omitted else to_lower (trim_space u) ∷ omitted)
            k
          ≡ true)
        p
        (ground
          (arith, equal_iff (trim_space token) [], equal_iff (to_lower (trim_space token)) k)))
  add_tokens-adds (t ∷ tokens) omitted token (inr i) n e = add_tokens-adds tokens _ token i n e

  add_nominated-keeps :
      (values omitted : List Str)
      → contains omitted k ≡ true
      → contains (add_nominated values omitted) k ≡ true
  unfolding add_nominated
  add_nominated-keeps [] omitted h = h
  add_nominated-keeps (value ∷ values) omitted h =
      add_nominated-keeps values _ (add_tokens-keeps (split_on b',' value) omitted h)

  add_nominated-adds :
      (values omitted : List Str) (value token : Str)
      → In value values
      → In token (split_on b',' value)
      → trim_space token ≢ []
      → to_lower (trim_space token) ≡ k
      → contains (add_nominated values omitted) k ≡ true
  unfolding add_nominated
  add_nominated-adds [] omitted value token i j n e = absurd i
  add_nominated-adds (v ∷ values) omitted value token (inl p) j n e = add_nominated-keeps values _ (
      add_tokens-adds (split_on b',' v) omitted token (subst (λ u. In token (split_on b',' u)) p j)
        n e)
  add_nominated-adds (v ∷ values) omitted value token (inr i) j n e =
      add_nominated-adds values _ value token i j n e

covered : All (λ j. contains omitted_headers j ≡ true) connection_headers
unfolding equal
covered = ground arith

among :
    (names : List Str) (k : Str)
    → All (λ j. contains omitted_headers j ≡ true) names
    → In k names
    → contains omitted_headers k ≡ true
among [] k h i = absurd i
among (name ∷ names) k h (inl p) = subst (λ j. contains omitted_headers j ≡ true) (sym p) h.0
among (name ∷ names) k h (inr i) = among names k h.1 i

-- A connection header is omitted, whatever the recording.
pub omitted_connection :
    (src : Headers) (k : Str) → In k connection_headers → contains (omitted_names src) k ≡ true
unfolding omitted_names
omitted_connection src k i = elim (Option-cases (lookup (codes "Connection") src)) [
  | inl n ↦ rw (omitted_names, n) always
  | inr (values, n) ↦ rw (omitted_names, n) (add_nominated-keeps k values omitted_headers always)
]
  where
    always : contains omitted_headers k ≡ true
    always = among connection_headers k covered i

-- A nominated header is omitted.
pub omitted_nominated :
    (src : Headers) (name : Str)
    → IsNominated src name
    → contains (omitted_names src) (to_lower name) ≡ true
unfolding omitted_names
omitted_nominated src name (values, n, value, i, l) =
    let token = l.left ++ (l.spelled ++ l.right) in
    let t = trimmed l.left l.spelled l.right l.left_blank l.right_blank l.filled l.solid in
    let blank : (s : Str) → IsBlank s → All NoComma s =
      λ s h. All-weaken (λ c. is_space c ≡ true) NoComma s (λ c k. ground arith) h in
    let plain = All-append NoComma l.left (l.spelled ++ l.right) (blank l.left l.left_blank) (
      All-append NoComma l.spelled l.right
        (All-weaken IsNameByte NoComma l.spelled (λ c k. k.0) l.solid)
        (blank l.right l.right_blank)) in
    rw (omitted_names, n)
      (add_nominated-adds (to_lower name) values omitted_headers value token i
        (rw l.written (split_on-In b',' l.before token l.after l.starts plain l.ends))
        (λ e. l.filled (sym t ∙ e)) (ap to_lower t ∙ l.named))
