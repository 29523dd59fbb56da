-- ===== src/Cli/Redactor/Data/Covered.antt =====
-- The values of a diff hold only redacted texts.
use graybox_core.Cli.Redactor.Data.{
  Member, key_less, format_bool, set_members, redact_value, redact_items, redact_members,
  redact_payload, redact_data,
}
use graybox_core.Cli.Redactor.Output.{set_field}
use graybox_core.Cli.Redactor.Forms.{forms_branch}
use graybox_core.Cli.Redactor.{SecretRedactor, redact}
use graybox_core.Diff.Domain.{Payload, status_data, header_data, json_data, snapshot_data}
use graybox_core.Json.{
  Json, null, boolean, number, string, array, object, Items, nil, cons, Fields, end, field,
}
use graybox_core.Prelude.{
  ◌≡◌, ◌⊎◌, inl, inr, refl, sym, ◌≢◌, List, [], ◌∷◌, map, All, Bool-cases, either_branch,
  if◌then◌else◌,
}
use graybox_core.Sanitize.Redact.{redacted_value}
use graybox_core.Sort.{insert_by, sort_by}
use mathlib.Core.Path.{subst}
use graybox_core.Text.Laws.{equal_iff}
use graybox_core.Text.{Str, equal}

module _ (P : Str → Type 0) where
  -- The predicate holds of every key, string, number and Boolean, as it is written.
  mutual
    pub InValue : Json → Type 0
    InValue null = Unit
    InValue (string s) = P s
    InValue (number n) = P n
    InValue (boolean b) = P (format_bool b)
    InValue (array vs) = InItems vs
    InValue (object fs) = InFields fs

    pub InItems : Items → Type 0
    InItems nil = Unit
    InItems (cons v vs) = InValue v × InItems vs

    pub InFields : Fields → Type 0
    InFields end = Unit
    InFields (field k v fs) = P k × InValue v × InFields fs

  abbrev pub InPayload : Payload → Type 0
  InPayload (status_data code) = Unit
  InPayload (header_data values) = All P values
  InPayload (json_data v) = InValue v
  InPayload (snapshot_data snapshot) = Unit

-- What the redactor writes for some text, or the marker.
abbrev pub IsRedaction : SecretRedactor → Str → Type 0
IsRedaction r t = ((s : Str) × (t ≡ redact r s)) ⊎ (t ≡ redacted_value)

AllMembers : (Str → Type 0) → List Member → Type 0
AllMembers P ms = All (λ m. InValue P m.1) ms

module _ (r : SecretRedactor) where
  abbrev Q : Str → Type 0
  Q = IsRedaction r

  insert_by-values :
      (x : Member) (ms : List Member)
      → InValue Q x.1
      → AllMembers Q ms
      → AllMembers Q (insert_by key_less x ms)
  unfolding insert_by AllMembers
  insert_by-values x [] h k = (h, tt)
  insert_by-values x (m ∷ ms) h k =
      either_branch (AllMembers Q) (key_less m x) (m ∷ insert_by key_less x ms) (x ∷ m ∷ ms)
        (k.0, insert_by-values x ms h k.1) (h, k)

  sort_by-values : (ms : List Member) → AllMembers Q ms → AllMembers Q (sort_by key_less ms)
  unfolding sort_by AllMembers
  sort_by-values [] h = tt
  sort_by-values (m ∷ ms) h = insert_by-values m (sort_by key_less ms) h.0 (sort_by-values ms h.1)

  set_field-values :
      (k : Str) (v : Json) (fs : Fields)
      → Q k
      → InValue Q v
      → InFields Q fs
      → InFields Q (set_field k v fs)
  unfolding set_field InFields
  set_field-values k v end p h i = (p, h, tt)
  set_field-values k v (field j w fs) p h i =
      either_branch (InFields Q) (equal j k) (field k v fs) (field j w (set_field k v fs))
        (p, h, i.2) (i.0, i.1, set_field-values k v fs p h i.2)

  set_members-values :
      (ms : List Member) (fs : Fields)
      → AllMembers Q ms
      → InFields Q fs
      → InFields Q (set_members r ms fs)
  unfolding set_members AllMembers
  set_members-values [] fs h i = i
  set_members-values ((k, v) ∷ ms) fs h i =
      set_members-values ms (set_field (redact r k) v fs) h.1
        (set_field-values (redact r k) v fs (inl (k, refl)) h.0 i)

  -- A scalar is kept only if redaction does not change its text.
  scalar :
      (text : Str) (v : Json)
      → (Q text → InValue Q v)
      → InValue Q (if equal (redact r text) text then v else string redacted_value)
  unfolding InValue
  scalar text v e = elim (Bool-cases (equal (redact r text) text)) [
    | inl k ↦ rw k (e (inl (text, sym ((equal_iff (redact r text) text).0 k))))
    | inr k ↦ rw k (inr refl)
  ]

  mutual
    unfolding redact_value InValue AllMembers

    redact_value-values : (v : Json) → InValue Q (redact_value r v)
    redact_value-values null = tt
    redact_value-values (string s) = inl (s, refl)
    redact_value-values (number n) = scalar n (number n) (λ q. q)
    redact_value-values (boolean b) = scalar (format_bool b) (boolean b) (λ q. q)
    redact_value-values (array vs) = redact_items-values vs
    redact_value-values (object fs) =
        set_members-values (sort_by key_less (redact_members r fs)) end
          (sort_by-values (redact_members r fs) (redact_members-values fs)) tt

    redact_items-values : (vs : Items) → InItems Q (redact_items r vs)
    redact_items-values nil = tt
    redact_items-values (cons v vs) = (redact_value-values v, redact_items-values vs)

    redact_members-values : (fs : Fields) → AllMembers Q (redact_members r fs)
    redact_members-values end = tt
    redact_members-values (field k v fs) = (redact_value-values v, redact_members-values fs)

  All-redacted : (values : List Str) → All Q (map (redact r) values)
  All-redacted [] = tt
  All-redacted (value ∷ values) = (inl (value, refl), All-redacted values)

redact_payload-values :
    (r : SecretRedactor) (payload : Payload) → InPayload (IsRedaction r) (redact_payload r payload)
unfolding redact_payload
redact_payload-values r (json_data v) = redact_value-values r v
redact_payload-values r (header_data values) = All-redacted r values
redact_payload-values r (status_data code) = tt
redact_payload-values r (snapshot_data snapshot) = tt

-- If there are secrets, a value of a diff that is shown holds no other text than the marker and what the
-- redactor makes of a text: keys and header values, and scalars as they are written.
pub redact_data-IsRedaction :
    (r : SecretRedactor) (payload : Payload)
    → r.forms ≢ []
    → InPayload (IsRedaction r) (redact_data r payload)
unfolding redact_data InValue
redact_data-IsRedaction r payload n =
    subst (InPayload (IsRedaction r))
      (sym (forms_branch r.forms payload (redact_payload r payload) n))
      (redact_payload-values r payload)
