-- ===== src/Config/Strict.antt =====
-- What a configuration that is parsed was written as.
use graybox_core.Config.{
  Node, document, mapping, sequence, scalar, alias, Nodes, nil, cons, Entries, end, entry,
  string_key, valid_node, valid_nodes, valid_entries, Yaml, decode_strict, parse,
}
use graybox_core.Cli.Config.{Config}
use graybox_core.Dict.Laws.{In→contains}
use graybox_core.Dict.{contains}
use graybox_core.Failure.{ok}
use graybox_core.Prelude.{
  Bool, true, false, not, ◌&&◌, ◌≡◌, inl, inr, sym, List, [], ◌∷◌, Option, none, some, arith,
  Bool-cases, Option-cases,
}
use graybox_core.Sort.Laws.{In}
use mathlib.Core.Path.{subst}
use graybox_core.Text.Laws.{equal_iff}
use graybox_core.Text.{Str, codes, equal}

-- Strings, sequences, and mappings from distinct strings, with no alias.
mutual
  pub data IsPlain : Node → Type 0 where
    plain_scalar : (value : Str) → IsPlain (scalar (codes "!!str") value)
    plain_sequence : {nodes : Nodes} → ArePlain nodes → IsPlain (sequence (codes "!!seq") nodes)
    plain_mapping :
        {entries : Entries} → AreDistinct [] entries → IsPlain (mapping (codes "!!map") entries)
    plain_document : {node : Node} → IsPlain node → IsPlain (document (cons node nil))

  pub data ArePlain : Nodes → Type 0 where
    plain_nil : ArePlain nil
    plain_cons :
        {node : Node} {nodes : Nodes} → IsPlain node → ArePlain nodes → ArePlain (cons node nodes)

  pub data AreDistinct : List Str → Entries → Type 0 where
    distinct_end : {seen : List Str} → AreDistinct seen end
    distinct_entry :
        {seen : List Str} (key : Str) {value : Node} {entries : Entries}
        → ¬ In key seen
        → IsPlain value
        → AreDistinct (key ∷ seen) entries
        → AreDistinct seen (entry (scalar (codes "!!str") key) value entries)

string_key-scalar :
    (key : Node) (k : Str) → string_key key ≡ some k → key ≡ scalar (codes "!!str") k
string_key-scalar (scalar tag value) k h = elim (Bool-cases (equal tag (codes "!!str"))) [
  | inl e ↦ let t = (equal_iff tag (codes "!!str")).0 e in let v = rw e at h in cc
  | inr e ↦ cc (rw e at h)
]
string_key-scalar (document nodes) k h = cc
string_key-scalar (mapping tag entries) k h = cc
string_key-scalar (sequence tag nodes) k h = cc
string_key-scalar alias k h = cc

both : (a b : Bool) → (a && b) ≡ true → (a ≡ true) × (b ≡ true)
both a b h = ground arith

mutual
  unfolding valid_node

  valid_node-IsPlain : (node : Node) → valid_node node ≡ true → IsPlain node
  valid_node-IsPlain (document (cons node nil)) h =
      plain_document (valid_node-IsPlain node (both _ _ h).1)
  valid_node-IsPlain (document nil) h = cc
  valid_node-IsPlain (document (cons a (cons b nodes))) h = cc
  valid_node-IsPlain (mapping tag entries) h =
      let (t, k) = both (equal tag (codes "!!map")) (valid_entries [] entries) h in
      subst (λ x. IsPlain (mapping x entries)) (sym ((equal_iff tag (codes "!!map")).0 t))
        (plain_mapping (valid_entries-AreDistinct [] entries k))
  valid_node-IsPlain (sequence tag nodes) h =
      let (t, k) = both (equal tag (codes "!!seq")) (valid_nodes nodes) h in
      subst (λ x. IsPlain (sequence x nodes)) (sym ((equal_iff tag (codes "!!seq")).0 t))
        (plain_sequence (valid_nodes-ArePlain nodes k))
  valid_node-IsPlain (scalar tag value) h =
      subst (λ x. IsPlain (scalar x value)) (sym ((equal_iff tag (codes "!!str")).0 h))
        (plain_scalar value)
  valid_node-IsPlain alias h = cc

  valid_nodes-ArePlain : (nodes : Nodes) → valid_nodes nodes ≡ true → ArePlain nodes
  valid_nodes-ArePlain nil h = plain_nil
  valid_nodes-ArePlain (cons node nodes) h =
      let (t, k) = both (valid_node node) (valid_nodes nodes) h in
      plain_cons (valid_node-IsPlain node t) (valid_nodes-ArePlain nodes k)

  valid_entries-AreDistinct :
      (seen : List Str) (entries : Entries)
      → valid_entries seen entries ≡ true
      → AreDistinct seen entries
  valid_entries-AreDistinct seen end h = distinct_end
  valid_entries-AreDistinct seen (entry key value entries) h =
      elim (Option-cases (string_key key)) [
        | inl n ↦ cc (rw (valid_entries, n) at h)
        | inr (k, n) ↦
            let (fresh, rest) =
              both (not (contains seen k)) (valid_node value && valid_entries (k ∷ seen) entries)
                (rw (valid_entries, n) at h) in
            let (v, es) = both (valid_node value) (valid_entries (k ∷ seen) entries) rest in
            subst (λ x. AreDistinct seen (entry x value entries)) (sym (string_key-scalar key k n))
              (distinct_entry k (λ m. ground (arith, fresh, In→contains seen k m))
                (valid_node-IsPlain value v) (valid_entries-AreDistinct (k ∷ seen) entries es))
      ]

decoded : (o : Option Config) (cfg : Config) → decode_strict o ≡ ok cfg → o ≡ some cfg
unfolding decode_strict
decoded none cfg h = cc
decoded (some c) cfg h = cc

-- A text that is accepted as a configuration holds one document, which is a tree of mappings from distinct
-- strings, sequences and strings, with no alias and no other scalar, and the configuration is what the
-- strict decoder reads in it.
pub parse-IsPlain :
    (yaml : Yaml) (text : Str) (cfg : Config)
    → parse yaml text ≡ ok cfg
    → (node : Node) × (yaml.first text ≡ some node)
      × IsPlain node
      × (yaml.more text ≡ false)
      × (yaml.strict text ≡ some cfg)
unfolding parse
parse-IsPlain yaml text cfg h = elim (Option-cases (yaml.first text)) [
  | inl n ↦ cc (rw (parse, n) at h)
  | inr (node, n) ↦ elim (Bool-cases (valid_node node)) [
    | inr v ↦ cc (rw (parse, n, v) at h)
    | inl v ↦ elim (Bool-cases (yaml.more text)) [
      | inl m ↦ cc (rw (parse, n, v, m) at h)
      | inr m ↦ (
        node,
        n,
        valid_node-IsPlain node v,
        m,
        decoded (yaml.strict text) cfg (rw (parse, n, v, m) at h),
      )
    ]
  ]
]
