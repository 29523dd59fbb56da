-- ===== src/Config.antt =====
-- internal/config/config.go: the check on a YAML document before it is decoded.
pub mod Strict
use graybox_core.Cli.Config.{Config}
use graybox_core.Dict.{contains}
use graybox_core.Failure.{Error, failure, Result, ok, err}
use graybox_core.Prelude.{
  Bool, true, false, not, ◌&&◌, List, [], ◌∷◌, Option, none, some, if◌then◌else◌,
}
use graybox_core.Text.{Str, codes, equal}

-- `yaml.Node`, by its kind, with its tag and its content; a mapping's content comes in pairs of a key and
-- a value.
mutual
  pub data Node : Type 0 where
    document : Nodes → Node
    mapping : Str → Entries → Node
    sequence : Str → Nodes → Node
    scalar : Str → Str → Node
    alias : Node

  pub data Nodes : Type 0 where
    nil : Nodes
    cons : Node → Nodes → Nodes

  pub data Entries : Type 0 where
    end : Entries
    entry : Node → Node → Entries → Entries

abbrev pub is_mapping : Node → Bool
is_mapping (mapping tag entries) = true
is_mapping _ = false

-- The key of an entry: the value of a scalar that is a string.
abbrev pub string_key : Node → Option Str
string_key (scalar tag value) = if equal tag (codes "!!str") then some value else none
string_key _ = none

-- `validNode`; `seen` are the keys of the mapping so far.
unfoldable mutual
  pub valid_node : Node → Bool
  valid_node (document (cons node nil)) = is_mapping node && valid_node node
  valid_node (document nil) = false
  valid_node (document (cons a (cons b nodes))) = false
  valid_node (mapping tag entries) = equal tag (codes "!!map") && valid_entries [] entries
  valid_node (sequence tag nodes) = equal tag (codes "!!seq") && valid_nodes nodes
  valid_node (scalar tag value) = equal tag (codes "!!str")
  valid_node alias = false

  pub valid_nodes : Nodes → Bool
  valid_nodes nil = true
  valid_nodes (cons node nodes) = valid_node node && valid_nodes nodes

  pub valid_entries : List Str → Entries → Bool
  valid_entries seen end = true
  valid_entries seen (entry key value entries) =
      let rest : Str → Bool = λ k. valid_entries (k ∷ seen) entries in
      elim (string_key key) [
        | none ↦ false
        | some k ↦ not (contains seen k) && (valid_node value && rest k)
      ]

-- The decoders of a text: its first document and whether another follows, and the strict decoding into
-- a configuration.
pub record Yaml : Type 0 where
  pub first : Str → Option Node
  pub more : Str → Bool
  pub strict : Str → Option Config

abbrev invalid : Error
invalid = failure (codes "invalid graybox configuration")

unfoldable pub decode_strict : Option Config → Result Config
decode_strict none = err invalid
decode_strict (some cfg) = ok cfg

-- `Parse`
unfoldable pub parse : Yaml → Str → Result Config
unfolding valid_node decode_strict
parse yaml text = elim (yaml.first text) [
  | none ↦ err invalid
  | some node ↦
      if not (valid_node node)
      then err invalid
      else if yaml.more text
      then err invalid
      else decode_strict (yaml.strict text)
]
