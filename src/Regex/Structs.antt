-- ===== src/Regex/Structs.antt =====
-- regex/zk-regex-compiler-v2/packages/compiler/src/structs.rs and errors.rs: the data of the compiler.
use zk_pse.Base.{ℕ, List, Bool, Option}
use zk_pse.Std.Map.{Map, Set}
use zk_pse.Std.Text.{Text}

-- The errors that the functions modelled here return. `BuildError` stands for that of the DFA
-- builder of regex-automata, `RegexError` for that of the regex crate.
pub data CompilerError : Type 0 where
  file_open_error : Text → CompilerError
  generic_error : Text → CompilerError
  build_error : Text → CompilerError
  regex_error : CompilerError
  parse_error : Text → CompilerError
  graph_error : Text → CompilerError
  accept_nodes_error : Text → CompilerError

-- `std::result::Result`
pub data Result {ℓ} (A : Type ℓ) : Type ℓ where
  ok : A → Result A
  err : CompilerError → Result A

infixl 5 ◌>>=◌
abbrev pub ◌>>=◌ {ℓ κ} : {A : Type ℓ} {B : Type κ} → Result A → (A → Result B) → Result B
ok a >>= k = k a
err e >>= k = err e

-- `ok_or_else`
abbrev pub ok_or {ℓ} : {A : Type ℓ} → Option A → CompilerError → Result A
ok_or Option.none e = err e
ok_or (Option.some a) e = ok a

pub record RegexPartConfig : Type 0 where
  pub is_public : Bool
  pub regex_def : Text

pub record DecomposedRegexConfig : Type 0 where
  pub parts : List RegexPartConfig

pub record DfaStateInfo : Type 0 where
  pub typ : Text
  pub source : ℕ
  pub edges : Map Text ℕ

pub record DfaGraphInfo : Type 0 where
  pub states : List DfaStateInfo

pub record DfaStateNode : Type 0 where
  pub state_type : Text
  pub state_id : ℕ
  pub transitions : Map ℕ (Set ℕ)

pub record DfaGraph : Type 0 where
  pub states : List DfaStateNode

pub record SubstringDefinitions : Type 0 where
  pub substring_ranges : List (Set (ℕ × ℕ))
  pub substring_boundaries : Option (List (Set ℕ × Set ℕ))

pub record RegexAndDfa : Type 0 where
  pub regex_pattern : Text
  pub dfa : DfaGraph
  pub has_end_anchor : Bool
  pub substrings : SubstringDefinitions

pub record SubstringDefinitionsJson : Type 0 where
  pub transitions : List (List (ℕ × ℕ))
