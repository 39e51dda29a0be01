-- ===== src/Regex/Outputs/Calls.antt =====
-- The calls from outside: for parts all tables come out, for a single pattern none do.
use zk_pse.Base.{
  ℕ, zero, suc, Bool, true, false, List, [], ◌∷◌, ◌++◌, map, length, length-map, append-nil, Option,
  none, some, inl, inr, ◌≡◌, ◌≢◌, refl, sym, ap, ◌∙◌, arith, Bool-cases,
}
use zk_pse.Std.Map.{Set, add_all}
use zk_pse.Std.Ord.{nat_ord, pair_ord}
use zk_pse.Std.Text.{Text, bytes, decimal, ends_with_char}
use zk_pse.Regex.Structs.{
  Result, ok, err, DfaGraph, RegexPartConfig, DecomposedRegexConfig, RegexAndDfa,
  SubstringDefinitionsJson,
}
use zk_pse.Regex.Driver.{
  Outcome, returns, fails, panics, get_regex_and_dfa, create_regex_and_dfa_from_str_and_defs,
  create_dfa_graph_from_regex, ◌>>=◌,
}
use zk_pse.Regex.Driver.Parts.{count_public, get_regex_and_dfa_lem}
use zk_pse.Regex.Graph.{get_accepted_state}
use zk_pse.Regex.Halo2.{Outputs, FileSystem}
use zk_pse.Regex.Circom.Lines.{Gate}
use zk_pse.Regex.Circom.Transition.{count_up}
use zk_pse.Regex.Outputs.{
  load_substring_definitions_json, unwrap_or, num_public_parts, nothing_written, and_then,
  halo2_outputs, circom_outputs, generate_outputs, outputs_of, gen_from_decomposed, gen_from_raw,
}
use zk_pse.Regex.Outputs.Tables.{gen_halo2_tables-none, and_then-returns}
use zk_pse.Regex.Outputs.Written.{IsWritable, allstr_table, substr_tables, gen_halo2_tables-returns}

num_public_parts-count_public :
    (parts : List RegexPartConfig) → num_public_parts parts ≡ count_public parts
unfolding num_public_parts
num_public_parts-count_public [] = refl
num_public_parts-count_public (part ∷ parts) = elim (Bool-cases part.is_public) [
  | inl y ↦ rw y (ap suc (num_public_parts-count_public parts) ∙ omega arith)
  | inr n ↦ rw n (num_public_parts-count_public parts ∙ omega arith)
]

length-count_up : (n i : ℕ) → length (count_up n i) ≡ n
unfolding count_up
length-count_up zero i = refl
length-count_up (suc n) i = ap suc (length-count_up n (suc i))

map_nil {ℓ κ} : {A : Type ℓ} {B : Type κ} (g : A → B) (xs : List A) → map g xs ≡ [] → xs ≡ []
map_nil g [] e = refl
map_nil g (x ∷ xs) e = cc e

module _ (edge_json : List (Gate × ℕ) → Text) (state_json : List ℕ → Text)
    (join_path : Text → Text → Text) (system : FileSystem) {Dfa : Type 0}
    (build : Text → Option Dfa) (print : Dfa → Text) (state_captures : Text → List (Text × Text))
    (transition_captures : Text → List Text) (start_capture : Text → Option Text)
    (range_captures : Text → Option (Text × Text)) where
  -- Whatever the builder, the captures and the files are: for a single pattern with a directory for
  -- tables, `gen_from_raw` does not return when the definitions have an entry, as the default has,
  -- unless it is told to leave the substrings out.
  pub gen_from_raw-none :
      (read : Text → Result SubstringDefinitionsJson) (raw_regex : Text)
      (substrs_json_path : Option Text) (halo2_dir_path : Text)
      (circom_file_path template_name : Option Text) (gen_substrs : Option Bool)
      (defs : SubstringDefinitionsJson)
      → load_substring_definitions_json read substrs_json_path ≡ ok defs
      → defs.transitions ≢ []
      → gen_substrs ≢ some false
      → (gen_from_raw edge_json state_json join_path system build print state_captures
          transition_captures start_capture range_captures read raw_regex substrs_json_path
          (some halo2_dir_path)
          circom_file_path
          template_name
          gen_substrs).outcome
        ≢ returns tt
  unfolding gen_from_raw generate_outputs halo2_outputs create_regex_and_dfa_from_str_and_defs
  gen_from_raw-none read raw_regex substrs_json_path dir circom_file_path template_name gen_substrs
        defs loaded some_defs wanted e =
      refuses
        (create_dfa_graph_from_regex build print state_captures transition_captures start_capture
          range_captures raw_regex)
        (ap (λ b. (continue (create defs) b).outcome) (sym (wants gen_substrs wanted))
          ∙ sym (
              ap
                (λ o.
                  (elim o as (λ x. Outputs) [
                    | err z ↦ nothing_written (fails z)
                    | ok ds ↦ outputs_of edge_json state_json join_path system (create ds) (λ r.
                        generate_outputs edge_json state_json join_path system r (some dir)
                          circom_file_path template_name (length ds.transitions)
                          (unwrap_or gen_substrs true))
                  ]).outcome)
                loaded)
          ∙ e)
    where
      create : SubstringDefinitionsJson → Outcome RegexAndDfa
      create ds =
          create_regex_and_dfa_from_str_and_defs build print state_captures transition_captures
            start_capture range_captures raw_regex ds

      continue : Outcome RegexAndDfa → Bool → Outputs
      continue o b = outputs_of edge_json state_json join_path system o (λ r.
          generate_outputs edge_json state_json join_path system r (some dir) circom_file_path
            template_name (length defs.transitions) b)

      wants : (g : Option Bool) → g ≢ some false → unwrap_or g true ≡ true
      wants none w = refl
      wants (some true) w = refl
      wants (some false) w = absurd (w refl)

      regex_of : DfaGraph → RegexAndDfa
      regex_of dfa = record {
        regex_pattern = raw_regex;
        dfa = dfa;
        has_end_anchor = ends_with_char raw_regex b'$';
        substrings = record {
          substring_ranges = map (λ transitions. add_all transitions []) defs.transitions;
          substring_boundaries = none;
        };
      }

      refuses :
          (d : Outcome DfaGraph)
          → (continue (d >>= λ dfa. returns (regex_of dfa)) true).outcome ≢ returns tt
      refuses panics q = cc q
      refuses (fails z) q = cc q
      refuses (returns dfa) q =
          gen_halo2_tables-none system (regex_of dfa) (join_path dir (bytes "allstr.txt"))
            (map (λ idx. join_path dir (bytes "substr_" ++ decimal idx ++ bytes ".txt"))
              (count_up (length defs.transitions) 0))
            refl
            (λ u. some_defs (map_nil (λ transitions. add_all transitions []) defs.transitions u))
            (and_then-returns
              (halo2_outputs edge_json state_json join_path system (regex_of dfa) (some dir)
                (length defs.transitions) true)
              (circom_outputs edge_json state_json join_path system (regex_of dfa) circom_file_path
                template_name true)
              q)

  -- the paths of the tables of `n` substrings
  abbrev pub substr_paths : Text → ℕ → List Text
  substr_paths dir n =
      map (λ idx. join_path dir (bytes "substr_" ++ decimal idx ++ bytes ".txt")) (count_up n 0)

  -- When `get_regex_and_dfa` returns on parts, some state accepts, and the system lets files be written:
  -- `gen_from_decomposed` with a directory for tables and the substrings wanted returns, with the table of the
  -- automaton in allstr.txt, the table of each public part under its number in substr_0.txt and so on, and
  -- no other file. Line by line, the first has the start state, the accepting state, the greatest state and the
  -- edges of each state in order, byte by byte; the others have the part's start states, its end states, and its
  -- edges in order.
  pub gen_from_decomposed-tables :
      (read : Text → Result DecomposedRegexConfig) (path dir : Text) (first : RegexPartConfig)
      (rest : List RegexPartConfig) (r : RegexAndDfa) (a : ℕ)
      → IsWritable system
      → read path ≡ ok (record { parts = first ∷ rest })
      → get_regex_and_dfa build print state_captures transition_captures start_capture
          range_captures
          (record { parts = first ∷ rest })
        ≡ returns r
      → get_accepted_state r.dfa ≡ some a
      → (bs : List (Set ℕ × Set ℕ)) × (r.substrings.substring_boundaries ≡ some bs)
        × (length bs ≡ count_public (first ∷ rest))
        × (length r.substrings.substring_ranges ≡ count_public (first ∷ rest))
        × (gen_from_decomposed edge_json state_json join_path system build print state_captures
              transition_captures start_capture range_captures read path
              (some dir)
              none
              none
              (some true)
            ≡ record {
              files =
                  (join_path dir (bytes "allstr.txt"), allstr_table r.dfa a)
                  ∷ substr_tables
                      (substr_paths dir (count_public (first ∷ rest)))
                      bs
                      r.substrings.substring_ranges;
              outcome = returns tt;
            })
  unfolding gen_from_decomposed generate_outputs halo2_outputs circom_outputs
  gen_from_decomposed-tables read path dir first rest r a writable loaded built accepted =
      let parts = first ∷ rest in
      let n = num_public_parts parts in
      let paths = substr_paths dir n in
      let (_, ranges, (bs, eb, bounds)) =
        get_regex_and_dfa_lem build print state_captures transition_captures start_capture
          range_captures first rest built in
      let len : length paths ≡ count_public parts =
        length-map (λ idx. join_path dir (bytes "substr_" ++ decimal idx ++ bytes ".txt"))
          (count_up n 0)
        ∙ length-count_up n 0
        ∙ num_public_parts-count_public parts in
      let tables =
        gen_halo2_tables-returns system r (join_path dir (bytes "allstr.txt")) paths bs a writable
          accepted eb (len ∙ sym ranges) (bounds ∙ sym ranges) in
      (
        bs,
        eb,
        bounds,
        ranges,
        ap
              (λ o. elim o as (λ x. Outputs) [
                | err z ↦ nothing_written (fails z)
                | ok config ↦ outputs_of edge_json state_json join_path system (made config) (λ q.
                    generate_outputs edge_json state_json join_path system q (some dir) none none
                      (num_public_parts config.parts) true)
              ])
              loaded
            ∙ ap
                (λ o. outputs_of edge_json state_json join_path system o (λ q.
                  generate_outputs edge_json state_json join_path system q (some dir) none none n
                    true))
                built
            ∙ ap (λ t. and_then t (nothing_written (returns tt))) tables
            ∙ ap (λ z. record { files = z; outcome = returns tt })
                (append-nil _
                  ∙ ap
                      (λ k.
                        (join_path dir (bytes "allstr.txt"), allstr_table r.dfa a)
                        ∷ substr_tables (substr_paths dir k) bs r.substrings.substring_ranges)
                      (num_public_parts-count_public parts)),
      )
    where
      made : DecomposedRegexConfig → Outcome RegexAndDfa
      made config =
          get_regex_and_dfa build print state_captures transition_captures start_capture
            range_captures config
