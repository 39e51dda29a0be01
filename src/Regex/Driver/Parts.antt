-- ===== src/Regex/Driver/Parts.antt =====
-- `get_regex_and_dfa` (compiler/src/regex.rs): what it keeps of each part.
use zk_pse.Base.{
  Bool-cases, false, ℕ, suc, ◌+◌, if◌then◌else◌, List, [], ◌∷◌, length, length-append, Option, none,
  some, ◌≡◌, refl, sym, ap, ◌∙◌, arith, inl, inr, ⊎_elim, subst, eq_of_some,
}
use zk_pse.Std.Map.{Set}
use zk_pse.Std.Text.{Text}
use zk_pse.Regex.Structs.{RegexPartConfig, DecomposedRegexConfig, DfaGraph, RegexAndDfa}
use zk_pse.Regex.Caret.{find_caret_index, process_caret_in_regex, validate_end_anchor}
use zk_pse.Regex.Caret.Split.{pattern_of, split_parts, process_caret_in_regex_lem}
use zk_pse.Regex.Graph.{handle_caret_regex, rename_states, get_max_state, add_dfa}
use zk_pse.Regex.Driver.{
  Outcome, returns, fails, panics, ◌>>=◌, try, or_panic, Progress, convert_dfa_to_graph, build_dfa,
  record_public, add_part, add_parts, get_regex_and_dfa, start_progress,
}

bind-returns {ℓ κ} :
    {A : Type ℓ} {B : Type κ} (o : Outcome A) (k : A → Outcome B) {b : B}
    → (o >>= k) ≡ returns b
    → (a : A) × (o ≡ returns a) × (k a ≡ returns b)
bind-returns (returns a) k h = (a, refl, h)
bind-returns (fails e) k h = cc
bind-returns panics k h = cc

eq_of_returns {ℓ} : {A : Type ℓ} {a b : A} → Outcome.returns a ≡ returns b → a ≡ b
eq_of_returns {a} {b} h = ap (λ o. elim o [ returns x ↦ x | fails e ↦ a | panics ↦ a ]) h

abbrev pub count_public : List RegexPartConfig → ℕ
count_public [] = 0
count_public (p ∷ parts) = (if p.is_public then 1 else 0) + count_public parts

-- After the loop has gone over `parts` there are as many ranges and boundaries more as public parts.
abbrev Keeps : List RegexPartConfig → Progress → Progress → Type 0
Keeps parts s s' =
    (length s'.substring_ranges_array ≡ length s.substring_ranges_array + count_public parts)
    × (length s'.substring_boundaries_array
        ≡ length s.substring_boundaries_array + count_public parts)

record_public-Keeps :
    (regex : RegexPartConfig) (s : Progress) (g : DfaGraph) (m : ℕ)
    → Keeps (regex ∷ []) s (record_public regex s g m)
unfolding record_public
record_public-Keeps regex s g m = elim (Bool-cases regex.is_public) [
  | inl e ↦
      rw e (length-append s.substring_ranges_array _, length-append s.substring_boundaries_array _)
  | inr e ↦ rw e (omega arith, omega arith)
]

count_public-split_parts :
    (o : Option ℕ) (parts : List RegexPartConfig)
    → count_public (split_parts o parts) ≡ count_public parts
unfolding split_parts
count_public-split_parts none parts = refl
count_public-split_parts (some i) [] = refl
count_public-split_parts (some i) (p ∷ parts) = omega arith

module _ {Dfa : Type 0} (build : Text → Option Dfa) (print : Dfa → Text)
    (state_captures : Text → List (Text × Text)) (transition_captures : Text → List Text)
    (start_capture : Text → Option Text) (range_captures : Text → Option (Text × Text)) where
  abbrev run_parts :
      DecomposedRegexConfig → Option ℕ → ℕ → List RegexPartConfig → Progress → Outcome Progress
  run_parts = add_parts build print state_captures transition_captures start_capture range_captures

  abbrev run : DecomposedRegexConfig → Outcome RegexAndDfa
  run =
      get_regex_and_dfa build print state_captures transition_captures start_capture range_captures

  add_part-Keeps :
      (d : DecomposedRegexConfig) (c : Option ℕ) (i : ℕ) (regex : RegexPartConfig) (s : Progress)
      {s' : Progress}
      → add_part build print state_captures transition_captures start_capture range_captures d c i
          regex s
        ≡ returns s'
      → Keeps (regex ∷ []) s s'
  unfolding add_part
  add_part-Keeps d c i regex s h =
      let (_, _, h1) = bind-returns (try (validate_end_anchor d i regex)) _ h in
      let (_, _, h2) =
        bind-returns
          (build_dfa build print state_captures transition_captures start_capture range_captures
            regex.regex_def _)
          _ h1 in
      let (_, _, h3) =
        bind-returns
          (convert_dfa_to_graph build print state_captures transition_captures start_capture
            range_captures _)
          _ h2 in
      let (_, _, h4) = bind-returns (try (handle_caret_regex i c regex _)) _ h3 in
      let (g, _, h5) =
        bind-returns (or_panic (rename_states _ (get_max_state s.net_dfa_graph))) _ h4 in
      let (_, _, h6) = bind-returns (or_panic (add_dfa s.net_dfa_graph g)) _ h5 in
      subst (Keeps (regex ∷ []) s) (eq_of_returns h6)
        (record_public-Keeps regex s g (get_max_state s.net_dfa_graph))

  add_parts-Keeps :
      (d : DecomposedRegexConfig) (c : Option ℕ) (i : ℕ) (parts : List RegexPartConfig)
      (s : Progress) {s' : Progress}
      → run_parts d c i parts s ≡ returns s'
      → Keeps parts s s'
  unfolding add_parts
  add_parts-Keeps d c i [] s h =
      let e = eq_of_returns h in subst (Keeps [] s) e (omega arith, omega arith)
  add_parts-Keeps d c i (regex ∷ parts) s h =
      let (t, e, h') =
        bind-returns
          (add_part build print state_captures transition_captures start_capture range_captures d c
            i regex s)
          _ h in
      let here = add_part-Keeps d c i regex s e in
      let rest = add_parts-Keeps d c (suc i) parts t h' in (omega arith, omega arith)

  -- The parts that the loop runs over, when the call does not panic before it.
  split_of :
      (first : RegexPartConfig) (rest : List RegexPartConfig)
      {split : DecomposedRegexConfig × Option ℕ}
      → process_caret_in_regex false (record { parts = first ∷ rest }) ≡ some split
      → (count_public split.0.parts ≡ count_public (first ∷ rest))
        × (pattern_of split.0.parts ≡ pattern_of (first ∷ rest))
  split_of first rest {split} e =
      ⊎_elim (λ p. let panic = p.0 in absurd (cc))
        (λ (_, made, kept).
          let same_split : (
            record { parts = split_parts (find_caret_index first.regex_def) (first ∷ rest) },
            find_caret_index first.regex_def,
          )
              ≡ split =
            eq_of_some (sym made ∙ e) in
          subst
            (λ z.
              (count_public z.0.parts ≡ count_public (first ∷ rest))
              × (pattern_of z.0.parts ≡ pattern_of (first ∷ rest)))
            same_split
            (count_public-split_parts (find_caret_index first.regex_def) (first ∷ rest), kept))
        (process_caret_in_regex_lem false (first ∷ rest))

  or_panic-returns : {A : Type 0} (o : Option A) {a : A} → or_panic o ≡ returns a → o ≡ some a
  or_panic-returns none h = cc
  or_panic-returns (some a) h = ap some (eq_of_returns h)

  -- When `get_regex_and_dfa` returns, whatever the builder and the captures yield, the pattern is
  -- that of the parts it was given, and there is one set of edges and one pair of boundaries for
  -- each public part: neither the split at a caret nor the loop loses or adds one.
  pub get_regex_and_dfa_lem :
      (first : RegexPartConfig) (rest : List RegexPartConfig) {r : RegexAndDfa}
      → run (record { parts = first ∷ rest }) ≡ returns r
      → (r.regex_pattern ≡ pattern_of (first ∷ rest))
        × (length r.substrings.substring_ranges ≡ count_public (first ∷ rest))
        × ((bs : List (Set ℕ × Set ℕ)) × (r.substrings.substring_boundaries ≡ some bs)
            × (length bs ≡ count_public (first ∷ rest)))
  unfolding get_regex_and_dfa
  get_regex_and_dfa_lem first rest h =
      let (split, e, h1) =
        bind-returns (or_panic (process_caret_in_regex false (record { parts = first ∷ rest }))) _
          h in
      let (count, pattern) =
        split_of first rest
          (or_panic-returns (process_caret_in_regex false (record { parts = first ∷ rest })) e) in
      let (s, es, h2) =
        bind-returns (run_parts split.0 split.1 0 split.0.parts start_progress) _ h1 in
      let (ranges, boundaries) =
        add_parts-Keeps split.0 split.1 0 split.0.parts start_progress es in
      let result = eq_of_returns h2 in
      (
        ap (λ z. z.regex_pattern) (sym result) ∙ pattern,
        ap (λ z. length z.substrings.substring_ranges) (sym result) ∙ omega (arith, ranges, count),
        (
          s.substring_boundaries_array,
          ap (λ z. z.substrings.substring_boundaries) (sym result),
          omega (arith, boundaries, count),
        ),
      )
