-- ===== src/Regex/Outputs/Written.antt =====
-- What stands in the tables, line by line, where the system lets them be written.
use zk_pse.Base.{
  ℕ, suc, ◌+◌, true, List, [], ◌∷◌, ◌++◌, length, map, append_assoc, append-nil, get_elem?, Option,
  none, some, ◌≡◌, refl, sym, ap, ap₂, ◌∙◌, arith,
}
use zk_pse.Std.Map.{Map, Set}
use zk_pse.Std.Ord.{nat_ord, pair_ord}
use zk_pse.Std.Sort.{sort}
use zk_pse.Std.Text.{Text, bytes, decimal, cat, join}
use zk_pse.Regex.Structs.{RegexAndDfa, DfaStateNode, DfaGraph}
use zk_pse.Regex.Driver.{returns, fails, panics, or_panic, ◌>>=◌}
use zk_pse.Regex.Graph.{get_accepted_state, get_max_state}
use zk_pse.Regex.Halo2.{
  Outputs, FileSystem, write_file, after_allstr, io_fails, write_substrs, substr_text,
  gen_halo2_tables, dfa_to_regex_def_text, state_lines, transition_lines,
}

-- lines of a file, each with its end
abbrev pub file_of : List Text → Text
file_of lines = cat (map (λ line. line ++ bytes "\n") lines)

abbrev pub numbers_line : List ℕ → Text
numbers_line ns = join (bytes " ") (map decimal ns)

abbrev pub edge_line : ℕ × ℕ → Text
edge_line d = decimal d.0 ++ bytes " " ++ decimal d.1

-- A table of a substring has the start states, the end states, and the edges in order, one a line.
abbrev pub substr_table : Set ℕ × Set ℕ → Set (ℕ × ℕ) → Text
substr_table (starts, ends) defs =
    file_of (numbers_line starts ∷ numbers_line ends ∷ map edge_line (sort defs))

-- a line for each byte of each edge
unfoldable pub edges_lines : ℕ → Map ℕ (Set ℕ) → List Text
edges_lines i [] = []
edges_lines i ((next_state, chars) ∷ transitions) =
    map (λ char. decimal i ++ bytes " " ++ decimal next_state ++ bytes " " ++ decimal char) chars
    ++ edges_lines i transitions

unfoldable pub states_lines : ℕ → List DfaStateNode → List Text
states_lines i [] = []
states_lines i (state ∷ states) = edges_lines i state.transitions ++ states_lines (suc i) states

-- The table of the automaton has the start state, the accepting one, the greatest, and the edges of
-- the states in order.
abbrev pub allstr_table : DfaGraph → ℕ → Text
allstr_table dfa accepted =
    file_of (bytes "0" ∷ decimal accepted ∷ decimal (get_max_state dfa) ∷ states_lines 0 dfa.states)

-- a file for each substring
unfoldable pub substr_tables :
    List Text → List (Set ℕ × Set ℕ) → List (Set (ℕ × ℕ)) → List (Text × Text)
substr_tables (p ∷ ps) (b ∷ bs) (d ∷ ds) = (p, substr_table b d) ∷ substr_tables ps bs ds
substr_tables [] bs ds = []
substr_tables (p ∷ ps) [] ds = []
substr_tables (p ∷ ps) (b ∷ bs) [] = []

file_of-append : (xs ys : List Text) → file_of (xs ++ ys) ≡ file_of xs ++ file_of ys
unfolding cat
file_of-append [] ys = refl
file_of-append (x ∷ xs) ys =
    ap (◌++◌ (x ++ bytes "\n")) (file_of-append xs ys)
    ∙ sym (append_assoc (x ++ bytes "\n") (file_of xs) (file_of ys))

cat_lines {ℓ} :
    {A : Type ℓ} (g : A → Text) (xs : List A)
    → cat (map (λ x. g x ++ bytes "\n") xs) ≡ file_of (map g xs)
unfolding cat
cat_lines g [] = refl
cat_lines g (x ∷ xs) = ap (◌++◌ (g x ++ bytes "\n")) (cat_lines g xs)

substr_text-table :
    (both : Set ℕ × Set ℕ) (defs : Set (ℕ × ℕ)) → substr_text both defs ≡ substr_table both defs
unfolding substr_text
substr_text-table (starts, ends) defs =
    ap (◌++◌ (numbers_line starts ++ bytes "\n" ++ (numbers_line ends ++ bytes "\n")))
      (cat_lines edge_line (sort defs))
    ∙ append_assoc (numbers_line starts ++ bytes "\n") (numbers_line ends ++ bytes "\n")
        (file_of (map edge_line (sort defs)))
    ∙ unfold cat in refl

transition_lines-file_of :
    (i : ℕ) (transitions : Map ℕ (Set ℕ))
    → transition_lines i transitions ≡ file_of (edges_lines i transitions)
unfolding transition_lines edges_lines cat
transition_lines-file_of i [] = refl
transition_lines-file_of i ((next_state, chars) ∷ transitions) =
    let line : ℕ → Text =
      λ char. decimal i ++ bytes " " ++ decimal next_state ++ bytes " " ++ decimal char in
    ap₂ ◌++◌ (cat_lines line chars) (transition_lines-file_of i transitions)
    ∙ sym (file_of-append (map line chars) (edges_lines i transitions))

state_lines-file_of :
    (i : ℕ) (states : List DfaStateNode) → state_lines i states ≡ file_of (states_lines i states)
unfolding state_lines states_lines cat
state_lines-file_of i [] = refl
state_lines-file_of i (state ∷ states) =
    ap₂ ◌++◌ (transition_lines-file_of i state.transitions) (state_lines-file_of (suc i) states)
    ∙ sym (file_of-append (edges_lines i state.transitions) (states_lines (suc i) states))

dfa_text :
    (r : RegexAndDfa) (a : ℕ)
    → get_accepted_state r.dfa ≡ some a
    → dfa_to_regex_def_text r ≡ returns (allstr_table r.dfa a)
unfolding dfa_to_regex_def_text cat
dfa_text r a e =
    let after : ℕ → Text → Text = λ accepted_state edges.
      bytes "0\n"
      ++ decimal accepted_state
      ++ bytes "\n"
      ++ decimal (get_max_state r.dfa)
      ++ bytes "\n"
      ++ edges in
    ap
      (λ o. or_panic o >>= λ accepted_state.
        returns (after accepted_state (state_lines 0 r.dfa.states)))
      e
    ∙ ap (λ z. returns (after a z)) (state_lines-file_of 0 r.dfa.states)
    ∙ ap returns (lined (states_lines 0 r.dfa.states))
  where
    lined :
        (ls : List Text)
        → (bytes "0\n"
            ++ decimal a
            ++ bytes "\n"
            ++ decimal (get_max_state r.dfa)
            ++ bytes "\n"
            ++ file_of ls)
          ≡ file_of (bytes "0" ∷ decimal a ∷ decimal (get_max_state r.dfa) ∷ ls)
    lined ls =
        let first = decimal a ++ bytes "\n" in
        let greatest = decimal (get_max_state r.dfa) in
        ap (λ z. bytes "0\n" ++ z)
          (ap (λ z. z ++ file_of ls) (append_assoc first greatest (bytes "\n"))
            ∙ append_assoc first (greatest ++ bytes "\n") (file_of ls))

-- The system makes every file and fails on no write.
abbrev pub IsWritable : FileSystem → Type 0
IsWritable system =
    ((path : Text) → system.create path ≡ none)
    × ((path text : Text) → system.write path text ≡ none)

-- From a place on, with a path and boundaries for each substring that is left.
write_substrs-returns :
    (system : FileSystem) (paths : List Text) (bs : List (Set ℕ × Set ℕ)) (idx : ℕ)
    (ranges : List (Set (ℕ × ℕ))) (ps : List Text) (cs : List (Set ℕ × Set ℕ))
    (files : List (Text × Text))
    → IsWritable system
    → ((i : ℕ) → get_elem? paths (idx + i) ≡ get_elem? ps i)
    → ((i : ℕ) → get_elem? bs (idx + i) ≡ get_elem? cs i)
    → length ps ≡ length ranges
    → length cs ≡ length ranges
    → write_substrs system paths (some bs) idx ranges files
      ≡ record { files = files ++ substr_tables ps cs ranges; outcome = returns tt }
unfolding write_substrs substr_tables
write_substrs-returns system paths bs idx [] [] [] files ok hp hb lp lb =
    ap (λ z. record { files = z; outcome = returns tt }) (sym (append-nil files))
write_substrs-returns system paths bs idx [] (p ∷ ps) cs files ok hp hb lp lb = absurd (omega arith)
write_substrs-returns system paths bs idx [] [] (c ∷ cs) files ok hp hb lp lb = absurd (omega arith)
write_substrs-returns system paths bs idx (d ∷ ds) [] cs files ok hp hb lp lb = absurd (omega arith)
write_substrs-returns system paths bs idx (d ∷ ds) (p ∷ ps) [] files ok hp hb lp lb =
    absurd (omega arith)
write_substrs-returns system paths bs idx (d ∷ ds) (p ∷ ps) (c ∷ cs) files (creates, writes) hp hb
      lp lb =
    ap first (ap (get_elem? paths) (omega arith) ∙ hp 0)
    ∙ ap (second p) (creates p)
    ∙ ap (third p) (ap (get_elem? bs) (omega arith) ∙ hb 0)
    ∙ ap (fourth p c) (writes p (substr_text c d))
    ∙ write_substrs-returns system paths bs (suc idx) ds ps cs (files ++ (p, substr_text c d) ∷ [])
        (creates, writes) (λ i. ap (get_elem? paths) (omega arith) ∙ hp (suc i))
        (λ i. ap (get_elem? bs) (omega arith) ∙ hb (suc i)) (omega arith) (omega arith)
    ∙ ap (λ z. record { files = z; outcome = returns tt })
        (append_assoc files ((p, substr_text c d) ∷ []) (substr_tables ps cs ds)
          ∙ ap (λ t. files ++ (p, t) ∷ substr_tables ps cs ds) (substr_text-table c d))
  where
    fourth : Text → Set ℕ × Set ℕ → Option Text → Outputs
    fourth path both o = elim o [
      | some e ↦ io_fails files e
      | none ↦
          write_substrs system paths (some bs) (suc idx) ds
            (files ++ (path, substr_text both d) ∷ [])
    ]

    third : Text → Option (Set ℕ × Set ℕ) → Outputs
    third path o = elim o [
      | none ↦ record { files = files ++ (path, []) ∷ []; outcome = panics }
      | some both ↦ fourth path both (system.write path (substr_text both d))
    ]

    second : Text → Option Text → Outputs
    second path o = elim o [ some e ↦ io_fails files e | none ↦ third path (get_elem? bs idx) ]

    first : Option Text → Outputs
    first o = elim o [
      | none ↦ record { files = files; outcome = panics }
      | some path ↦ second path (system.create path)
    ]

-- With an accepting state, and as many paths and boundaries as ranges, the tables come out.
pub gen_halo2_tables-returns :
    (system : FileSystem) (r : RegexAndDfa) (allstr : Text) (paths : List Text)
    (bs : List (Set ℕ × Set ℕ)) (a : ℕ)
    → IsWritable system
    → get_accepted_state r.dfa ≡ some a
    → r.substrings.substring_boundaries ≡ some bs
    → length paths ≡ length r.substrings.substring_ranges
    → length bs ≡ length r.substrings.substring_ranges
    → gen_halo2_tables system r allstr paths true ≡ record {
      files = (allstr, allstr_table r.dfa a) ∷ substr_tables paths bs r.substrings.substring_ranges;
      outcome = returns tt;
    }
unfolding gen_halo2_tables write_file
gen_halo2_tables-returns system r allstr paths bs a (creates, writes) e eb hp hb =
    let text = allstr_table r.dfa a in
    ap
      (λ o. elim o as (λ x. Outputs) [
        | panics ↦ record { files = []; outcome = panics }
        | fails z ↦ record { files = []; outcome = fails z }
        | returns t ↦ after_allstr system r paths true (write_file system allstr t)
      ])
      (dfa_text r a e)
    ∙ ap (after_allstr system r paths true) (written text)
    ∙ ap (λ b. write_substrs system paths b 0 r.substrings.substring_ranges ((allstr, text) ∷ []))
        eb
    ∙ write_substrs-returns system paths bs 0 r.substrings.substring_ranges paths bs
        ((allstr, text) ∷ []) (creates, writes) (λ i. ap (get_elem? paths) (omega arith))
        (λ i. ap (get_elem? bs) (omega arith)) hp hb
  where
    wrote : Text → Option Text → Outputs
    wrote t o = elim o [
      | some e ↦ io_fails [] e
      | none ↦ record { files = (allstr, t) ∷ []; outcome = returns tt }
    ]

    made : Text → Option Text → Outputs
    made t o = elim o [ some e ↦ io_fails [] e | none ↦ wrote t (system.write allstr t) ]

    written :
        (t : Text)
        → write_file system allstr t ≡ record { files = (allstr, t) ∷ []; outcome = returns tt }
    written t = ap (made t) (creates allstr) ∙ ap (wrote t) (writes allstr t)
