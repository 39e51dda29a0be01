-- ===== src/Regex/Outputs/Tables.antt =====
-- When the tables are written, and when writing them panics.
use zk_pse.Base.{
  ℕ, true, List, [], ◌∷◌, ◌++◌, get_elem?, Option, none, some, ◌≡◌, ◌≢◌, refl, sym, ap, ◌∙◌,
}
use zk_pse.Std.Map.{Set}
use zk_pse.Std.Ord.{nat_ord, pair_ord}
use zk_pse.Std.Text.{Text}
use zk_pse.Regex.Structs.{RegexAndDfa}
use zk_pse.Regex.Driver.{Outcome, returns, fails, panics}
use zk_pse.Regex.Halo2.{
  Outputs, write_substrs, gen_halo2_tables, dfa_to_regex_def_text, FileSystem, write_file,
  after_allstr, io_fails,
}
use zk_pse.Regex.Outputs.{and_then}

-- Without boundaries, the first substring is not written.
write_substrs-none :
    (system : FileSystem) (paths : List Text) (idx : ℕ) (ranges : List (Set (ℕ × ℕ)))
    (files : List (Text × Text))
    → ranges ≢ []
    → (write_substrs system paths none idx ranges files).outcome ≢ returns tt
unfolding write_substrs
write_substrs-none system paths idx [] files n = absurd (n refl)
write_substrs-none system paths idx (defs ∷ ranges) files n = one (get_elem? paths idx)
  where
    made : Option Text → Text → Outputs
    made c path = elim c [
      | some e ↦ io_fails files e
      | none ↦ record { files = files ++ (path, []) ∷ []; outcome = panics }
    ]

    two : (c : Option Text) (path : Text) → (made c path).outcome ≢ returns tt
    two none path e = cc e
    two (some x) path e = cc e

    one :
        (o : Option Text)
        → (elim o as (λ x. Outputs) [
          | none ↦ record { files = files; outcome = panics }
          | some path ↦ made (system.create path) path
        ]).outcome
          ≢ returns tt
    one none e = cc e
    one (some path) e = two (system.create path) path e

-- The tables of an automaton without boundaries but with ranges do not come out.
pub gen_halo2_tables-none :
    (system : FileSystem) (r : RegexAndDfa) (allstr : Text) (paths : List Text)
    → r.substrings.substring_boundaries ≡ none
    → r.substrings.substring_ranges ≢ []
    → (gen_halo2_tables system r allstr paths true).outcome ≢ returns tt
unfolding gen_halo2_tables
gen_halo2_tables-none system r allstr paths no_bounds some_range = one (dfa_to_regex_def_text r)
  where
    written :
        (files : List (Text × Text)) (o : Outcome {0} Unit)
        → (after_allstr system r paths true (record { files = files; outcome = o })).outcome
          ≢ returns tt
    written files panics e = cc e
    written files (fails x) e = cc e
    written files (returns _) e =
        write_substrs-none system paths 0 r.substrings.substring_ranges files some_range (
          sym (
            ap (λ b. (write_substrs system paths b 0 r.substrings.substring_ranges files).outcome)
              no_bounds)
          ∙ e)

    one :
        (o : Outcome Text)
        → (elim o as (λ x. Outputs) [
          | panics ↦ record { files = []; outcome = panics }
          | fails e ↦ record { files = []; outcome = fails e }
          | returns text ↦ after_allstr system r paths true (write_file system allstr text)
        ]).outcome
          ≢ returns tt
    one panics e = cc e
    one (fails x) e = cc e
    one (returns text) e =
        written (write_file system allstr text).files (write_file system allstr text).outcome e

pub and_then-returns :
    (first second : Outputs)
    → (and_then first second).outcome ≡ returns tt
    → first.outcome ≡ returns tt
and_then-returns first second e = one first.outcome refl e
  where
    one :
        (o : Outcome {0} Unit)
        → first.outcome ≡ o
        → (elim o as (λ x. Outputs) [
          | returns _ ↦ record { files = first.files ++ second.files; outcome = second.outcome }
          | fails x ↦ first
          | panics ↦ first
        ]).outcome
          ≡ returns tt
        → first.outcome ≡ returns tt
    one (returns _) eq e' = eq
    one (fails x) eq e' = e'
    one panics eq e' = e'
