-- ===== src/Regex/Circom/Template/Quoted.antt =====
-- The pattern stays in the comment that quotes it.
use zk_pse.Base.{
  ℕ, ◌==◌, Bool, false, ◌||◌, [], ◌∷◌, ◌++◌, get_elem?, some, ◌⊎◌, ◌≡◌, refl, ap₂, ◌∙◌, arith,
  Bool-cases, inl, inr,
}
use zk_pse.Std.Ord.{nat_ord, same, same_iff}
use zk_pse.Std.Map.{contains}
use zk_pse.Std.Text.{Text, bytes}
use zk_pse.Regex.Circom.Template.{replace, quoted, generate_declarations}

contains-append : (c : ℕ) (s t : Text) → contains c (s ++ t) ≡ (contains c s || contains c t)
unfolding contains
contains-append c [] t = refl
contains-append c (b ∷ s) t = ground (arith, contains-append c s t)

-- A byte that is replaced is gone, when the text put in its place does not have it; and no byte
-- comes in that was neither there nor in that text.
replace-without :
    (c : ℕ) (text s : Text) (d : ℕ)
    → contains d text ≡ false
    → (contains d s ≡ false) ⊎ (d ≡ c)
    → contains d (replace c text s) ≡ false
unfolding replace contains
replace-without c text [] d out why = refl
replace-without c text (b ∷ s) d out why = elim (Bool-cases (b == c)) [
  | inl y ↦ rw y (
      contains-append d text (replace c text s)
      ∙ ap₂ ◌||◌ out (replace-without c text s d out (later why)))
  | inr n ↦ rw n (ap₂ ◌||◌ (here n why) (replace-without c text s d out (later why)))
]
  where
    later : (same d b || contains d s ≡ false) ⊎ (d ≡ c) → (contains d s ≡ false) ⊎ (d ≡ c)
    later (inl e) = inl (ground arith)
    later (inr e) = inr e

    here : (b == c) ≡ false → (same d b || contains d s ≡ false) ⊎ (d ≡ c) → same d b ≡ false
    here n (inl e) = ground arith
    here n (inr e) = ground (arith, same_iff d b)

-- Whatever the pattern and the other arguments are, the third line of the declarations is
-- `// regex: ` and a text with neither a newline (10) nor a carriage return (13): no byte of the
-- pattern leaves the comment.
pub generate_declarations-quoted :
    (template_name regex_str : Text) (state_len eq_i lt_i and_i multi_or_i : ℕ) (end_anchor : Bool)
    → (text : Text) × (get_elem?
          (generate_declarations template_name regex_str state_len eq_i lt_i and_i multi_or_i
            end_anchor)
          2
        ≡ some (bytes "// regex: " ++ text))
      × (contains 10 text ≡ false)
      × (contains 13 text ≡ false)
unfolding generate_declarations
generate_declarations-quoted template_name regex_str state_len eq_i lt_i and_i multi_or_i
      end_anchor =
    let escaped = replace b'\n' (bytes "\\n") regex_str in
    (
      quoted regex_str,
      refl,
      replace-without b'\r' (bytes "\\r") escaped 10 (unfold contains in refl) (
          inl (
            replace-without b'\n' (bytes "\\n") regex_str 10 (unfold contains in refl) (inr refl))),
      replace-without b'\r' (bytes "\\r") escaped 13 (unfold contains in refl) (inr refl),
    )
