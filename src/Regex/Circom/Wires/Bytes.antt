-- ===== src/Regex/Circom/Wires/Bytes.antt =====
-- What all the tests of an edge's bytes come to.
use zk_pse.Base.{
  ℕ, ◌<◌, ◌≤◌, ◌-◌, ◌==◌, true, false, not, ◌&&◌, ◌||◌, List, [], ◌∷◌, ◌++◌, map, Option, none,
  some, ◌≡◌, refl, sym, ap, ap₂, ◌∙◌, arith, All,
}
use zk_pse.Std.Ord.{same_iff, nat_ord, pair_ord, bytes_ord}
use zk_pse.Std.Map.{get, contains}
use zk_pse.Regex.Circom.Transition.{add_ranges, add_code, add_codes, retain_nonzero, add_checks}
use zk_pse.Regex.Circom.Lines.{Gate, eq_gate, and_gate}
use zk_pse.Std.Sort.{sort, contains-sort, sort-IsSorted}
use zk_pse.Regex.Circom.Ranges.{optimize_char_ranges}
use zk_pse.Regex.Circom.Ranges.Cover.{in_range, in_ranges, optimize_char_ranges-splits}
use zk_pse.Regex.Circom.Gates.{Builder, add_range_check, new_range_check, add_eq_check}
use zk_pse.Regex.Circom.Wires.{Wiring, any_on, out}
use zk_pse.Regex.Circom.Wires.Checks.{
  any_on-concat, or_assoc, or_false, Keeps, Keeps-map, Keeps-trans, add_eq_check-Tests,
  add_range_check-Tests,
}

pub contains-retain_nonzero :
    (c : ℕ) (k : List ℕ) → contains c (retain_nonzero k) ≡ (contains c k && not (c == 0))
unfolding retain_nonzero contains
contains-retain_nonzero c [] = refl
contains-retain_nonzero c (x ∷ k) = ground (arith, contains-retain_nonzero c k, same_iff c x)

bounds_of_long :
    (rs : List (ℕ × ℕ))
    → All (λ r. 16 ≤ r.1 - r.0) rs
    → ((c : ℕ) → in_ranges c rs ≡ true → c < 256)
    → All (λ r. (r.0 < 256) × (r.1 < 256)) rs
unfolding in_ranges
bounds_of_long [] _ low = tt
bounds_of_long ((min, max) ∷ rs) (long, all) low =
    let top : max < 256 = low max (ground arith) in
    ((ground arith, top), bounds_of_long rs all (λ c e. low c (ground arith)))

pub not_nil {ℓ} : {A : Type ℓ} (xs : List A) (x : A) → ¬ (xs ++ x ∷ [] ≡ [])
not_nil [] x e = cc e
not_nil (y ∷ xs) x e = cc e

-- If no component was made, there was nothing to test.
add_ranges-nil :
    (rs : List (ℕ × ℕ)) (s : Builder × List (Gate × ℕ))
    → (add_ranges rs s).1 ≡ []
    → (rs ≡ []) × (s.1 ≡ [])
unfolding add_ranges add_range_check
add_ranges-nil [] s e = (refl, e)
add_ranges-nil ((min, max) ∷ rs) (b, outputs) e = absurd (
    one (get (min, max) b.range_checks)
      (add_ranges-nil rs (add_range_check min max (b, outputs)) e).1)
  where
    one :
        (o : Option (ℕ × ℕ))
        → ¬ (
            (elim o as (λ x. Builder × List (Gate × ℕ)) [
              | some (_, and_i) ↦ (b, outputs ++ (and_gate, and_i) ∷ [])
              | none ↦ (new_range_check min max b, outputs ++ (and_gate, b.and_i) ∷ [])
            ]).1
            ≡ [])
    one none = not_nil outputs (and_gate, b.and_i)
    one (some (l, and_i)) = not_nil outputs (and_gate, and_i)

add_codes-nil :
    (codes : List ℕ) (s : Builder × List (Gate × ℕ))
    → (add_codes codes s).1 ≡ []
    → (codes ≡ []) × (s.1 ≡ [])
unfolding add_codes add_code
add_codes-nil [] s e = (refl, e)
add_codes-nil (code ∷ codes) (b, outputs) e =
    absurd (not_nil outputs (eq_gate, _) (add_codes-nil codes (add_code code (b, outputs)) e).1)

pub add_checks-nil :
    (chars : List ℕ) (b : Builder)
    → (add_checks chars b).1 ≡ []
    → (c : ℕ) → (contains c chars && not (c == 0)) ≡ false
unfolding add_checks in_ranges contains
add_checks-nil chars b e c =
    let k = sort (retain_nonzero chars) in
    let (rs, codes) = optimize_char_ranges k in
    let (no_codes, empty) = add_codes-nil codes (add_ranges rs (b, [])) e in
    let (no_ranges, _) = add_ranges-nil rs (b, []) empty in
    sym (contains-sort c (retain_nonzero chars) ∙ contains-retain_nonzero c chars)
    ∙ sym ((optimize_char_ranges-splits k (sort-IsSorted (retain_nonzero chars))).0 c).0
    ∙ ap₂ ◌||◌ (ap (in_ranges c) no_ranges) (ap (contains c) no_codes)

module _ (w : Wiring) where
  add_ranges-Tests :
      (rs : List (ℕ × ℕ)) (b : Builder) (outputs : List (Gate × ℕ))
      → All (λ r. (r.0 < 256) × (r.1 < 256)) rs
      → Keeps w b (add_ranges rs (b, outputs)).0 (
          any_on (map (out w.p) (add_ranges rs (b, outputs)).1)
          ≡ (any_on (map (out w.p) outputs) || in_ranges w.p.byte rs))
  unfolding add_ranges in_ranges
  add_ranges-Tests [] b outputs _ s = (s, λ t. (t, or_false (any_on (map (out w.p) outputs))))
  add_ranges-Tests ((min, max) ∷ rs) b outputs ((lo, hi), all) s =
      let first = add_range_check min max (b, outputs) in
      let before = any_on (map (out w.p) outputs) in
      let here = in_range w.p.byte (min, max) in
      Keeps-map w b (add_ranges rs first).0
        ((any_on (map (out w.p) first.1) ≡ (before || here))
          × (any_on (map (out w.p) (add_ranges rs first).1)
              ≡ (any_on (map (out w.p) first.1) || in_ranges w.p.byte rs)))
        (any_on (map (out w.p) (add_ranges rs first).1)
          ≡ (before || (here || in_ranges w.p.byte rs)))
        (λ (q, r).
          r
          ∙ ap (λ z. z || in_ranges w.p.byte rs) q
          ∙ sym (or_assoc before here (in_ranges w.p.byte rs)))
        (Keeps-trans w b first.0 (add_ranges rs first).0
          (any_on (map (out w.p) first.1) ≡ (before || here))
          (any_on (map (out w.p) (add_ranges rs first).1)
            ≡ (any_on (map (out w.p) first.1) || in_ranges w.p.byte rs))
          (add_range_check-Tests w min max b outputs lo hi)
          (add_ranges-Tests rs first.0 first.1 all))
        s

  add_codes-Tests :
      (codes : List ℕ) (b : Builder) (outputs : List (Gate × ℕ))
      → Keeps w b (add_codes codes (b, outputs)).0 (
          any_on (map (out w.p) (add_codes codes (b, outputs)).1)
          ≡ (any_on (map (out w.p) outputs) || contains w.p.byte codes))
  unfolding add_codes add_code contains
  add_codes-Tests [] b outputs s = (s, λ t. (t, or_false (any_on (map (out w.p) outputs))))
  add_codes-Tests (code ∷ codes) b outputs s =
      let first = add_code code (b, outputs) in
      let index = (add_eq_check code b).1 in
      let before = any_on (map (out w.p) outputs) in
      Keeps-map w b (add_codes codes first).0
        ((w.p.eq_out index ≡ (w.p.byte == code))
          × (any_on (map (out w.p) (add_codes codes first).1)
              ≡ (any_on (map (out w.p) first.1) || contains w.p.byte codes)))
        (any_on (map (out w.p) (add_codes codes first).1)
          ≡ (before || ((w.p.byte == code) || contains w.p.byte codes)))
        (λ (q, r).
          r
          ∙ ap (λ z. z || contains w.p.byte codes)
              (any_on-concat (out w.p) outputs (eq_gate, index) ∙ ap (◌||◌ before) q)
          ∙ sym (or_assoc before (w.p.byte == code) (contains w.p.byte codes)))
        (Keeps-trans w b first.0 (add_codes codes first).0 (w.p.eq_out index ≡ (w.p.byte == code))
          (any_on (map (out w.p) (add_codes codes first).1)
            ≡ (any_on (map (out w.p) first.1) || contains w.p.byte codes))
          (add_eq_check-Tests w code b) (add_codes-Tests codes first.0 first.1))
        s

  pub add_checks-Tests :
      (chars : List ℕ) (b : Builder)
      → ((c : ℕ) → contains c chars ≡ true → c < 256)
      → Keeps w b (add_checks chars b).0 (
          any_on (map (out w.p) (add_checks chars b).1)
          ≡ (contains w.p.byte chars && not (w.p.byte == 0)))
  unfolding add_checks
  add_checks-Tests chars b low s =
      let k = sort (retain_nonzero chars) in
      let (cover, long) = optimize_char_ranges-splits k (sort-IsSorted (retain_nonzero chars)) in
      let member : (c : ℕ) → contains c k ≡ (contains c chars && not (c == 0)) =
        λ c. contains-sort c (retain_nonzero chars) ∙ contains-retain_nonzero c chars in
      let (rs, codes) = optimize_char_ranges k in
      let after = add_ranges rs (b, []) in
      let bounds : All (λ r. (r.0 < 256) × (r.1 < 256)) rs =
        bounds_of_long rs long (λ c e. low c (ground (arith, cover c, member c))) in
      Keeps-map w b (add_codes codes after).0
        ((any_on (map (out w.p) after.1) ≡ (any_on (map (out w.p) []) || in_ranges w.p.byte rs))
          × (any_on (map (out w.p) (add_codes codes after).1)
              ≡ (any_on (map (out w.p) after.1) || contains w.p.byte codes)))
        (any_on (map (out w.p) (add_codes codes after).1)
          ≡ (contains w.p.byte chars && not (w.p.byte == 0)))
        (λ (q, r).
          r ∙ ap (λ z. z || contains w.p.byte codes) q ∙ (cover w.p.byte).0 ∙ member w.p.byte)
        (Keeps-trans w b after.0 (add_codes codes after).0
          (any_on (map (out w.p) after.1) ≡ (any_on (map (out w.p) []) || in_ranges w.p.byte rs))
          (any_on (map (out w.p) (add_codes codes after).1)
            ≡ (any_on (map (out w.p) after.1) || contains w.p.byte codes))
          (add_ranges-Tests rs b [] bounds) (add_codes-Tests codes after.0 after.1))
        s
