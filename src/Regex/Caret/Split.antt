-- ===== src/Regex/Caret/Split.antt =====
-- The scan for `^` ends, and splitting the first part behind it keeps the pattern
-- (compiler/src/regex.rs).
use zk_pse.Base.{
  ℕ, zero, suc, ◌+◌, ◌≤◌, ◌<◌, ltb, ltb→lt, leb, false, if◌then◌else◌, List, [], ◌∷◌, ◌++◌, length,
  get_or, take, drop, Option, none, some, ◌≡◌, refl, sym, ap, ◌∙◌, arith, Bool-cases, inl, inr, ◌⊎◌,
  take-append-drop, Bool, true, not, ◌&&◌, assert, ⊎_elim, eq_of_some, append_assoc,
}
use zk_pse.Std.Text.{Text}
use zk_pse.Regex.Structs.{RegexPartConfig, DecomposedRegexConfig}
use zk_pse.Regex.Caret.Assertion.{meets_unmatched, find_caret_index_asserts-meets}
use zk_pse.Regex.Caret.{
  CaretScan, Flow, break, continue, scan_byte, scan_loop, scan_start, find_caret_index,
  find_caret_index_asserts, process_caret_in_regex,
}

abbrev after : Flow → CaretScan
after (break s) = s
after (continue s) = s

scan_byte_moves :
    (b : ℕ) (s : CaretScan)
    → (s.idx < (after (scan_byte b s)).idx) × ((after (scan_byte b s)).idx ≤ s.idx + 2)
unfolding scan_byte
scan_byte_moves b s = ground arith

-- With more fuel than bytes are left the loop ends, at most one byte behind the last.
scan_loop_ends :
    (fuel : ℕ) (regex : Text) (s : CaretScan)
    → s.idx ≤ length regex + 1
    → length regex + 1 ≤ s.idx + fuel
    → 0 < fuel
    → (r : CaretScan) × (scan_loop fuel regex s ≡ some r) × (r.idx ≤ length regex + 1)
unfolding scan_loop
scan_loop_ends zero regex s h k p = absurd (omega arith)
scan_loop_ends (suc fuel) regex s h k p = elim (Bool-cases (ltb s.idx (length regex))) [
  | inr past ↦ (s, rw (past, scan_loop), h)
  | inl inside ↦ rw inside (
      go (scan_byte (get_or regex s.idx 0) s) (scan_byte_moves (get_or regex s.idx 0) s)
        (ltb→lt _ _ inside) (λ r. scan_loop_ends fuel regex r))
]
  where
    go :
        (w : Flow)
        → (s.idx < (after w).idx) × ((after w).idx ≤ s.idx + 2)
        → s.idx < length regex
        → ((r : CaretScan)
            → r.idx ≤ length regex + 1
            → length regex + 1 ≤ r.idx + fuel
            → 0 < fuel
            → (t : CaretScan) × (scan_loop fuel regex r ≡ some t) × (t.idx ≤ length regex + 1))
        → (r : CaretScan) × (elim w [ break s' ↦ some s' | continue s' ↦ scan_loop fuel regex s' ]
            ≡ some r)
          × (r.idx ≤ length regex + 1)
    go (break s') m inside ih = (s', refl, omega arith)
    go (continue s') m inside ih = ih s' (omega arith) (omega arith) (omega arith)

-- The scan ends within its fuel, `find_caret_index` returns the index it ends at if it found a
-- caret, and that index is at most one byte behind the end.
pub find_caret_index_bound :
    (regex : Text)
    → (r : CaretScan) × (scan_loop (length regex + 1) regex scan_start ≡ some r)
      × (find_caret_index regex ≡ (if r.caret_found then some r.idx else none))
      × (r.idx ≤ length regex + 1)
unfolding find_caret_index
find_caret_index_bound regex =
    let (r, e, h) =
      scan_loop_ends (length regex + 1) regex scan_start (omega arith) (omega arith)
        (omega arith) in
    (r, e, rw (find_caret_index, e), h)

-- The pattern that the parts make up: `regex_str` of `get_regex_and_dfa`.
unfoldable pub pattern_of : List RegexPartConfig → Text
pattern_of [] = []
pattern_of (p ∷ parts) = p.regex_def ++ pattern_of parts

-- What the call does to the parts: nothing without a caret; else a private part up to the caret
-- stands before the rest of the first part.
unfoldable pub split_parts : Option ℕ → List RegexPartConfig → List RegexPartConfig
split_parts none parts = parts
split_parts (some i) [] = []
split_parts (some i) (p ∷ parts) =
    record { is_public = false; regex_def = take i p.regex_def }
    ∷ record p { regex_def = drop i p.regex_def }
    ∷ parts

pattern_of-split_parts :
    (o : Option ℕ) (parts : List RegexPartConfig)
    → pattern_of (split_parts o parts) ≡ pattern_of parts
unfolding pattern_of split_parts
pattern_of-split_parts none parts = refl
pattern_of-split_parts (some i) [] = refl
pattern_of-split_parts (some i) (p ∷ parts) =
    sym (append_assoc (take i p.regex_def) (drop i p.regex_def) (pattern_of parts))
    ∙ ap (λ z. z ++ pattern_of parts) (take-append-drop i p.regex_def)

-- the index that the call returns
abbrev pub caret_of : List RegexPartConfig → Option ℕ
caret_of [] = none
caret_of (first ∷ rest) = find_caret_index first.regex_def

-- The inputs that the call panics on: no parts; in a debug build a first part where the scan, read byte by byte, meets a
-- `)` outside of what it takes for parentheses; and one where the index of the caret is one behind the end.
abbrev pub CaretPanics : Bool → List RegexPartConfig → Type 0
CaretPanics debug [] = Unit
CaretPanics debug (first ∷ rest) =
    ((debug && meets_unmatched first.regex_def false false false) ≡ true)
    ⊎ (find_caret_index first.regex_def ≡ some (length first.regex_def + 1))

process_caret_in_regex-cons :
    (debug : Bool) (first : RegexPartConfig) (rest : List RegexPartConfig)
    → ((process_caret_in_regex debug (record { parts = first ∷ rest }) ≡ none)
        × CaretPanics debug (first ∷ rest))
      ⊎ ((¬ CaretPanics debug (first ∷ rest))
          × (process_caret_in_regex debug (record { parts = first ∷ rest })
              ≡ some (
                record { parts = split_parts (find_caret_index first.regex_def) (first ∷ rest) },
                find_caret_index first.regex_def,
              )))
unfolding process_caret_in_regex split_parts
process_caret_in_regex-cons debug first rest =
    go (debug && find_caret_index_asserts first.regex_def) (find_caret_index first.regex_def)
      (ap (◌&&◌ debug) (sym (find_caret_index_asserts-meets first.regex_def))) refl
  where
    result : Bool → Option ℕ → Option (DecomposedRegexConfig × Option ℕ)
    result x o = assert (not x) (elim o [
      | none ↦ some (record { parts = first ∷ rest }, none)
      | some index ↦
          assert (leb index (length first.regex_def))
            (some (record { parts = split_parts (some index) (first ∷ rest) }, some index))
    ])

    go :
        (x : Bool) (o : Option ℕ)
        → (debug && meets_unmatched first.regex_def false false false) ≡ x
        → find_caret_index first.regex_def ≡ o
        → ((result x o ≡ none)
            × (((debug && meets_unmatched first.regex_def false false false) ≡ true)
                ⊎ (find_caret_index first.regex_def ≡ some (length first.regex_def + 1))))
          ⊎ ((¬ (
                ((debug && meets_unmatched first.regex_def false false false) ≡ true)
                ⊎ (find_caret_index first.regex_def ≡ some (length first.regex_def + 1))))
              × (result x o
                  ≡ some (
                    record {
                      parts = split_parts (find_caret_index first.regex_def) (first ∷ rest);
                    },
                    find_caret_index first.regex_def,
                  )))
    go true o ex eo = inl (refl, inl ex)
    go false none ex eo = inr (
      λ h. ⊎_elim (λ q. absurd (cc (sym ex ∙ q))) (λ q. absurd (cc (sym eo ∙ q))) h,
      ap (λ z. some (record { parts = split_parts z (first ∷ rest) }, z)) (sym eo),
    )
    go false (some i) ex eo = elim (Bool-cases (leb i (length first.regex_def))) [
      | inl fits ↦ inr (
        λ h.
            ⊎_elim (λ q. absurd (cc (sym ex ∙ q)))
              (λ q.
                let same : i ≡ length first.regex_def + 1 = eq_of_some (sym eo ∙ q) in
                absurd (ground arith))
              h,
        ap (λ b. assert b (some (record { parts = split_parts (some i) (first ∷ rest) }, some i)))
              fits
            ∙ ap (λ z. some (record { parts = split_parts z (first ∷ rest) }, z)) (sym eo),
      )
      | inr past ↦
          let (r, _, found, bound) = find_caret_index_bound first.regex_def in
          let here : (if r.caret_found then some r.idx else none) ≡ some i = sym found ∙ eo in
          inl (
            ap
                (λ b.
                  assert b (some (record { parts = split_parts (some i) (first ∷ rest) }, some i)))
                past,
            inr (eo ∙ ap some (ground arith)),
          )
    ]

-- `process_caret_in_regex` panics exactly when there are no parts; or in a debug build the scan of the first
-- part, byte by byte, meets a `)` while its flag for parentheses is off; or the caret index is one behind the
-- end of the first part. Otherwise it returns that index, if there is one, with the first part split there,
-- and the parts still make up the same pattern.
pub process_caret_in_regex_lem :
    (debug : Bool) (parts : List RegexPartConfig)
    → ((process_caret_in_regex debug (record { parts = parts }) ≡ none) × CaretPanics debug parts)
      ⊎ ((¬ CaretPanics debug parts)
          × (process_caret_in_regex debug (record { parts = parts })
              ≡ some (record { parts = split_parts (caret_of parts) parts }, caret_of parts))
          × (pattern_of (split_parts (caret_of parts) parts) ≡ pattern_of parts))
process_caret_in_regex_lem debug [] = unfold process_caret_in_regex in inl (refl, tt)
process_caret_in_regex_lem debug (first ∷ rest) =
    elim (process_caret_in_regex-cons debug first rest) [
      | inl p ↦ inl p
      | inr (calm, e) ↦
          inr (calm, e, pattern_of-split_parts (find_caret_index first.regex_def) (first ∷ rest))
    ]
