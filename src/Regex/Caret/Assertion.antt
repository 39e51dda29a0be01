-- ===== src/Regex/Caret/Assertion.antt =====
-- What the assertion on `)` in `find_caret_index` (compiler/src/regex.rs) says of a pattern, byte by
-- byte and without an index.
use zk_pse.Base.{
  ℕ, zero, suc, ◌+◌, ◌<◌, ◌≤◌, ◌==◌, ltb, lt→ltb, Bool, true, false, not, ◌||◌, if◌then◌else◌, [],
  ◌∷◌, length, get_or, drop, Option, none, some, ◌≡◌, refl, sym, ap, ◌∙◌, arith, Bool-cases, inl,
  inr,
}
use zk_pse.Std.Text.{Text}
use zk_pse.Regex.Caret.{
  CaretScan, Flow, break, continue, scan_byte, scan_loop, scan_start, find_caret_index_asserts,
}

pub data Kind : Type 0 where
  escape : Kind
  opening : Kind
  closing : Kind
  caret : Kind
  other : Kind

abbrev pub kind_of : ℕ → Kind
kind_of b =
    if b == b'\\'
    then escape
    else if b == b'('
    then opening
    else if b == b'['
    then escape
    else if b == b')'
    then closing
    else if b == b'^'
    then caret
    else other

-- Whether the scan meets a `)` while it takes itself to be outside of parentheses, with what `rest` says of
-- the bytes behind this one: whether the next byte is skipped, `inside`, and whether a caret was found.
abbrev pub asserts_kind : Kind → Bool → Bool → (Bool → Bool → Bool → Bool) → Bool
asserts_kind escape inside found rest = rest true inside found
asserts_kind opening inside found rest = rest false true found
asserts_kind closing inside found rest =
    not inside || (if found then false else rest false false found)
asserts_kind caret inside found rest = if not inside then false else rest false inside true
asserts_kind other inside found rest = rest false inside found

unfoldable pub meets_unmatched : Text → Bool → Bool → Bool → Bool
meets_unmatched [] skip inside found = false
meets_unmatched (b ∷ text) true inside found = meets_unmatched text false inside found
meets_unmatched (b ∷ text) false inside found =
    asserts_kind (kind_of b) inside found (meets_unmatched text)

abbrev flow_of : Kind → CaretScan → Flow
flow_of escape s = continue (record s { idx = s.idx + 2 })
flow_of opening s = continue (record s { is_in_parenthesis = true; idx = s.idx + 1 })
flow_of closing s =
    let s' = record s {
      unmatched = s.unmatched || not s.is_in_parenthesis;
      is_in_parenthesis = false;
      idx = s.idx + 1;
    } in
    if s.caret_found then break s' else continue s'
flow_of caret s =
    let s' = record s { caret_found = true; idx = s.idx + 1 } in
    if not s.is_in_parenthesis then break s' else continue s'
flow_of other s = continue (record s { idx = s.idx + 1 })

scan_byte-kind_of : (b : ℕ) (s : CaretScan) → scan_byte b s ≡ flow_of (kind_of b) s
unfolding scan_byte
scan_byte-kind_of b s = go (b == b'\\') (b == b'(') (b == b'[') (b == b')') (b == b'^')
  where
    go :
        (p q r t u : Bool)
        → (if p
            then flow_of escape s
            else if q
            then flow_of opening s
            else if r
            then flow_of escape s
            else if t
            then flow_of closing s
            else if u
            then flow_of caret s
            else flow_of other s)
          ≡ flow_of
              (if p
                then escape
                else if q
                then opening
                else if r
                then escape
                else if t
                then closing
                else if u
                then caret
                else other)
              s
    go true q r t u = refl
    go false true r t u = refl
    go false false true t u = refl
    go false false false true u = refl
    go false false false false true = refl
    go false false false false false = refl

abbrev unmatched_of : Option CaretScan → Bool
unmatched_of none = false
unmatched_of (some s) = s.unmatched

or_false_end : (u : Bool) → u ≡ (u || false)
or_false_end true = refl
or_false_end false = refl

or_assoc_end : (u v w : Bool) → ((u || v) || w) ≡ (u || (v || w))
or_assoc_end true v w = refl
or_assoc_end false v w = refl

skip_one :
    (t : Text) (i f : Bool) → meets_unmatched (drop 1 t) false i f ≡ meets_unmatched t true i f
unfolding meets_unmatched
skip_one [] i f = refl
skip_one (b ∷ t) i f = refl

drop_behind :
    (k : ℕ) (regex : Text) (b : ℕ) (t : Text) → drop k regex ≡ b ∷ t → drop (suc k) regex ≡ t
drop_behind zero [] b t e = cc e
drop_behind (suc k) [] b t e = cc e
drop_behind zero (x ∷ regex) b t e = ap (drop 1) e
drop_behind (suc k) (x ∷ regex) b t e = drop_behind k regex b t e

drop_behind_two :
    (k : ℕ) (regex : Text) (t : Text) → drop k regex ≡ t → drop (suc k) regex ≡ drop 1 t
drop_behind_two zero [] t e = ap (drop 1) e
drop_behind_two (suc k) [] t e = ap (drop 1) e
drop_behind_two zero (x ∷ regex) t e = ap (drop 1) e
drop_behind_two (suc k) (x ∷ regex) t e = drop_behind_two k regex t e

at_drop :
    (k : ℕ) (regex : Text) (b : ℕ) (t : Text)
    → drop k regex ≡ b ∷ t
    → (get_or regex k 0 ≡ b) × (k < length regex)
at_drop zero [] b t e = cc e
at_drop (suc k) [] b t e = cc e
at_drop zero (x ∷ regex) b t e = (ap (λ l. get_or l 0 0) e, omega arith)
at_drop (suc k) (x ∷ regex) b t e = let (here, lt) = at_drop k regex b t e in (here, omega arith)

drop_past : (k : ℕ) (regex : Text) → drop k regex ≡ [] → length regex ≤ k
drop_past k [] e = omega arith
drop_past zero (x ∷ regex) e = cc e
drop_past (suc k) (x ∷ regex) e = omega (arith, drop_past k regex e)

length-drop_one : (t : Text) → length (drop 1 t) ≤ length t
length-drop_one [] = omega arith
length-drop_one (b ∷ t) = omega arith

-- From a place on, when `t` is what is left of the pattern there.
scan_loop-meets :
    (fuel : ℕ) (regex t : Text) (s : CaretScan)
    → drop s.idx regex ≡ t
    → length t < fuel
    → unmatched_of (scan_loop fuel regex s)
      ≡ (s.unmatched || meets_unmatched t false s.is_in_parenthesis s.caret_found)
unfolding scan_loop
scan_loop-meets zero regex t s e h = absurd (omega arith)
scan_loop-meets (suc fuel) regex [] s e h =
    let past : ltb s.idx (length regex) ≡ false =
      let le = drop_past s.idx regex e in ground arith in
    rw past (unfold meets_unmatched in or_false_end s.unmatched)
scan_loop-meets (suc fuel) regex (b ∷ t) s e h =
    let (here, lt) = at_drop s.idx regex b t e in
    let plus_one : s.idx + 1 ≡ suc s.idx = omega arith in
    let plus_two : s.idx + 2 ≡ suc (suc s.idx) = omega arith in
    let next : drop (s.idx + 1) regex ≡ t =
      ap (λ n. drop n regex) plus_one ∙ drop_behind s.idx regex b t e in
    let after_next : drop (s.idx + 2) regex ≡ drop 1 t =
      ap (λ n. drop n regex) plus_two
      ∙ drop_behind_two (suc s.idx) regex t (drop_behind s.idx regex b t e) in
    ap (λ z. unmatched_of (if z then round (scan_byte (get_or regex s.idx 0) s) else some s))
      (lt→ltb s.idx (length regex) lt)
    ∙ ap (λ c. unmatched_of (round (scan_byte c s))) here
    ∙ ap (λ w. unmatched_of (round w)) (scan_byte-kind_of b s)
    ∙ go (kind_of b)
        (λ s' q. scan_loop-meets fuel regex t s' (ap (λ n. drop n regex) q ∙ next) (omega arith))
        (λ s' q.
          scan_loop-meets fuel regex (drop 1 t) s' (ap (λ n. drop n regex) q ∙ after_next)
            (omega (arith, length-drop_one t)))
    ∙ unfold meets_unmatched in refl
  where
    round : Flow → Option CaretScan
    round w = elim w [ break s' ↦ some s' | continue s' ↦ scan_loop fuel regex s' ]

    go :
        (k : Kind)
        → ((s' : CaretScan)
            → s'.idx ≡ s.idx + 1
            → unmatched_of (scan_loop fuel regex s')
              ≡ (s'.unmatched || meets_unmatched t false s'.is_in_parenthesis s'.caret_found))
        → ((s' : CaretScan)
            → s'.idx ≡ s.idx + 2
            → unmatched_of (scan_loop fuel regex s') ≡ (
                s'.unmatched
                || meets_unmatched (drop 1 t) false s'.is_in_parenthesis s'.caret_found))
        → unmatched_of (round (flow_of k s))
          ≡ (s.unmatched || asserts_kind k s.is_in_parenthesis s.caret_found (meets_unmatched t))
    go escape one two =
        two (record s { idx = s.idx + 2 }) refl
        ∙ ap (◌||◌ s.unmatched) (skip_one t s.is_in_parenthesis s.caret_found)
    go opening one two = one (record s { is_in_parenthesis = true; idx = s.idx + 1 }) refl
    go closing one two =
        let s' : CaretScan = record s {
          unmatched = s.unmatched || not s.is_in_parenthesis;
          is_in_parenthesis = false;
          idx = s.idx + 1;
        } in
        elim (Bool-cases s.caret_found) [
          | inl y ↦
              ap (λ f. unmatched_of (round (if f then break s' else continue s'))) y
              ∙ ap (◌||◌ s.unmatched) (or_false_end (not s.is_in_parenthesis))
              ∙ ap
                  (λ f.
                    s.unmatched
                    || (not s.is_in_parenthesis
                        || (if f then false else meets_unmatched t false false s.caret_found)))
                  (sym y)
          | inr n ↦
              ap (λ f. unmatched_of (round (if f then break s' else continue s'))) n
              ∙ one s' refl
              ∙ or_assoc_end s.unmatched (not s.is_in_parenthesis)
                  (meets_unmatched t false false s.caret_found)
              ∙ ap
                  (λ f.
                    s.unmatched
                    || (not s.is_in_parenthesis
                        || (if f then false else meets_unmatched t false false s.caret_found)))
                  (sym n)
        ]
    go caret one two =
        let s' : CaretScan = record s { caret_found = true; idx = s.idx + 1 } in
        elim (Bool-cases s.is_in_parenthesis) [
          | inl y ↦
              ap (λ i. unmatched_of (round (if not i then break s' else continue s'))) y
              ∙ one s' refl
              ∙ ap
                  (λ i.
                    s.unmatched
                    || (if not i then false else meets_unmatched t false s.is_in_parenthesis true))
                  (sym y)
          | inr n ↦
              ap (λ i. unmatched_of (round (if not i then break s' else continue s'))) n
              ∙ or_false_end s.unmatched
              ∙ ap
                  (λ i.
                    s.unmatched
                    || (if not i then false else meets_unmatched t false s.is_in_parenthesis true))
                  (sym n)
        ]
    go other one two = one (record s { idx = s.idx + 1 }) refl

-- The debug assertion fails exactly when the scan, byte by byte, meets a `)` outside of parentheses.
pub find_caret_index_asserts-meets :
    (regex : Text) → find_caret_index_asserts regex ≡ meets_unmatched regex false false false
unfolding find_caret_index_asserts
find_caret_index_asserts-meets regex =
    scan_loop-meets (length regex + 1) regex regex scan_start refl (omega arith)
