-- ===== src/Regex/Caret.antt =====
-- regex/zk-regex-compiler-v2/packages/compiler/src/regex.rs: the anchors `^` and `$`.
pub mod Assertion
pub mod Split
use zk_pse.Base.{
  ℕ, zero, suc, ◌+◌, ◌-◌, ◌==◌, ltb, Bool, true, false, not, ◌&&◌, ◌||◌, if◌then◌else◌, List, [],
  ◌∷◌, length, get_or, take, drop, Option, none, some, assert, leb,
}
use zk_pse.Std.Text.{Text, bytes, ends_with_char}
use zk_pse.Regex.Structs.{Result, ok, err, generic_error, RegexPartConfig, DecomposedRegexConfig}

pub record CaretScan : Type 0 where
  pub is_in_parenthesis : Bool
  pub caret_found : Bool
  pub idx : ℕ
  -- whether the `debug_assert!` on `)` has failed: a debug build has panicked then
  pub unmatched : Bool

-- What a round does after the byte is looked at: break with the state, or go on.
pub data Flow : Type 0 where
  break : CaretScan → Flow
  continue : CaretScan → Flow

-- The `match` on `regex_bytes[idx]`.
unfoldable pub scan_byte : ℕ → CaretScan → Flow
scan_byte b s =
    if b == b'\\'
    then continue (record s { idx = s.idx + 2 })
    else if b == b'('
    then continue (record s { is_in_parenthesis = true; idx = s.idx + 1 })
    else if b == b'['
    then continue (record s { idx = s.idx + 2 })
    else if b == b')'
    then (let s' = record s {
      unmatched = s.unmatched || not s.is_in_parenthesis;
      is_in_parenthesis = false;
      idx = s.idx + 1;
    } in
        if s.caret_found then break s' else continue s')
    else if b == b'^'
    then (let s' = record s { caret_found = true; idx = s.idx + 1 } in
        if not s.is_in_parenthesis then break s' else continue s')
    else continue (record s { idx = s.idx + 1 })

-- `while idx < regex_bytes.len()`, with fuel.
unfoldable pub scan_loop : ℕ → Text → CaretScan → Option CaretScan
scan_loop zero regex s = none
scan_loop (suc fuel) regex s =
    let round : Option CaretScan = elim (scan_byte (get_or regex s.idx 0) s) [
      | break s' ↦ some s'
      | continue s' ↦ scan_loop fuel regex s'
    ] in
    if ltb s.idx (length regex) then round else some s

abbrev pub scan_start : CaretScan
scan_start = record { is_in_parenthesis = false; caret_found = false; idx = 0; unmatched = false }

-- Each round moves `idx` on, so one round more than there are bytes is fuel enough.
unfoldable pub find_caret_index : Text → Option ℕ
find_caret_index regex = elim (scan_loop (length regex + 1) regex scan_start) [
  | none ↦ none
  | some s ↦ if s.caret_found then some s.idx else none
]

-- whether a debug build panics in `find_caret_index`
unfoldable pub find_caret_index_asserts : Text → Bool
find_caret_index_asserts regex = elim (scan_loop (length regex + 1) regex scan_start) [
  | none ↦ false
  | some s ↦ s.unmatched
]

-- The slices `[0..index]` and `[index..]`, and `parts[0]`: `none` is the panic of an index out of
-- bounds, or of the assertion where `debug` builds check it. (No slice falls inside a character: each stops behind an ASCII byte or where an escape
-- or a class skips one byte.)
unfoldable pub process_caret_in_regex :
    Bool → DecomposedRegexConfig → Option (DecomposedRegexConfig × Option ℕ)
process_caret_in_regex debug d = elim d.parts [
  | [] ↦ none
  | first ∷ rest ↦
      assert (not (debug && find_caret_index_asserts first.regex_def))
        (elim (find_caret_index first.regex_def) [
          | none ↦ some (d, none)
          | some index ↦ assert (leb index (length first.regex_def)) (
              some (
                record {
                  parts =
                      record { is_public = false; regex_def = take index first.regex_def }
                      ∷ record first { regex_def = drop index first.regex_def }
                      ∷ rest;
                },
                some index,
              ))
        ])
]

unfoldable pub validate_end_anchor : DecomposedRegexConfig → ℕ → RegexPartConfig → Result Bool
validate_end_anchor d idx regex =
    let is_last_part = idx == (length d.parts - 1) in
    let ends_with_dollar = ends_with_char regex.regex_def b'$' in
    if ends_with_dollar && not is_last_part
    then err (generic_error (bytes "Invalid regex, $ can only be at the end of the regex"))
    else ok (is_last_part && ends_with_dollar)
