-- ===== src/Regex/Parse.antt =====
-- regex/zk-regex-compiler-v2/packages/compiler/src/regex.rs: reading the printed form of an
-- automaton. Its labels are printed with escapes, so that the text is ASCII: a byte is a character.
use zk_pse.Base.{
  ℕ, ◌+◌, ◌-◌, ◌*◌, ◌^◌, ◌==◌, ltb, leb, Bool, false, not, ◌&&◌, ◌||◌, if◌then◌else◌, List, [], ◌∷◌,
  ◌++◌, reverse, length, get_elem?, take, drop, Option, none, some,
}
use zk_pse.Std.Ord.{bytes_ord}
use zk_pse.Std.Map.{insert}
use zk_pse.Std.Text.{Text, bytes, starts_with}
use zk_pse.Regex.Structs.{Result, ok, err, parse_error, ok_or, ◌>>=◌, DfaStateInfo, DfaGraphInfo}

-- `transition.split("=>").collect()`, with the part so far in reverse
unfoldable pub split_arrow : Text → Text → List Text
split_arrow part [] = reverse part ∷ []
split_arrow part (c ∷ []) = reverse (c ∷ part) ∷ []
split_arrow part (c ∷ d ∷ text) =
    if c == b'=' && d == b'>'
    then reverse part ∷ split_arrow [] text
    else split_arrow (c ∷ part) (d ∷ text)

-- `char::is_whitespace`, on ASCII
abbrev is_whitespace : ℕ → Bool
is_whitespace c = c == 32 || (leb 9 c && leb c 13)

unfoldable pub trim_start : Text → Text
trim_start [] = []
trim_start (c ∷ text) = if is_whitespace c then trim_start text else c ∷ text

unfoldable pub trim : Text → Text
trim text = reverse (trim_start (reverse (trim_start text)))

unfoldable pub decimal_digits : ℕ → Text → Option ℕ
decimal_digits n [] = some n
decimal_digits n (c ∷ text) =
    if leb b'0' c && leb c b'9' then decimal_digits (n * 10 + (c - b'0')) text else none

-- `parse::<usize>()`, on a machine with 64 bits: digits, with or without a `+`, that do not overflow
unfoldable pub parse_usize : Text → Option ℕ
parse_usize text =
    let digits = if starts_with text (bytes "+") then drop 1 text else text in
    if length digits == 0 then none else elim (decimal_digits 0 digits) [
      | none ↦ none
      | some n ↦ if ltb n (2 ^ 64) then some n else none
    ]

-- `nth(2) == Some('\\') && nth(3) != Some('x')`: an escape that only quotes its character
abbrev is_quoted : Text → Bool
is_quoted src =
    ltb 2 (length src)
    && elim (get_elem? src 2) [ none ↦ false | some c ↦ c == b'\\' ]
    && not (elim (get_elem? src 3) [ none ↦ false | some c ↦ c == b'x' ])

-- `format!("{}{}", &src[0..2], &src[3..])`
unfoldable pub unquote : Text → Text
unquote src = if is_quoted src then take 2 src ++ drop 3 src else src

unfoldable pub parse_transition : DfaStateInfo → Text → Result DfaStateInfo
parse_transition state transition = elim (split_arrow [] transition) [
  | [] ↦ err (parse_error (bytes "Invalid transition format"))
  | label ∷ rest ↦ elim rest [
    | [] ↦ err (parse_error (bytes "Invalid transition format"))
    | target ∷ more ↦ elim more [
      | _ ∷ _ ↦ err (parse_error (bytes "Invalid transition format"))
      | [] ↦
          ok_or (parse_usize (trim target))
            (parse_error (bytes "Failed to parse destination state"))
          >>= λ dst. ok (record state { edges = insert (unquote (trim label)) dst state.edges })
    ]
  ]
]

unfoldable pub parse_transitions : DfaStateInfo → List Text → Result DfaStateInfo
parse_transitions state [] = ok state
parse_transitions state (transition ∷ transitions) =
    parse_transition state transition >>= λ state'. parse_transitions state' transitions

-- The regex crate finds the states (the whole match, and its first group), the transitions in one
-- of them, and the id of the start state.
module _ (state_captures : Text → List (Text × Text)) (transition_captures : Text → List Text)
    (start_capture : Text → Option Text) where
  unfoldable pub parse_states_loop : List (Text × Text) → DfaGraphInfo → Result DfaGraphInfo
  parse_states_loop [] dfa_info = ok dfa_info
  parse_states_loop ((whole, id) ∷ captures) dfa_info =
      ok_or (parse_usize id) (parse_error (bytes "Failed to parse state ID")) >>= λ src.
      parse_transitions
        (record {
          source = src;
          typ = if starts_with whole (bytes "*") then bytes "accept" else [];
          edges = [];
        })
        (transition_captures whole)
      >>= λ state. parse_states_loop captures (record { states = dfa_info.states ++ state ∷ [] })

  unfoldable pub parse_states : Text → DfaGraphInfo → Result DfaGraphInfo
  parse_states output dfa_info = parse_states_loop (state_captures output) dfa_info

  unfoldable pub find_start_state : Text → Result ℕ
  find_start_state output = elim (start_capture output) [
    | none ↦ err (parse_error (bytes "Failed to find start state"))
    | some id ↦ ok_or (parse_usize id) (parse_error (bytes "Failed to find start state"))
  ]
