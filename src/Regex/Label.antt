-- ===== src/Regex/Label.antt =====
-- regex/zk-regex-compiler-v2/packages/compiler/src/regex.rs: from the labels of the edges of one
-- state to the set of bytes that leads to each target. The match of `(.+)-(.+)` on a label is the
-- regex crate's and stands here as the parameter `captures`.
use zk_pse.Base.{
  ℕ, zero, suc, ◌+◌, ◌-◌, ◌*◌, ◌==◌, ltb, leb, ◌&&◌, if◌then◌else◌, List, [], ◌∷◌, ◌++◌, length,
  get_or, drop, Option, none, some,
}
use zk_pse.Std.Ord.{same, nat_ord, bytes_ord}
use zk_pse.Std.Map.{Map, Set, get, insert, entry, add, add_all}
use zk_pse.Std.Text.{Text, bytes, starts_with}
use zk_pse.Regex.Structs.{Result, ok, err, parse_error, ◌>>=◌}

-- `collect()` of pairs into a `BTreeMap`
collect_pairs : List (Text × ℕ) → Map Text ℕ → Map Text ℕ
collect_pairs [] m = m
collect_pairs ((k, v) ∷ rest) m = collect_pairs rest (insert k v m)

unfoldable pub create_special_char_mappings : Map Text ℕ
unfolding collect_pairs
create_special_char_mappings =
    collect_pairs
      ((bytes "\\n", 10)
        ∷ (bytes "\\r", 13)
        ∷ (bytes "\\t", 9)
        ∷ (bytes "\\v", 11)
        ∷ (bytes "\\f", 12)
        ∷ (bytes "\\0", 0)
        ∷ (bytes "\\\"", 34)
        ∷ (bytes "\\'", 39)
        ∷ (bytes "\\\\", 92)
        ∷ (bytes "' '", 32)
        ∷ [])
      []

-- `char::to_digit(16)`
unfoldable pub hex_digit : ℕ → Option ℕ
hex_digit c =
    if leb b'0' c && leb c b'9'
    then some (c - b'0')
    else if leb b'a' c && leb c b'f'
    then some (c - b'a' + 10)
    else if leb b'A' c && leb c b'F'
    then some (c - b'A' + 10)
    else none

-- the digits of `u8::from_str_radix(_, 16)`, from the value so far
unfoldable pub hex_digits : ℕ → Text → Result ℕ
unfolding hex_digit
hex_digits acc [] = ok acc
hex_digits acc (c ∷ text) = elim (hex_digit c) [
  | none ↦ err (parse_error (bytes "invalid digit found in string"))
  | some d ↦
      if ltb (acc * 16 + d) 256
      then hex_digits (acc * 16 + d) text
      else err (parse_error (bytes "number too large to fit in target type"))
]

-- `u8::from_str_radix(_, 16)`: one leading `+` is passed over, unless it stands alone.
unfoldable pub parse_hex_byte : Text → Result ℕ
unfolding hex_digits
parse_hex_byte [] = err (parse_error (bytes "cannot parse integer from empty string"))
parse_hex_byte (c ∷ []) = hex_digits 0 (c ∷ [])
parse_hex_byte (c ∷ d ∷ text) =
    if c == b'+' then hex_digits 0 (d ∷ text) else hex_digits 0 (c ∷ d ∷ text)

unfoldable pub parse_char : Text → Map Text ℕ → Result ℕ
unfolding parse_hex_byte
parse_char s special_char_mappings =
    if starts_with s (bytes "\\x")
    then parse_hex_byte (drop 2 s)
    else elim (get s special_char_mappings) [
      | some value ↦ ok value
      | none ↦
          if length s == 1
          then ok (get_or s 0 0)
          else err (parse_error (bytes "Invalid character: " ++ s))
    ]

-- `n` numbers from `start` on
unfoldable pub range_from : ℕ → ℕ → List ℕ
range_from start zero = []
range_from start (suc n) = start ∷ range_from (suc start) n

-- `(start..=end).collect()`
unfoldable pub byte_range : ℕ → ℕ → List ℕ
byte_range start last = range_from start (suc last - start)

module _ (captures : Text → Option (Text × Text)) where
  unfoldable pub process_range_edge : Text → ℕ → Map ℕ (Set ℕ) → Map Text ℕ → Result (Map ℕ (Set ℕ))
  process_range_edge key value edges special_char_mappings = elim (captures key) [
    | none ↦ err (parse_error (bytes "Failed to capture range"))
    | some (first, second) ↦ parse_char first special_char_mappings >>= λ start_index.
        parse_char second special_char_mappings >>= λ end_index.
        ok (entry value [] (add_all (byte_range start_index end_index)) edges)
  ]

  unfoldable pub process_single_edge :
      Text → ℕ → Map ℕ (Set ℕ) → Map Text ℕ → Result (Map ℕ (Set ℕ))
  process_single_edge key value edges special_char_mappings =
      parse_char key special_char_mappings >>= λ index. ok (entry value [] (add index) edges)

  unfoldable pub process_edge : Text → ℕ → Map ℕ (Set ℕ) → Map Text ℕ → Result (Map ℕ (Set ℕ))
  process_edge key value edges special_char_mappings = elim (captures key) [
    | some _ ↦ process_range_edge key value edges special_char_mappings
    | none ↦ process_single_edge key value edges special_char_mappings
  ]

  unfoldable pub process_edges_loop :
      Map Text ℕ → Map ℕ (Set ℕ) → Map Text ℕ → Result (Map ℕ (Set ℕ))
  process_edges_loop [] edges special_char_mappings = ok edges
  process_edges_loop ((key, value) ∷ rest) edges special_char_mappings =
      let key' = if same key (bytes "' '") then bytes " " else key in
      process_edge key' value edges special_char_mappings >>= λ edges'.
      process_edges_loop rest edges' special_char_mappings

  unfoldable pub process_state_edges : Map Text ℕ → Result (Map ℕ (Set ℕ))
  process_state_edges state_edges = process_edges_loop state_edges [] create_special_char_mappings
