-- ===== src/Regex/Circom/Wires.antt =====
-- What the lines of one position say of its wires. The components are templates of circomlib and
-- of zk-email's helpers, which are not part of the compiler: a record of functions, with what
-- those libraries document. Signals that are 0 or 1 are Boolean.
pub mod Checks
pub mod Bytes
pub mod Edges
pub mod Marks
pub mod Apart
pub mod Rounds
pub mod Steps
pub mod Next
use zk_pse.Base.{
  ℕ, zero, suc, ◌<◌, ◌==◌, leb, Bool, true, false, not, ◌&&◌, ◌||◌, List, [], ◌∷◌, ◌++◌, map, ◌≡◌,
  ◌↔◌, refl, All,
}
use zk_pse.Std.Text.{Text}
use zk_pse.Regex.Circom.Lines.{Gate, eq_gate, and_gate, StateVar, Line}

-- Whether some entry is on.
abbrev pub any_on : List Bool → Bool
any_on [] = false
any_on (x ∷ xs) = x || any_on xs

pub record Helpers : Type 0 where
  pub is_equal : ℕ → ℕ → Bool
  pub less_eq_than : ℕ → ℕ → Bool
  pub and : Bool → Bool → Bool
  pub multi_or : List Bool → Bool
  pub is_equal_lem : (a b : ℕ) → is_equal a b ≡ (a == b)
  -- `LessEqThan(8)` compares numbers of eight bits.
  pub less_eq_than_lem : (a b : ℕ) → a < 256 → b < 256 → less_eq_than a b ≡ leb a b
  pub and_lem : (a b : Bool) → and a b ≡ (a && b)
  pub multi_or_lem : (xs : List Bool) → multi_or xs ≡ any_on xs

-- The values on the wires at one position `i`.
pub record Position : Type 0 where
  pub byte : ℕ
  pub state : ℕ → Bool
  pub next : StateVar → ℕ → Bool
  pub from_zero : Bool
  pub eq_left : ℕ → ℕ
  pub eq_right : ℕ → ℕ
  pub eq_out : ℕ → Bool
  pub lt_left : ℕ → ℕ
  pub lt_right : ℕ → ℕ
  pub lt_out : ℕ → Bool
  pub and_a : ℕ → Bool
  pub and_b : ℕ → Bool
  pub and_out : ℕ → Bool
  pub multi_or_in : ℕ → ℕ → Bool
  pub multi_or_out : ℕ → Bool

-- `n` values of `g` from `j` on
unfoldable pub values_from : (ℕ → Bool) → ℕ → ℕ → List Bool
values_from g j zero = []
values_from g j (suc n) = g j ∷ values_from g (suc j) n

abbrev pub out : Position → Gate × ℕ → Bool
out p (eq_gate, k) = p.eq_out k
out p (and_gate, k) = p.and_out k

module _ (h : Helpers) (p : Position) where
  -- The lines that set up other signals than those of `Position` say nothing here.
  abbrev pub Holds : Line → Type 0
  Holds Line.for_bytes = Unit
  Holds (Line.state_changed n) = Unit
  Holds Line.first_state_on = p.state 0 ≡ true
  Holds Line.padding_start = Unit
  Holds (Line.less_eq_than k) = p.lt_out k ≡ h.less_eq_than (p.lt_left k) (p.lt_right k)
  Holds (Line.less_eq_than_min k min) = p.lt_left k ≡ min
  Holds (Line.less_eq_than_max k max) = p.lt_right k ≡ max
  Holds (Line.less_eq_than_left_byte k) = p.lt_left k ≡ p.byte
  Holds (Line.less_eq_than_right_byte k) = p.lt_right k ≡ p.byte
  Holds (Line.and_component k) = p.and_out k ≡ h.and (p.and_a k) (p.and_b k)
  Holds (Line.and_a_less k l) = p.and_a k ≡ p.lt_out l
  Holds (Line.and_b_less k l) = p.and_b k ≡ p.lt_out l
  Holds (Line.and_a_state k prev) = p.and_a k ≡ p.state prev
  Holds (Line.and_b_gate k gate l) = p.and_b k ≡ out p (gate, l)
  Holds (Line.and_b_multi_or k m) = p.and_b k ≡ p.multi_or_out m
  Holds (Line.is_equal k) = p.eq_out k ≡ h.is_equal (p.eq_left k) (p.eq_right k)
  Holds (Line.is_equal_byte k) = p.eq_left k ≡ p.byte
  Holds (Line.is_equal_code k code) = p.eq_right k ≡ code
  Holds (Line.multi_or m n) = p.multi_or_out m ≡ h.multi_or (values_from (p.multi_or_in m) 0 n)
  Holds (Line.multi_or_input m j gate k) = p.multi_or_in m j ≡ out p (gate, k)
  Holds (Line.state_off var k) = p.next var k ≡ false
  Holds (Line.state_by_and var k a) = p.next var k ≡ p.and_out a
  Holds (Line.state_by_multi_or var k m) = p.next var k ≡ p.multi_or_out m
  Holds (Line.from_zero_enabled n inputs) =
      p.from_zero ≡ not (any_on (map (λ v. p.next v.0 v.1) inputs))
  Holds (Line.zero_starting_update k ands) =
      p.next StateVar.states k
      ≡ h.multi_or (p.next StateVar.states_tmp k ∷ map (λ a. p.from_zero && p.and_out a) ands)
  Holds (Line.state_changed_input j k) = Unit
  Holds Line.end_for = Unit

  abbrev pub Satisfies : List Line → Type 0
  Satisfies ls = All Holds ls

-- One position with the values on its wires, and the texts that serde_json makes of the keys,
-- which tell lists apart.
pub record Wiring : Type 0 where
  pub h : Helpers
  pub p : Position
  pub small : p.byte < 256
  pub edge_json : List (Gate × ℕ) → Text
  pub state_json : List ℕ → Text
  pub edge_json_inj : (xs ys : List (Gate × ℕ)) → edge_json xs ≡ edge_json ys → xs ≡ ys
  pub state_json_inj : (xs ys : List ℕ) → state_json xs ≡ state_json ys → xs ≡ ys
