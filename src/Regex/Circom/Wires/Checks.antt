-- ===== src/Regex/Circom/Wires/Checks.antt =====
-- What the tests of a byte come to, on any wires that satisfy the lines written so far.
use zk_pse.Base.{
  ℕ, ◌<◌, ◌==◌, leb, Bool, true, false, ◌||◌, List, [], ◌∷◌, ◌++◌, map, Option, none, some, ◌≡◌,
  refl, sym, ap, ap₂, ◌∙◌, ⊎_elim, All,
}
use zk_pse.Std.Ord.{nat_ord, pair_ord, bytes_ord}
use zk_pse.Std.Map.{get, get-insert_cases}
use zk_pse.Regex.Circom.Lines.{Gate, and_gate}
use zk_pse.Regex.Circom.Ranges.Cover.{in_range}
use zk_pse.Regex.Circom.Gates.{
  Builder, add_range_check, new_range_check, range_lines, add_eq_check, new_eq_check, eq_lines,
}
use zk_pse.Regex.Circom.Wires.{Wiring, Holds, Satisfies, any_on, out}

pub All-append {ℓ κ} :
    {A : Type ℓ} (P : A → Type κ) (xs ys : List A) → All P (xs ++ ys) → All P xs × All P ys
All-append P [] ys h = (tt, h)
All-append P (x ∷ xs) ys (h, hs) = let (l, r) = All-append P xs ys hs in ((h, l), r)

pub or_assoc : (a b c : Bool) → (a || (b || c)) ≡ ((a || b) || c)
or_assoc true b c = refl
or_assoc false b c = refl

pub or_false : (a : Bool) → a ≡ (a || false)
or_false true = refl
or_false false = refl

pub any_on-concat {ℓ} :
    {A : Type ℓ} (f : A → Bool) (xs : List A) (x : A)
    → any_on (map f (xs ++ x ∷ [])) ≡ (any_on (map f xs) || f x)
any_on-concat f [] x = sym (or_false (f x))
any_on-concat f (y ∷ xs) x =
    ap (◌||◌ (f y)) (any_on-concat f xs x) ∙ or_assoc (f y) (any_on (map f xs)) (f x)

module _ (w : Wiring) where
  -- The components that are recorded give what they were made for.
  pub record Tests (b : Builder) : Type 0 where
    pub equal : (code k : ℕ) → get code b.eq_checks ≡ some k → w.p.eq_out k ≡ (w.p.byte == code)
    pub within :
        (r : ℕ × ℕ) (l a : ℕ)
        → get r b.range_checks ≡ some (l, a)
        → r.1 < 256
        → r.0 < 256
        → w.p.and_out a ≡ in_range w.p.byte r
    pub some_edge :
        (outputs : List (Gate × ℕ)) (m : ℕ)
        → get (w.edge_json outputs) b.multi_or_checks1 ≡ some m
        → w.p.multi_or_out m ≡ any_on (map (out w.p) outputs)
    pub some_state :
        (outputs : List ℕ) (m : ℕ)
        → get (w.state_json outputs) b.multi_or_checks2 ≡ some m
        → w.p.multi_or_out m ≡ any_on (map w.p.and_out outputs)

  -- From the lines after a step, those before it; and from tests before it, what it makes good.
  abbrev pub Keeps : Builder → Builder → Type 0 → Type 0
  Keeps b b' Q = Satisfies w.h w.p b'.lines → Satisfies w.h w.p b.lines × (Tests b → Tests b' × Q)

  eq_lines-out :
      (code k : ℕ) → Satisfies w.h w.p (eq_lines code k) → w.p.eq_out k ≡ (w.p.byte == code)
  unfolding eq_lines
  eq_lines-out code k (o, (l, (r, _))) = o ∙ ap₂ w.h.is_equal l r ∙ w.h.is_equal_lem w.p.byte code

  new_eq_check-Tests :
      (code : ℕ) (b : Builder)
      → Keeps b (new_eq_check code b) (w.p.eq_out b.eq_i ≡ (w.p.byte == code))
  unfolding new_eq_check
  new_eq_check-Tests code b s =
      let (before, new) = All-append (Holds w.h w.p) b.lines (eq_lines code b.eq_i) s in
      let on = eq_lines-out code b.eq_i new in
      (
        before,
        λ t. (
          record {
            equal = λ c k e.
                ⊎_elim (λ q. ap w.p.eq_out (sym q.1) ∙ on ∙ ap (◌==◌ w.p.byte) (sym q.0))
                  (t.equal c k) (get-insert_cases c code b.eq_i k b.eq_checks e);
            within = t.within;
            some_edge = t.some_edge;
            some_state = t.some_state;
          },
          on,
        ),
      )

  pub add_eq_check-Tests :
      (code : ℕ) (b : Builder)
      → Keeps b (add_eq_check code b).0 (w.p.eq_out (add_eq_check code b).1 ≡ (w.p.byte == code))
  unfolding add_eq_check
  add_eq_check-Tests code b = go (get code b.eq_checks) refl
    where
      go :
          (o : Option ℕ)
          → get code b.eq_checks ≡ o
          → Keeps b
              (elim o as (λ x. Builder × ℕ) [
                | some k ↦ (b, k)
                | none ↦ (new_eq_check code b, b.eq_i)
              ]).0
              (w.p.eq_out
                  (elim o as (λ x. Builder × ℕ) [
                    | some k ↦ (b, k)
                    | none ↦ (new_eq_check code b, b.eq_i)
                  ]).1
                ≡ (w.p.byte == code))
      go (some k) e s = (s, λ t. (t, t.equal code k e))
      go none e s = new_eq_check-Tests code b s

  range_lines-out :
      (min max l a : ℕ)
      → min < 256
      → max < 256
      → Satisfies w.h w.p (range_lines min max l a)
      → w.p.and_out a ≡ in_range w.p.byte (min, max)
  unfolding range_lines
  range_lines-out min max l a lo hi (o1, (l1, (r1, (o2, (l2, (r2, (o, (x, (y, _))))))))) =
      o
      ∙ ap₂ w.h.and
          (x ∙ o1 ∙ ap₂ w.h.less_eq_than l1 r1 ∙ w.h.less_eq_than_lem min w.p.byte lo w.small)
          (y ∙ o2 ∙ ap₂ w.h.less_eq_than l2 r2 ∙ w.h.less_eq_than_lem w.p.byte max w.small hi)
      ∙ w.h.and_lem (leb min w.p.byte) (leb w.p.byte max)

  new_range_check-Tests :
      (min max : ℕ) (b : Builder)
      → min < 256
      → max < 256
      → Keeps b (new_range_check min max b) (w.p.and_out b.and_i ≡ in_range w.p.byte (min, max))
  unfolding new_range_check
  new_range_check-Tests min max b lo hi s =
      let (before, new) =
        All-append (Holds w.h w.p) b.lines (range_lines min max b.lt_i b.and_i) s in
      let on = range_lines-out min max b.lt_i b.and_i lo hi new in
      (
        before,
        λ t. (
          record {
            equal = t.equal;
            within = λ r l a e big small'.
                ⊎_elim
                  (λ q.
                    ap w.p.and_out (sym (ap (λ z. z.1) q.1))
                    ∙ on
                    ∙ ap (in_range w.p.byte) (sym q.0))
                  (λ q. t.within r l a q big small')
                  (get-insert_cases {K = ℕ × ℕ} r (min, max) (b.lt_i, b.and_i) (l, a) b.range_checks
                    e);
            some_edge = t.some_edge;
            some_state = t.some_state;
          },
          on,
        ),
      )

  abbrev range_checked :
      ℕ → ℕ → Builder → List (Gate × ℕ) → Option (ℕ × ℕ) → Builder × List (Gate × ℕ)
  range_checked min max b outputs o = elim o [
    | some (_, and_i) ↦ (b, outputs ++ (and_gate, and_i) ∷ [])
    | none ↦ (new_range_check min max b, outputs ++ (and_gate, b.and_i) ∷ [])
  ]

  -- What `outputs` stands for: at `b`'s wires, whether a byte is in one of the tests.
  pub add_range_check-Tests :
      (min max : ℕ) (b : Builder) (outputs : List (Gate × ℕ))
      → min < 256
      → max < 256
      → Keeps b (add_range_check min max (b, outputs)).0 (
          any_on (map (out w.p) (add_range_check min max (b, outputs)).1)
          ≡ (any_on (map (out w.p) outputs) || in_range w.p.byte (min, max)))
  unfolding add_range_check
  add_range_check-Tests min max b outputs lo hi = go (get (min, max) b.range_checks) refl
    where
      last :
          (k : ℕ)
          → w.p.and_out k ≡ in_range w.p.byte (min, max)
          → any_on (map (out w.p) (outputs ++ (and_gate, k) ∷ []))
            ≡ (any_on (map (out w.p) outputs) || in_range w.p.byte (min, max))
      last k on =
          any_on-concat (out w.p) outputs (and_gate, k)
          ∙ ap (◌||◌ (any_on (map (out w.p) outputs))) on

      go :
          (o : Option (ℕ × ℕ))
          → get (min, max) b.range_checks ≡ o
          → Keeps b (range_checked min max b outputs o).0 (
              any_on (map (out w.p) (range_checked min max b outputs o).1)
              ≡ (any_on (map (out w.p) outputs) || in_range w.p.byte (min, max)))
      go (some (l, a)) e s = (s, λ t. (t, last a (t.within (min, max) l a e hi lo)))
      go none e s =
          let (before, more) = new_range_check-Tests min max b lo hi s in
          (before, λ t. let (t', on) = more t in (t', last b.and_i on))

  pub Keeps-trans :
      (b b' b'' : Builder) (Q R : Type 0) → Keeps b b' Q → Keeps b' b'' R → Keeps b b'' (Q × R)
  Keeps-trans b b' b'' Q R first second s'' =
      let (s', later) = second s'' in
      let (s, earlier) = first s' in
      (s, λ t. let (t', q) = earlier t in let (t'', r) = later t' in (t'', (q, r)))

  pub Keeps-map : (b b' : Builder) (Q R : Type 0) → (Q → R) → Keeps b b' Q → Keeps b b' R
  Keeps-map b b' Q R f k s' = let (s, g) = k s' in (s, λ t. let (t', q) = g t in (t', f q))
