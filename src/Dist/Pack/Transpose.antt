-- ===== src/Dist/Pack/Transpose.antt =====
-- What `transpose` (dist-primitives/src/utils/pack.rs) returns.
use zk_pse.Base.{
  ℕ, zero, suc, ◌+◌, ◌<◌, List, [], ◌∷◌, length, get_elem?, Option, some, ◌>>=◌, ◌≡◌, refl, sym, ap,
  ◌∙◌, arith, All, All-map, All-get_elem?, eq_of_get_elem?, eq_of_some, subst,
}
use zk_pse.Dist.Pack.{column, columns, transpose}

-- The entry in row r and column c.
abbrev pub entry {ℓ} : {A : Type ℓ} → List (List A) → ℕ → ℕ → Option A
entry matrix r c = get_elem? matrix r >>= λ row. get_elem? row c

get_elem?-of_lt {ℓ} :
    {A : Type ℓ} (xs : List A) (i : ℕ) → i < length xs → (x : A) × (get_elem? xs i ≡ some x)
get_elem?-of_lt [] i h = absurd (omega arith)
get_elem?-of_lt (x ∷ xs) zero h = (x, refl)
get_elem?-of_lt (x ∷ xs) (suc i) h = get_elem?-of_lt xs i (omega arith)

lt_of_get_elem? {ℓ} :
    {A : Type ℓ} (xs : List A) (i : ℕ) {x : A} → get_elem? xs i ≡ some x → i < length xs
lt_of_get_elem? [] i e = cc
lt_of_get_elem? (x ∷ xs) zero e = omega arith
lt_of_get_elem? (x ∷ xs) (suc i) e = let h = lt_of_get_elem? xs i e in omega arith

module _ {ℓ} {A : Type ℓ} where
  column-returns :
      (c : ℕ) (matrix : List (List A))
      → All (λ row. c < length row) matrix
      → (xs : List A) × (column c matrix ≡ some xs)
        × (length xs ≡ length matrix)
        × ((r : ℕ) → get_elem? xs r ≡ entry matrix r c)
  unfolding column
  column-returns c [] h = ([], refl, refl, λ r. refl)
  column-returns c (row ∷ rows) (h, hs) =
      let (x, ex) = get_elem?-of_lt row c h in
      let (xs, e, l, at_row) = column-returns c rows hs in
      (x ∷ xs, rw (ex, e) refl, ap suc l, entries x xs ex at_row)
    where
      entries :
          (x : A) (xs : List A)
          → get_elem? row c ≡ some x
          → ((r : ℕ) → get_elem? xs r ≡ entry rows r c)
          → (r : ℕ) → get_elem? (x ∷ xs) r ≡ entry (row ∷ rows) r c
      entries x xs ex tail zero = sym ex
      entries x xs ex tail (suc r) = tail r

  columns-returns :
      (left c : ℕ) (matrix : List (List A))
      → All (λ row. length row ≡ c + left) matrix
      → (xs : List (List A)) × (columns left c matrix ≡ some xs)
        × (length xs ≡ left)
        × All (λ x. length x ≡ length matrix) xs
        × ((i r : ℕ) → i < left → entry xs i r ≡ entry matrix r (c + i))
  unfolding columns
  columns-returns zero c matrix h = ([], refl, refl, tt, λ i r lt. absurd (omega arith))
  columns-returns (suc left) c matrix h =
      let (x, e, l, at_row) = column-returns c matrix (
        All-map {P = λ row. length row ≡ c + suc left} {Q = λ row. c < length row}
          (λ row eq. omega arith) matrix h) in
      let (xs, es, ls, sizes, entries) = columns-returns left (suc c) matrix (
        All-map {P = λ row. length row ≡ c + suc left} {Q = λ row. length row ≡ suc c + left}
          (λ row eq. omega arith) matrix h) in
      (x ∷ xs, rw (e, es) refl, ap suc ls, (l, sizes), all_entries x xs at_row entries)
    where
      all_entries :
          (x : List A) (xs : List (List A))
          → ((r : ℕ) → get_elem? x r ≡ entry matrix r c)
          → ((i r : ℕ) → i < left → entry xs i r ≡ entry matrix r (suc c + i))
          → (i r : ℕ) → i < suc left
          → entry (x ∷ xs) i r ≡ entry matrix r (c + i)
      all_entries x xs at_row entries zero r lt = at_row r ∙ ap (entry matrix r) (omega arith)
      all_entries x xs at_row entries (suc i) r lt =
          entries i r (omega arith) ∙ ap (entry matrix r) (omega arith)

  -- A matrix with rows, all of one length that is not 0.
  abbrev pub IsRectangular : ℕ → List (List A) → Type 0
  IsRectangular cols matrix =
      (0 < length matrix) × (0 < cols) × All (λ row. length row ≡ cols) matrix

  transpose-entries :
      (cols : ℕ) (matrix : List (List A))
      → IsRectangular cols matrix
      → (xs : List (List A)) × (transpose matrix ≡ some xs)
        × (length xs ≡ cols)
        × All (λ x. length x ≡ length matrix) xs
        × ((i r : ℕ) → i < cols → entry xs i r ≡ entry matrix r i)
  unfolding transpose
  transpose-entries cols [] h = absurd (omega arith)
  transpose-entries cols ([] ∷ rest) (_, pos, (l, _)) = absurd (omega arith)
  transpose-entries cols ((x ∷ row) ∷ rest) (_, pos, (l, ls)) =
      subst
        (λ k.
          (xs : List (List A)) × (columns (suc (length row)) 0 ((x ∷ row) ∷ rest) ≡ some xs)
          × (length xs ≡ k)
          × All (λ y. length y ≡ suc (length rest)) xs
          × ((i r : ℕ) → i < k → entry xs i r ≡ entry ((x ∷ row) ∷ rest) r i))
        l
        (let (xs, e, n, sizes, entries) = columns-returns (suc (length row)) 0 ((x ∷ row) ∷ rest) (
          omega arith,
          All-map {P = λ y. length y ≡ cols} {Q = λ y. length y ≡ 0 + suc (length row)}
              (λ y eq. omega arith) rest ls,
        ) in
          (
            xs,
            e,
            n,
            sizes,
            λ i r lt. entries i r lt ∙ ap (entry ((x ∷ row) ∷ rest) r) (omega arith),
          ))

  entry-of :
      (matrix : List (List A)) (r c : ℕ) {row : List A}
      → get_elem? matrix r ≡ some row
      → entry matrix r c ≡ get_elem? row c
  entry-of matrix r c e = rw e refl

  -- `transpose` of a matrix with rows of one length returns a matrix with a row for each column
  -- and each entry at the mirrored place, and transposing that again gives the first matrix back.
  pub transpose-transpose :
      (cols : ℕ) (matrix : List (List A))
      → IsRectangular cols matrix
      → (xs : List (List A)) × (transpose matrix ≡ some xs)
        × (length xs ≡ cols)
        × IsRectangular (length matrix) xs
        × ((i r : ℕ) → i < cols → entry xs i r ≡ entry matrix r i)
        × (transpose xs ≡ some matrix)
  transpose-transpose cols matrix h =
      let (xs, e, l, sizes, entries) = transpose-entries cols matrix h in
      let wide : IsRectangular (length matrix) xs = (rw l h.1, h.0, sizes) in
      let (ys, e', l', sizes', entries') = transpose-entries (length matrix) xs wide in
      (
        xs,
        e,
        l,
        wide,
        entries,
        e'
            ∙ ap some (
                eq_of_get_elem? ys matrix l' (λ r y row ey er.
                  eq_of_get_elem? y row
                    (All-get_elem? (λ z. length z ≡ length xs) ys r sizes' ey
                      ∙ l
                      ∙ sym (All-get_elem? (λ z. length z ≡ cols) matrix r h.2 er))
                    (λ i a b ea eb.
                      let in_rows = lt_of_get_elem? matrix r er in
                      let in_cols = lt_of_get_elem? row i eb in
                      let width = All-get_elem? (λ z. length z ≡ cols) matrix r h.2 er in
                      eq_of_some (
                        sym ea
                        ∙ sym (entry-of ys r i ey)
                        ∙ entries' r i in_rows
                        ∙ entries i r (omega arith)
                        ∙ entry-of matrix r i er
                        ∙ eb)))),
      )
