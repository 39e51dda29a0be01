-- ===== src/Regex/Circom/Ranges/Cover.antt =====
-- The ranges and the single bytes of `optimize_char_ranges` are the bytes it was given.
use zk_pse.Base.{
  ℕ, zero, suc, ◌+◌, ◌-◌, ◌%◌, ◌<◌, subst, ◌⊎◌, leb→le, ◌≤◌, ◌==◌, ==_iff, leb, Bool, true, false,
  not, ◌&&◌, ◌||◌, List, [], ◌∷◌, ◌++◌, foldl, All, All-concat, ◌≡◌, refl, sym, ◌∙◌, arith,
  Bool-cases, inl, inr,
}
use zk_pse.Std.Ord.{same_iff, nat_ord}
use zk_pse.Std.Sort.{IsSorted}
use zk_pse.Std.Map.{Set, contains, delete, add_all, contains-add, contains-delete, add}
use zk_pse.Regex.Label.{byte_range, range_from}
use zk_pse.Regex.Circom.Ranges.{
  CharRanges, close_range, range_step, remove_codes, remove_ranges, find_ranges,
  optimize_char_ranges,
}

abbrev pub in_range : ℕ → ℕ × ℕ → Bool
in_range c (min, max) = leb min c && leb c max

-- Whether a byte is in some range.
unfoldable pub in_ranges : ℕ → List (ℕ × ℕ) → Bool
in_ranges c [] = false
in_ranges c (r ∷ rs) = in_range c r || in_ranges c rs

contains-range_from :
    (c start n : ℕ) → contains c (range_from start n) ≡ (leb start c && not (leb (start + n) c))
unfolding contains range_from
contains-range_from c start zero = ground arith
contains-range_from c start (suc n) = ground (arith, contains-range_from c (suc start) n)

contains-byte_range : (c min max : ℕ) → contains c (byte_range min max) ≡ in_range c (min, max)
unfolding byte_range
contains-byte_range c min max = contains-range_from c min (suc max - min) ∙ ground arith

contains-remove_codes :
    (c : ℕ) (codes : List ℕ) (vals : Set ℕ)
    → contains c (remove_codes codes vals) ≡ (contains c vals && not (contains c codes))
unfolding remove_codes contains
contains-remove_codes c [] vals = ground arith
contains-remove_codes c (code ∷ codes) vals =
    contains-remove_codes c codes (delete code vals) ∙ ground (arith, contains-delete c code vals)

contains-remove_ranges :
    (c : ℕ) (ranges : List (ℕ × ℕ)) (vals : Set ℕ)
    → contains c (remove_ranges ranges vals) ≡ (contains c vals && not (in_ranges c ranges))
unfolding remove_ranges in_ranges
contains-remove_ranges c [] vals = ground arith
contains-remove_ranges c ((min, max) ∷ ranges) vals =
    contains-remove_ranges c ranges (remove_codes (byte_range min max) vals)
    ∙ ground
        (arith, contains-remove_codes c (byte_range min max) vals, contains-byte_range c min max)

contains-add_all :
    (c : ℕ) (ks : List ℕ) (s : Set ℕ) → contains c (add_all ks s) ≡ (contains c ks || contains c s)
unfolding add_all contains
contains-add_all c [] s = refl
contains-add_all c (k ∷ ks) s = contains-add_all c ks (add k s) ∙ ground (arith, contains-add c k s)

in_ranges-append :
    (c : ℕ) (rs : List (ℕ × ℕ)) (r : ℕ × ℕ)
    → in_ranges c (rs ++ r ∷ []) ≡ (in_ranges c rs || in_range c r)
unfolding in_ranges
in_ranges-append c [] r = ground arith
in_ranges-append c (q ∷ rs) r = ground (arith, in_ranges-append c rs r)

-- The ranges found, and the run being read, hold only bytes of `k`, and are as long as wanted.
record Inside (k : List ℕ) (s : CharRanges) : Type 0 where
  done : (c : ℕ) → in_ranges c s.min_maxes ≡ true → contains c k ≡ true
  current : (c : ℕ) → in_range c (s.cur_min, s.cur_max) ≡ true → contains c k ≡ true
  long : All (λ r. 16 ≤ r.1 - r.0) s.min_maxes
  ordered : s.cur_min ≤ s.cur_max

closed :
    (k : List ℕ) (s : CharRanges)
    → Inside k s
    → (c : ℕ) → in_ranges c (close_range s) ≡ true
    → contains c k ≡ true
unfolding close_range
closed k s h c e = elim (Bool-cases (leb 16 ((s.cur_max + 256 - s.cur_min) % 256))) [
  | inl wide ↦
      let e' : in_ranges c (s.min_maxes ++ (s.cur_min, s.cur_max) ∷ []) ≡ true = rw wide at e in
      ground (arith, in_ranges-append c s.min_maxes (s.cur_min, s.cur_max), h.done c, h.current c)
  | inr narrow ↦ h.done c (rw narrow at e)
]

wide_enough :
    (s : CharRanges)
    → s.cur_min ≤ s.cur_max
    → leb 16 ((s.cur_max + 256 - s.cur_min) % 256) ≡ true
    → 16 ≤ s.cur_max - s.cur_min
wide_enough s h e = omega (arith, leb→le _ _ e)

closed_long : (k : List ℕ) (s : CharRanges) → Inside k s → All (λ r. 16 ≤ r.1 - r.0) (close_range s)
unfolding close_range
closed_long k s h = elim (Bool-cases (leb 16 ((s.cur_max + 256 - s.cur_min) % 256))) [
  | inl wide ↦
      rw wide (All-concat (λ r. 16 ≤ r.1 - r.0) s.min_maxes h.long (wide_enough s h.ordered wide))
  | inr narrow ↦ rw narrow h.long
]

at_byte :
    (k : List ℕ) (val c : ℕ)
    → contains val k ≡ true
    → in_range c (val, val) ≡ true
    → contains c k ≡ true
at_byte k val c h e = let eq : c ≡ val = ground arith in rw eq h

differ : (a b : ℕ) → (a == b) ≡ false → ¬ (a ≡ b)
differ a b e q = cc (sym e ∙ (==_iff a b).1 q)

-- The run being read ends in the last byte.
range_step-cur_max : (s : CharRanges) (val : ℕ) → (range_step s val).cur_max ≡ val
unfolding range_step
range_step-cur_max s val = ground (arith, ==_iff s.cur_max val)

range_step-Inside :
    (k : List ℕ) (s : CharRanges) (val : ℕ)
    → Inside k s
    → s.cur_max ≤ val
    → contains val k ≡ true
    → Inside k (range_step s val)
unfolding range_step
range_step-Inside k s val h le m = elim (Bool-cases (s.cur_max == val)) [
  | inl again ↦ rw again h
  | inr other ↦ elim (Bool-cases ((s.cur_max + 1) % 256 == val)) [
    | inl next ↦
        let follows : val ≡ s.cur_max + 1 =
          omega (arith, (==_iff ((s.cur_max + 1) % 256) val).0 next, differ s.cur_max val other) in
        rw (other, next)
          (record {
            done = h.done;
            current = λ c e. elim (Bool-cases (c == val)) [
              | inl t ↦ rw ((==_iff c val).0 t) m
              | inr t ↦ h.current c (ground arith)
            ];
            long = h.long;
            ordered = omega (arith, h.ordered);
          })
    | inr gap ↦
        rw (other, gap)
          (record {
            done = closed k s h;
            current = λ c e. at_byte k val c m e;
            long = closed_long k s h;
            ordered = omega arith;
          })
  ]
]

-- The rest of the list is part of `k`.
foldl-Inside :
    (k rest : List ℕ) (s : CharRanges)
    → ((c : ℕ) → contains c rest ≡ true → contains c k ≡ true)
    → IsSorted (s.cur_max ∷ rest)
    → Inside k s
    → Inside k (foldl range_step s rest)
unfolding contains
foldl-Inside k [] s sub sorted h = h
foldl-Inside k (val ∷ rest) s sub ((le, _), sorted) h =
    foldl-Inside k rest (range_step s val) (λ c e. sub c (ground arith))
      (subst (λ m. IsSorted (m ∷ rest)) (sym (range_step-cur_max s val)) sorted)
      (range_step-Inside k s val h le (sub val (ground (arith, same_iff val val))))

pub optimize_char_ranges-splits :
    (k : List ℕ)
    → IsSorted k
    → ((c : ℕ)
        → ((in_ranges c (optimize_char_ranges k).0 || contains c (optimize_char_ranges k).1)
            ≡ contains c k)
          × ((in_ranges c (optimize_char_ranges k).0 && contains c (optimize_char_ranges k).1)
              ≡ false))
      × All (λ r. 16 ≤ r.1 - r.0) (optimize_char_ranges k).0
unfolding optimize_char_ranges
optimize_char_ranges-splits [] sorted = (unfold in_ranges contains in λ c. (refl, refl), tt)
optimize_char_ranges-splits (first ∷ rest) sorted =
    (λ c. both c, unfold find_ranges in closed_long k end inside)
  where
    k : List ℕ
    k = first ∷ rest

    end : CharRanges
    end = foldl range_step (record { min_maxes = []; cur_min = first; cur_max = first }) rest

    inside : Inside k end
    inside =
        unfold contains in_ranges in
        foldl-Inside k rest (record { min_maxes = []; cur_min = first; cur_max = first })
          (λ c e. ground arith) sorted
          (record {
            done = λ c e. absurd (cc);
            current = λ c e. at_byte k first c (ground (arith, same_iff first first)) e;
            long = tt;
            ordered = omega arith;
          })

    split :
        (r m : Bool)
        → (r ≡ true → m ≡ true)
        → ((r || ((m || false) && not r)) ≡ m) × ((r && ((m || false) && not r)) ≡ false)
    split true m h = (sym (h refl), ground arith)
    split false true h = (refl, refl)
    split false false h = (refl, refl)

    both :
        (c : ℕ)
        → ((in_ranges c (find_ranges first rest)
              || contains c (remove_ranges (find_ranges first rest) (add_all k [])))
            ≡ contains c k)
          × ((in_ranges c (find_ranges first rest)
                && contains c (remove_ranges (find_ranges first rest) (add_all k [])))
              ≡ false)
    both c =
        let within : in_ranges c (find_ranges first rest) ≡ true → contains c k ≡ true =
          unfold find_ranges in closed k end inside c in
        rw
          (
            contains-remove_ranges c (find_ranges first rest) (add_all k []),
            contains-add_all c k [],
          )
          (unfold contains in split (in_ranges c (find_ranges first rest)) (contains c k) within)

abbrev pub range_start : ℕ → CharRanges
range_start first = record { min_maxes = []; cur_min = first; cur_max = first }

-- No sum or difference of `u8` overflows in the rounds from a state on, nor after them.
abbrev pub NoOverflow : CharRanges → List ℕ → Type 0
NoOverflow s [] = s.cur_min ≤ s.cur_max
NoOverflow s (val ∷ rest) =
    ((s.cur_max ≡ val) ⊎ (s.cur_max + 1 < 256))
    × (s.cur_min ≤ s.cur_max)
    × NoOverflow (range_step s val) rest

abbrev pub NeverOverflows : List ℕ → Type 0
NeverOverflows [] = Unit
NeverOverflows (first ∷ rest) = NoOverflow (range_start first) rest

range_step-ordered :
    (s : CharRanges) (val : ℕ)
    → s.cur_min ≤ s.cur_max
    → s.cur_max ≤ val
    → (range_step s val).cur_min ≤ (range_step s val).cur_max
unfolding range_step
range_step-ordered s val h le = ground (arith, ==_iff ((s.cur_max + 1) % 256) val)

sorted-NoOverflow :
    (rest : List ℕ) (s : CharRanges)
    → IsSorted (s.cur_max ∷ rest)
    → s.cur_min ≤ s.cur_max
    → All (λ v. v < 256) rest
    → NoOverflow s rest
sorted-NoOverflow [] s sorted h low = h
sorted-NoOverflow (val ∷ rest) s ((le, _), sorted) h (lt, low) = (
  elim (Bool-cases (s.cur_max == val)) [
    | inl y ↦ inl ((==_iff s.cur_max val).0 y)
    | inr n ↦ inr (omega (arith, differ s.cur_max val n))
  ],
  h,
  sorted-NoOverflow rest (range_step s val)
      (subst (λ m. IsSorted (m ∷ rest)) (sym (range_step-cur_max s val)) sorted)
      (range_step-ordered s val h le) low,
)

-- A sorted list of bytes, which is what the caller gives, is split by `optimize_char_ranges`: a byte
-- is in one of the ranges or among the single bytes exactly when it is in the list, it is never in both,
-- and each range has at least 17 bytes. On the way no sum or difference of `u8` overflows.
pub optimize_char_ranges-cover :
    (k : List ℕ)
    → IsSorted k
    → All (λ v. v < 256) k
    → ((c : ℕ)
        → ((in_ranges c (optimize_char_ranges k).0 || contains c (optimize_char_ranges k).1)
            ≡ contains c k)
          × ((in_ranges c (optimize_char_ranges k).0 && contains c (optimize_char_ranges k).1)
              ≡ false))
      × All (λ r. 16 ≤ r.1 - r.0) (optimize_char_ranges k).0
      × NeverOverflows k
optimize_char_ranges-cover k sorted low =
    let (covers, long) = optimize_char_ranges-splits k sorted in (covers, long, never k sorted low)
  where
    never : (l : List ℕ) → IsSorted l → All (λ v. v < 256) l → NeverOverflows l
    never [] s h = tt
    never (first ∷ rest) s (_, h) = sorted-NoOverflow rest (range_start first) s (omega arith) h
