-- ===== src/Net/Exchange/Finished.antt =====
-- From wherever the exchange is, the tasks that are left can end, and then the king has all messages.
use zk_pse.Base.{
  ℕ, zero, suc, true, false, Bool, not, ◌&&◌, sym, ◌≤◌, ◌<◌, if◌then◌else◌, List, [], ◌∷◌, length,
  none, some, ◌≡◌, refl, ap, ◌∙◌, arith, Bool-cases, inl, inr, subst,
}
use zk_pse.Std.Ord.{nat_ord, same, same_iff}
use zk_pse.Std.Map.{get, contains, delete}
use zk_pse.Std.Text.{Text}
use zk_pse.Net.{Answer, ok, err}
use zk_pse.Net.Exchange.{
  Collection, start_collection, on_answer, Reaches, start, answer, full, king_received,
}
use zk_pse.Net.Exchange.Collected.{got, asked, Collected, Reaches-Collected}
use zk_pse.Net.Exchange.Received.{IsFaithful, king_received-IsFaithful}

length-delete : (k : ℕ) (s : List ℕ) → length (delete k s) ≤ length s
unfolding delete
length-delete k [] = omega arith
length-delete k (j ∷ s) = elim (Bool-cases (same k j)) [
  | inl y ↦ rw y (omega (arith, length-delete k s))
  | inr n ↦ rw n (omega (arith, length-delete k s))
]

delete-first : (k : ℕ) (s : List ℕ) → delete k (k ∷ s) ≡ delete k s
unfolding delete
delete-first k s = ap (λ z. if z then delete k s else k ∷ delete k s) ((same_iff k k).1 refl)

waiting-on_answer :
    (id : ℕ) (a : Answer Text) (c : Collection) → (on_answer id a c).waiting ≡ delete id c.waiting
unfolding on_answer
waiting-on_answer id (ok b) c = refl
waiting-on_answer id (err e) c = refl

-- Each task that ends leaves fewer waiting.
finish :
    (answers : ℕ → Answer Text) (c0 : Collection) (fuel : ℕ) (c : Collection) (w : List ℕ)
    → c.waiting ≡ w
    → length w ≤ fuel
    → Reaches answers c0 c
    → (c' : Collection) × Reaches answers c0 c' × (c'.waiting ≡ [])
finish answers c0 fuel c [] e h r = (c, r, e)
finish answers c0 zero c (id ∷ w) e h r = absurd (omega arith)
finish answers c0 (suc fuel) c (id ∷ w) e h r =
    let next = on_answer id (answers id) c in
    finish answers c0 fuel next next.waiting refl
      (shorter (waiting-on_answer id (answers id) c ∙ ap (delete id) e))
      (answer id c next r (ap (contains id) e ∙ unfold contains in ground (arith, same_iff id id))
        refl)
  where
    shorter :
        (on_answer id (answers id) c).waiting ≡ delete id (id ∷ w)
        → length (on_answer id (answers id) c).waiting ≤ fuel
    shorter q =
        let all = ap length q ∙ ap length (delete-first id w) in omega (arith, length-delete id w)

Reaches-trans :
    (answers : ℕ → Answer Text) (c0 c1 c2 : Collection)
    → Reaches answers c0 c1
    → Reaches answers c1 c2
    → Reaches answers c0 c2
Reaches-trans answers c0 c1 c2 r (start c e) = subst (Reaches answers c0) (sym e) r
Reaches-trans answers c0 c1 c2 r (answer id c c' s w e) =
    answer id c c2 (Reaches-trans answers c0 c1 c r s) w e

-- What is stored stays stored until no task is left.
stays :
    (answers : ℕ → Answer Text) (n : ℕ) (c c' : Collection)
    → Collected answers n c
    → Collected answers n c'
    → c'.waiting ≡ []
    → (id : ℕ) (b : Text) → get id c.store ≡ some b
    → get id c'.store ≡ some b
stays answers n c c' h h' none_left id b e =
    let waits_not : contains id c'.waiting ≡ false =
      ap (contains id) none_left ∙ unfold contains in refl in
    h'.value id
    ∙ ap (λ z. if asked n id && not z then got (answers id) else none) waits_not
    ∙ one (asked n id) (contains id c.waiting) (sym (h.value id) ∙ e)
  where
    one :
        (a w : Bool)
        → (if a && not w then got (answers id) else none) ≡ some b
        → (if a && not false then got (answers id) else none) ≡ some b
    one true true q = cc q
    one true false q = q
    one false w q = cc q

-- From whatever the king has collected, the tasks that are left can end, with all that was stored still stored;
-- and when every client's answer is good, the king then has all messages, in the order of the
-- parties, and no task is left.
pub king_received-completes :
    (answers : ℕ → Answer Text) (n_parties : ℕ) (own : Text) (c : Collection)
    → 1 ≤ n_parties
    → ((id : ℕ) → 1 ≤ id → id < n_parties → ¬ (got (answers id) ≡ none))
    → Reaches answers (start_collection n_parties) c
    → (c' : Collection) × (l : List Text) × Reaches answers c c'
      × ((id : ℕ) (b : Text) → get id c.store ≡ some b → get id c'.store ≡ some b)
      × (c'.waiting ≡ [])
      × (king_received n_parties own c'.store ≡ some (full l))
      × IsFaithful answers n_parties own c'.waiting (full l)
king_received-completes answers n own c pos good r =
    let (c', rest, done) =
      finish answers c (length c.waiting) c c.waiting refl (omega arith) (start c refl) in
    let r' = Reaches-trans answers (start_collection n) c c' r rest in
    let (k, made, faithful, all) = king_received-IsFaithful answers n own c' pos r' in
    let (l, e) = all done good in
    let kept =
      stays answers n c c' (Reaches-Collected answers n c r) (Reaches-Collected answers n c' r')
        done in
    (
      c',
      l,
      rest,
      kept,
      done,
      made ∙ ap some e,
      subst (IsFaithful answers n own c'.waiting) e faithful,
    )
