-- ===== src/Net/Exchange/Delivered.antt =====
-- What the king sends.
use zk_pse.Base.{
  ℕ, suc, ◌+◌, ◌≤◌, ◌==◌, ==_iff, Bool, true, false, if◌then◌else◌, List, [], ◌∷◌, ◌++◌, length,
  get_elem?, Option, none, some, ◌≡◌, refl, ap, ap₂, ◌∙◌, arith, All, sym, subst, ◌⊎◌, inl, inr,
}
use zk_pse.Std.Text.{Text}
use zk_pse.Net.{MpcNetError, Answer, ok, err}
use zk_pse.Net.Exchange.{Sent, wrong_length, send_each, client_receive_or_king_send}

-- messages for the ids from `id` on
unfoldable pub numbered : ℕ → List Text → List (ℕ × Text)
numbered id [] = []
numbered id (b ∷ bs) = (id, b) ∷ numbered (suc id) bs

append_assoc {ℓ} :
    {A : Type ℓ} (xs : List A) (y : A) (ys : List A) → (xs ++ y ∷ []) ++ ys ≡ xs ++ y ∷ ys
append_assoc [] y ys = refl
append_assoc (x ∷ xs) y ys = ap (◌∷◌ x) (append_assoc xs y ys)

append_nil {ℓ} : {A : Type ℓ} (xs : List A) → xs ≡ xs ++ []
append_nil [] = refl
append_nil (x ∷ xs) = ap (◌∷◌ x) (append_nil xs)

-- Each of the messages, to the party with its number, is sent.
abbrev pub SendsAll : (ℕ → Text → Answer {0} Unit) → ℕ → List Text → Type 0
SendsAll send id [] = Unit
SendsAll send id (b ∷ bs) = (send id b ≡ ok tt) × SendsAll send (suc id) bs

-- How the loop over the messages `rest` for the ids from `id` on ends, after `sent`: all are sent and
-- the king goes on with its own, or the first that `send_to` fails on ends it with that error.
abbrev pub Delivers :
    (ℕ → Text → Answer {0} Unit) → ℕ → List Text → Text → List (ℕ × Text) → Sent → Type 0
Delivers send id rest own sent r =
    (SendsAll send id rest
      × (r ≡ record { messages = sent ++ numbered id rest; outcome = some (ok own) }))
    ⊎ ((before : List Text) × (b : Text) × (after : List Text) × (e : MpcNetError) × (rest
          ≡ before ++ b ∷ after)
        × SendsAll send id before
        × (send (id + length before) b ≡ err e)
        × (r ≡ record { messages = sent ++ numbered id before; outcome = some (err e) }))

-- A message that is sent comes before the rest.
Delivers-cons :
    (send : ℕ → Text → Answer {0} Unit) (id : ℕ) (b : Text) (rest : List Text) (own : Text)
    (sent : List (ℕ × Text)) (r : Sent)
    → send id b ≡ ok tt
    → Delivers send (suc id) rest own (sent ++ (id, b) ∷ []) r
    → Delivers send id (b ∷ rest) own sent r
unfolding numbered
Delivers-cons send id b rest own sent r ok_b (inl (all, e)) = inl (
  (ok_b, all),
  e
      ∙ ap (λ s. record { messages = s; outcome = some (ok own) })
          (append_assoc sent (id, b) (numbered (suc id) rest)),
)
Delivers-cons send id b rest own sent r ok_b (inr (before, x, after, z, split, all, fails, e)) =
    inr (
      b ∷ before,
      x,
      after,
      z,
      ap (◌∷◌ b) split,
      (ok_b, all),
      ap (λ k. send k x) (omega arith) ∙ fails,
      e
          ∙ ap (λ s. record { messages = s; outcome = some (err z) })
              (append_assoc sent (id, b) (numbered (suc id) before)),
    )

-- The loop from a client on, when the rest of the messages is `rest`.
send_each-Delivers :
    (send : ℕ → Text → Answer {0} Unit) (m id : ℕ) (rest bytes_out : List Text) (own : Text)
    (sent : List (ℕ × Text))
    → get_elem? bytes_out 0 ≡ some own
    → 1 ≤ id
    → ((i : ℕ) → get_elem? bytes_out (id + i) ≡ get_elem? rest i)
    → All (λ b. length b ≡ m) rest
    → Delivers send id rest own sent (send_each send m (length rest) id bytes_out sent)
unfolding send_each numbered
send_each-Delivers send m id [] bytes_out own sent first pos at all = inl (
  tt,
  ap₂
      (λ s o. record {
        messages = s;
        outcome = elim o as (λ x. Option (Answer Text)) [ none ↦ none | some b ↦ some (ok b) ];
      })
      (append_nil sent) first,
)
send_each-Delivers send m id (b ∷ rest) bytes_out own sent first pos at (len, all) =
    subst (Delivers send id (b ∷ rest) own sent)
      (sym (
        ap here (ap (get_elem? bytes_out) (omega arith) ∙ at 0)
        ∙ chosen (id == 0) (length b == m) (ground arith) ((==_iff (length b) m).1 len)))
      (tried (send id b) refl (
        send_each-Delivers send m (suc id) rest bytes_out own (sent ++ (id, b) ∷ []) first
          (omega arith) (λ i. ap (get_elem? bytes_out) (omega arith) ∙ at (suc i)) all))
  where
    go_on : Answer {0} Unit → Text → Sent
    go_on a x = elim a [
      | ok _ ↦ send_each send m (length rest) (suc id) bytes_out (sent ++ (id, x) ∷ [])
      | err e ↦ record { messages = sent; outcome = some (err e) }
    ]

    step : Bool → Bool → Text → Sent
    step p q x =
        if p
        then send_each send m (length rest) (suc id) bytes_out sent
        else if q
        then go_on (send id x) x
        else record { messages = sent; outcome = some (wrong_length id) }

    here : Option Text → Sent
    here o = elim o [
      | none ↦ record { messages = sent; outcome = none }
      | some x ↦ step (id == 0) (length x == m) x
    ]

    chosen : (p q : Bool) → p ≡ false → q ≡ true → step p q b ≡ go_on (send id b) b
    chosen true q e f = cc e
    chosen false true e f = refl
    chosen false false e f = cc f

    tried :
        (a : Answer {0} Unit)
        → send id b ≡ a
        → Delivers send
            (suc id)
            rest
            own
            (sent ++ (id, b) ∷ [])
            (send_each send m (length rest) (suc id) bytes_out (sent ++ (id, b) ∷ []))
        → Delivers send id (b ∷ rest) own sent (go_on a b)
    tried (ok tt) e ih = Delivers-cons send id b rest own sent _ e ih
    tried (err z) e ih = inr (
      [],
      b,
      rest,
      z,
      refl,
      tt,
      ap (λ k. send k b) (omega arith) ∙ e,
      ap (λ s. record { messages = s; outcome = some (err z) }) (append_nil sent),
    )

-- The king, with a message for every party and all of one length, sends each client its message,
-- once and in the order of the parties, and goes on with its own; or `send_to` fails on one, and then the king
-- has sent the messages before it, none behind it, and returns that error. Whatever `recv_from` would yield.
pub client_receive_or_king_send-Delivers :
    (send : ℕ → Text → Answer {0} Unit) (recv : Answer Text) (own : Text) (rest : List Text)
    → All (λ b. length b ≡ length own) rest
    → Delivers send 1 rest own []
        (client_receive_or_king_send send (suc (length rest)) 0 recv (some (own ∷ rest)))
unfolding client_receive_or_king_send send_each
client_receive_or_king_send-Delivers send recv own rest all =
    send_each-Delivers send (length own) 1 rest (own ∷ rest) own [] refl (omega arith)
      (λ i. let next : 1 + i ≡ suc i = omega arith in ap (get_elem? (own ∷ rest)) next) all
