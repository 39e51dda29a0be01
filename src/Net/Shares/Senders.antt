-- ===== src/Net/Shares/Senders.antt =====
-- The shares that the king goes on with are those of the parties they are listed under.
use zk_pse.Base.{
  ℕ, zero, suc, ◌+◌, ◌≤◌, ◌<◌, ltb, List, [], ◌∷◌, map, length, length-map, get_elem?, Option, none,
  some, ◌⊎◌, inl, inr, ◌≡◌, refl, sym, ap, ◌∙◌, arith, All, Bool-cases, eq_of_some, subst, zip_with,
}
use zk_pse.Std.Map.{Set, Map, get}
use zk_pse.Std.Ord.{nat_ord}
use zk_pse.Std.Text.{Text}
use zk_pse.Dist.Degree.{ReceivedShares}
use zk_pse.Net.{MpcNetError, Answer, ok, err}
use zk_pse.Net.Exchange.{
  Collection, start_collection, Reaches, KingReceived, full, partial, clients,
}
use zk_pse.Net.Exchange.Received.{message, IsFaithful, king_received-IsFaithful}
use zk_pse.Net.Shares.{decode, decode_all, decode_valid, received_shares, king_receive_serialized}

abbrev pub pairs_of {ℓ} : {T : Type ℓ} → ReceivedShares T → List (ℕ × T)
pairs_of rs = zip_with (λ p t. (p, t)) rs.parties rs.shares

-- the message of `p` is there, and reads as `t`
abbrev pub IsFrom {ℓ} : {T : Type ℓ} → (Text → T ⊎ Text) → (ℕ → Option Text) → ℕ → ℕ × T → Type ℓ
IsFrom deserialize sent n (p, t) =
    (p < n) × (b : Text) × (sent p ≡ some b) × (deserialize b ≡ inl t)

length-clients : (n j : ℕ) → length (clients n j) ≡ n
unfolding clients
length-clients zero j = refl
length-clients (suc n) j = ap suc (length-clients n (suc j))

zip_of_maps {ℓ} :
    {T : Type ℓ} (rs : List (ℕ × T))
    → zip_with (λ p t. (p, t)) (map (λ r. r.0) rs) (map (λ r. r.1) rs) ≡ rs
zip_of_maps [] = refl
zip_of_maps (r ∷ rs) = ap (◌∷◌ r) (zip_of_maps rs)

module _ {ℓ} {T : Type ℓ} (serialize : T → Text) (deserialize : Text → T ⊎ Text) where
  decode-inl : (b : Text) (t : T) → decode serialize deserialize b ≡ ok t → deserialize b ≡ inl t
  unfolding decode
  decode-inl b t e = go (deserialize b) e
    where
      go :
          (d : T ⊎ Text)
          → (elim d as (λ x. Answer T) [ inl x ↦ ok x | inr z ↦ err (MpcNetError.generic z) ])
            ≡ ok t
          → d ≡ inl t
      go (inl x) e' = ap inl (cc e')
      go (inr z) e' = cc e'

  decode_all-IsFrom :
      (sent : ℕ → Option Text) (n j : ℕ) (bs : List Text) (ts : List T)
      → decode_all serialize deserialize bs ≡ ok ts
      → ((i : ℕ) → i < length bs → (get_elem? bs i ≡ sent (j + i)) × (j + i < n))
      → (length ts ≡ length bs)
        × All (IsFrom deserialize sent n) (zip_with (λ p t. (p, t)) (clients (length bs) j) ts)
  unfolding decode_all clients
  decode_all-IsFrom sent n j [] [] e at = (refl, tt)
  decode_all-IsFrom sent n j [] (t ∷ ts) e at = cc e
  decode_all-IsFrom sent n j (b ∷ bs) ts e at =
      go (decode serialize deserialize b) refl (decode_all serialize deserialize bs) refl e (λ us r.
        decode_all-IsFrom sent n (suc j) bs us r (λ i lt.
          let (p, q) = at (suc i) (omega arith) in (p ∙ ap sent (omega arith), omega arith)))
    where
      go :
          (d : Answer T)
          → decode serialize deserialize b ≡ d
          → (r : Answer (List T)) → decode_all serialize deserialize bs ≡ r
          → (elim d as (λ x. Answer (List T)) [
            | err z ↦ err z
            | ok t ↦ elim r as (λ x. Answer (List T)) [ err z ↦ err z | ok us ↦ ok (t ∷ us) ]
          ])
            ≡ ok ts
          → ((us : List T)
              → decode_all serialize deserialize bs ≡ ok us
              → (length us ≡ length bs)
                × All
                    (IsFrom deserialize sent n)
                    (zip_with (λ p t. (p, t)) (clients (length bs) (suc j)) us))
          → (length ts ≡ suc (length bs))
            × All
                (IsFrom deserialize sent n)
                (zip_with (λ p t. (p, t)) (j ∷ clients (length bs) (suc j)) ts)
      go (err z) ed r er e' ih = cc e'
      go (ok t) ed (err z) er e' ih = cc e'
      go (ok t) ed (ok us) er e' ih =
          let all_read : (t ∷ us) ≡ ts = cc e' in
          let (len, rest) = ih us er in
          let (here, below) = at 0 (omega arith) in
          subst
            (λ z.
              (length z ≡ suc (length bs))
              × All (IsFrom deserialize sent n)
                  (zip_with (λ p x. (p, x)) (j ∷ clients (length bs) (suc j)) z))
            all_read
            (
              ap suc len,
              ((omega arith, b, ap sent (omega arith) ∙ sym here, decode-inl b t ed), rest),
            )

  decode_valid-IsFrom :
      (sent : ℕ → Option Text) (n : ℕ) (l : List (ℕ × Text))
      → All (λ e. (e.0 < n) × (sent e.0 ≡ some e.1)) l
      → All (IsFrom deserialize sent n) (decode_valid serialize deserialize l)
  unfolding decode_valid
  decode_valid-IsFrom sent n [] all = tt
  decode_valid-IsFrom sent n ((id, b) ∷ l) ((lt, from), all) =
      go (decode serialize deserialize b) refl (decode_valid-IsFrom sent n l all)
    where
      go :
          (d : Answer T)
          → decode serialize deserialize b ≡ d
          → All (IsFrom deserialize sent n) (decode_valid serialize deserialize l)
          → All (IsFrom deserialize sent n) (elim d as (λ x. List (ℕ × T)) [
            | err e ↦ decode_valid serialize deserialize l
            | ok t ↦ (id, t) ∷ decode_valid serialize deserialize l
          ])
      go (err e) ed ih = ih
      go (ok t) ed ih = ((lt, b, from, decode-inl b t ed), ih)

  -- What `received_shares` makes of a faithful result: each share is read from the message of the party it is listed
  -- under, and there is one for every party or there are as many as the threshold asks for.
  received_shares-IsFrom :
      (into_iter : Map ℕ Text → List (ℕ × Text))
      → ((m : Map ℕ Text) → All (λ e. get e.0 m ≡ some e.1) (into_iter m))
      → (answers : ℕ → Answer Text) (n threshold : ℕ) (own : Text) (waiting : Set ℕ)
        (r : KingReceived) (rs : ReceivedShares T)
      → IsFaithful answers n own waiting r
      → received_shares serialize deserialize into_iter n threshold r ≡ ok rs
      → All (IsFrom deserialize (message answers own) n) (pairs_of rs)
        × (length rs.parties ≡ length rs.shares)
        × ((length rs.shares ≡ n) ⊎ (threshold ≤ length rs.shares))
  unfolding received_shares
  received_shares-IsFrom into_iter entries answers n threshold own waiting (full l) rs (len, each)
        e =
      go (decode_all serialize deserialize l) refl e
    where
      go :
          (d : Answer (List T))
          → decode_all serialize deserialize l ≡ d
          → (elim d as (λ x. Answer (ReceivedShares T)) [
            | err z ↦ err z
            | ok ret ↦ ok (record { shares = ret; parties = clients n 0 })
          ])
            ≡ ok rs
          → All (IsFrom deserialize (message answers own) n) (pairs_of rs)
            × (length rs.parties ≡ length rs.shares)
            × ((length rs.shares ≡ n) ⊎ (threshold ≤ length rs.shares))
      go (err z) ed e' = cc e'
      go (ok ret) ed e' =
          let (len', all) = decode_all-IsFrom (message answers own) n 0 l ret ed (λ i lt. (
            (each i (rw (← len) lt)).0 ∙ ap (message answers own) (omega arith),
            omega (arith, len),
          )) in
          let made : record { shares = ret; parties = clients n 0 } ≡ rs = cc e' in
          subst
            (λ z.
              All (IsFrom deserialize (message answers own) n) (pairs_of z)
              × (length z.parties ≡ length z.shares)
              × ((length z.shares ≡ n) ⊎ (threshold ≤ length z.shares)))
            made
            (
              subst
                  (λ k.
                    All (IsFrom deserialize (message answers own) n)
                      (zip_with (λ p t. (p, t)) (clients k 0) ret))
                  len all,
              length-clients n 0 ∙ sym (len' ∙ len),
              inl (len' ∙ len),
            )
  received_shares-IsFrom into_iter entries answers n threshold own waiting (partial m) rs
        (from, _, _, _, _) e =
      let results = decode_valid serialize deserialize (into_iter m) in
      let all =
        decode_valid-IsFrom (message answers own) n (into_iter m)
          (senders (into_iter m) (entries m)) in
      elim (Bool-cases (ltb (length results) threshold)) [
        | inl y ↦ cc (rw y at e)
        | inr p ↦
            let made : record { shares = map (λ r. r.1) results; parties = map (λ r. r.0) results }
                ≡ rs =
              cc (rw p at e) in
            subst
              (λ z.
                All (IsFrom deserialize (message answers own) n) (pairs_of z)
                × (length z.parties ≡ length z.shares)
                × ((length z.shares ≡ n) ⊎ (threshold ≤ length z.shares)))
              made
              (
                subst (All (IsFrom deserialize (message answers own) n)) (sym (zip_of_maps results))
                    all,
                length-map (λ r. r.0) results ∙ sym (length-map (λ r. r.1) results),
                inr (let len = length-map (λ r. r.1) results in ground (arith, len)),
              )
      ]
    where
      senders :
          (l : List (ℕ × Text))
          → All (λ e. get e.0 m ≡ some e.1) l
          → All (λ e. (e.0 < n) × (message answers own e.0 ≡ some e.1)) l
      senders [] h = tt
      senders ((id, b) ∷ l) (h, hs) = (from id b h, senders l hs)

  -- When the king goes on after the exchange, in whatever order the clients answered and whenever the timeout came:
  -- each share was read from the message of the party that it is listed under, no party is out of
  -- range, and there is a share for every party, or there are as many as the threshold asks for. `into_iter` is to yield
  -- entries of its map.
  pub king_receive_serialized-IsFrom :
      (into_iter : Map ℕ Text → List (ℕ × Text))
      → ((m : Map ℕ Text) → All (λ e. get e.0 m ≡ some e.1) (into_iter m))
      → (answers : ℕ → Answer Text) (n_parties threshold : ℕ) (own : T) (c : Collection)
        (rs : ReceivedShares T)
      → 1 ≤ n_parties
      → Reaches answers (start_collection n_parties) c
      → king_receive_serialized serialize deserialize into_iter n_parties threshold own c.store
        ≡ some (ok rs)
      → All (IsFrom deserialize (message answers (serialize own)) n_parties) (pairs_of rs)
        × (length rs.parties ≡ length rs.shares)
        × ((length rs.shares ≡ n_parties) ⊎ (threshold ≤ length rs.shares))
  unfolding king_receive_serialized
  king_receive_serialized-IsFrom into_iter entries answers n threshold own c rs pos reached e =
      let (r, made, faithful, _) =
        king_received-IsFaithful answers n (serialize own) c pos reached in
      received_shares-IsFrom into_iter entries answers n threshold (serialize own) c.waiting r rs
        faithful
        (eq_of_some (
          sym (
            ap
              (λ o. elim o as (λ x. Option (Answer (ReceivedShares T))) [
                | none ↦ none
                | some x ↦ some (received_shares serialize deserialize into_iter n threshold x)
              ])
              made)
          ∙ e))
