-- ===== src/Tests/Net.antt =====
-- Three parties, of which one does not answer.
use zk_pse.Base.{
  ℕ, zero, suc, ◌≤◌, ◌<◌, List, [], ◌∷◌, length, Option, none, some, ◌⊎◌, inl, ◌≡◌, refl, arith,
  All,
}
use zk_pse.Std.Ord.{nat_ord}
use zk_pse.Std.Map.{Map, get, insert, contains, delete}
use zk_pse.Std.Text.{Text}
use zk_pse.Dist.Degree.{ReceivedShares}
use zk_pse.Net.{MpcNetError, Answer, ok, err}
use zk_pse.Net.Exchange.{
  Collection, clients, start_collection, on_answer, Reaches, start, answer, KingReceived, full,
  partial, king_received, with_own, client_receive_or_king_send,
}
use zk_pse.Net.Exchange.Collected.{got}
use zk_pse.Net.Exchange.Received.{message, IsFaithful, king_received-IsFaithful}
use zk_pse.Net.Exchange.Finished.{king_received-completes}
use zk_pse.Net.Exchange.Delivered.{Delivers, client_receive_or_king_send-Delivers}
use zk_pse.Net.Shares.{king_receive_serialized, received_shares, decode_valid, decode}
use zk_pse.Net.Shares.Senders.{IsFrom, pairs_of, king_receive_serialized-IsFrom}

-- Party 1 answers, and the connection to party 2 is lost.
abbrev answers : ℕ → Answer Text
answers zero = err MpcNetError.not_connected
answers (suc zero) = ok (5 ∷ [])
answers (suc (suc k)) = err MpcNetError.not_connected

-- Party 2's task ends first.
abbrev collected : Collection
collected = record { store = (1, 5 ∷ []) ∷ []; waiting = [] }

abbrev without_two : Collection
without_two = record { store = []; waiting = 1 ∷ [] }

reaches : Reaches answers (start_collection 3) collected
unfolding on_answer start_collection clients insert delete contains
reaches =
    answer 1 without_two collected
      (answer 2 (start_collection 3) without_two (start (start_collection 3) refl) refl refl) refl
      refl

king_received-IsFaithful_example :
    (r : KingReceived) × (king_received 3 (7 ∷ []) collected.store ≡ some r)
    × IsFaithful answers 3 (7 ∷ []) collected.waiting r
    × (collected.waiting ≡ []
        → ((id : ℕ) → 1 ≤ id → id < 3 → ¬ (got (answers id) ≡ none))
        → (l : List Text) × (r ≡ full l))
king_received-IsFaithful_example =
    king_received-IsFaithful answers 3 (7 ∷ []) collected (omega arith) reaches

king_received_test :
    king_received 3 (7 ∷ []) collected.store ≡ some (partial ((0, 7 ∷ []) ∷ (1, 5 ∷ []) ∷ []))
unfolding king_received with_own insert get
king_received_test = refl

-- the entries for `left` ids from `j` on
abbrev entries_from : ℕ → ℕ → Map ℕ Text → List (ℕ × Text)
entries_from zero j m = []
entries_from (suc left) j m = elim (get j m) [
  | none ↦ entries_from left (suc j) m
  | some b ↦ (j, b) ∷ entries_from left (suc j) m
]

get-entries_from :
    (left j : ℕ) (m : Map ℕ Text) → All (λ e. get e.0 m ≡ some e.1) (entries_from left j m)
get-entries_from zero j m = tt
get-entries_from (suc left) j m = go (get j m) refl (get-entries_from left (suc j) m)
  where
    go :
        (o : Option Text)
        → get j m ≡ o
        → All (λ e. get e.0 m ≡ some e.1) (entries_from left (suc j) m)
        → All
            (λ e. get e.0 m ≡ some e.1)
            (elim o as (λ x. List (ℕ × Text)) [
              | none ↦ entries_from left (suc j) m
              | some b ↦ (j, b) ∷ entries_from left (suc j) m
            ])
    go none e ih = ih
    go (some b) e ih = (e, ih)

abbrev serialize : Text → Text
serialize t = t

abbrev deserialize : Text → Text ⊎ Text
deserialize b = inl b

abbrev two_shares : ReceivedShares Text
two_shares = record { shares = (7 ∷ []) ∷ (5 ∷ []) ∷ []; parties = 0 ∷ 1 ∷ [] }

two_shares_received :
    king_receive_serialized serialize deserialize (entries_from 3 0) 3 2 (7 ∷ []) collected.store
    ≡ some (ok two_shares)
unfolding king_receive_serialized received_shares decode_valid decode king_received with_own insert
    get
two_shares_received = refl

king_receive_serialized-IsFrom_example :
    All (IsFrom deserialize (message answers (7 ∷ [])) 3) (pairs_of two_shares)
    × (length two_shares.parties ≡ length two_shares.shares)
    × ((length two_shares.shares ≡ 3) ⊎ (2 ≤ length two_shares.shares))
king_receive_serialized-IsFrom_example =
    king_receive_serialized-IsFrom serialize deserialize (entries_from 3 0) (get-entries_from 3 0)
      answers 3 2 (7 ∷ []) collected two_shares (omega arith) reaches two_shares_received

-- The connection to party 2 is lost before its message is sent.
abbrev two_lost : ℕ → Text → Answer {0} Unit
two_lost zero b = ok tt
two_lost (suc zero) b = ok tt
two_lost (suc (suc k)) b = err MpcNetError.not_connected

client_receive_or_king_send-Delivers_example :
    Delivers two_lost 1 ((3 ∷ 4 ∷ []) ∷ (5 ∷ 6 ∷ []) ∷ []) (1 ∷ 2 ∷ []) [] (
      client_receive_or_king_send two_lost 3 0
        (err MpcNetError.not_connected)
        (some ((1 ∷ 2 ∷ []) ∷ (3 ∷ 4 ∷ []) ∷ (5 ∷ 6 ∷ []) ∷ [])))
client_receive_or_king_send-Delivers_example =
    client_receive_or_king_send-Delivers two_lost (err MpcNetError.not_connected) (1 ∷ 2 ∷ [])
      ((3 ∷ 4 ∷ []) ∷ (5 ∷ 6 ∷ []) ∷ []) (refl, (refl, tt))

abbrev good_answers : ℕ → Answer Text
good_answers k = ok (k ∷ [])

-- The second client has answered, the first has not.
abbrev one_stored : Collection
one_stored = record { store = (2, 2 ∷ []) ∷ []; waiting = 1 ∷ [] }

one_reached : Reaches good_answers (start_collection 3) one_stored
unfolding on_answer start_collection clients insert delete contains
one_reached = answer 2 (start_collection 3) one_stored (start (start_collection 3) refl) refl refl

king_received-completes_example :
    (c' : Collection) × (l : List Text) × Reaches good_answers one_stored c'
    × ((id : ℕ) (b : Text) → get id one_stored.store ≡ some b → get id c'.store ≡ some b)
    × (c'.waiting ≡ [])
    × (king_received 3 (7 ∷ []) c'.store ≡ some (full l))
    × IsFaithful good_answers 3 (7 ∷ []) c'.waiting (full l)
king_received-completes_example =
    king_received-completes good_answers 3 (7 ∷ []) one_stored (omega arith) (λ id le lt e. cc e)
      one_reached
