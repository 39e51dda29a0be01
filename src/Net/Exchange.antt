-- ===== src/Net/Exchange.antt =====
-- mpc-net/src/lib.rs: `client_send_or_king_receive` and `client_receive_or_king_send`.
pub mod Collected
pub mod Counted
pub mod Received
pub mod Delivered
pub mod Finished
use zk_pse.Base.{
  ℕ, zero, suc, ◌+◌, ◌-◌, ◌==◌, Bool, true, false, not, if◌then◌else◌, List, [], ◌∷◌, ◌++◌, length,
  get_elem?, Option, none, some, ◌≡◌,
}
use zk_pse.Std.Ord.{nat_ord}
use zk_pse.Std.Map.{Map, Set, get, insert, remove, contains, delete}
use zk_pse.Std.Text.{Text, bytes, decimal}
use zk_pse.Net.{MpcNetError, Answer, ok, err}

-- `ClientSendOrKingReceiveResult`
pub data KingReceived : Type 0 where
  full : List Text → KingReceived
  partial : Map ℕ Text → KingReceived

-- The king's tasks: what is stored, and the clients whose task has not ended.
pub record Collection : Type 0 where
  pub store : Map ℕ Text
  pub waiting : Set ℕ

-- `for id in 1..n_parties`, `left` of them from `id` on
unfoldable pub clients : ℕ → ℕ → List ℕ
clients zero id = []
clients (suc left) id = id ∷ clients left (suc id)

unfoldable pub start_collection : ℕ → Collection
start_collection n_parties = record { store = []; waiting = clients (n_parties - 1) 1 }

-- the task of a client, when `recv_from` returns
unfoldable pub on_answer : ℕ → Answer Text → Collection → Collection
on_answer id (ok bytes_in) c = record {
  store = insert id bytes_in c.store;
  waiting = delete id c.waiting;
}
on_answer id (err e) c = record c { waiting = delete id c.waiting }

-- The tasks end in any order, and the timeout can come after any of them: what the king can have
-- collected by then, from `c0` on, when the clients' channels yield `answers`.
pub data Reaches (answers : ℕ → Answer Text) (c0 : Collection) : Collection → Type 0 where
  start : (c : Collection) → c ≡ c0 → Reaches answers c0 c
  answer :
      (id : ℕ) (c c' : Collection)
      → Reaches answers c0 c
      → contains id c.waiting ≡ true
      → c' ≡ on_answer id (answers id) c
      → Reaches answers c0 c'

-- `for x in 0..n_parties { sorted_ret.push(ret.remove(&x).expect(..)); }`: `none` is the panic.
unfoldable pub remove_sorted : ℕ → ℕ → Map ℕ Text → Option (List Text)
remove_sorted zero x ret = some []
remove_sorted (suc left) x ret =
    let rest = remove_sorted left (suc x) (remove x ret) in
    elim (get x ret) [ none ↦ none | some b ↦ elim rest [ none ↦ none | some bs ↦ some (b ∷ bs) ] ]

-- `ret.entry(0).or_insert_with(|| bytes_out.clone())`
unfoldable pub with_own : Text → Map ℕ Text → Map ℕ Text
with_own bytes_out store = elim (get 0 store) [ none ↦ insert 0 bytes_out store | some _ ↦ store ]

-- the king's part after the timeout
unfoldable pub king_received : ℕ → Text → Map ℕ Text → Option KingReceived
king_received n_parties bytes_out store =
    let ret = with_own bytes_out store in
    if length ret == n_parties
    then elim (remove_sorted n_parties 0 ret) [
      | none ↦ none
      | some sorted_ret ↦ some (full sorted_ret)
    ]
    else some (partial ret)

-- What a call sent, and what it returned. `none` is a panic of an index out of range.
pub record Sent : Type 0 where
  pub messages : List (ℕ × Text)
  pub outcome : Option (Answer Text)

abbrev pub wrong_length : ℕ → Answer Text
wrong_length id =
    err
      (MpcNetError.protocol (bytes "Peer " ++ decimal id ++ bytes " sent wrong number of bytes") id)

-- `for id in (0..n_parties).filter(|p| *p != own_id)`, for the king, whose id is 0; `left` ids from `id` on.
-- `send` is what `send_to` returns.
unfoldable pub send_each :
    (ℕ → Text → Answer {0} Unit) → ℕ → ℕ → ℕ → List Text → List (ℕ × Text) → Sent
send_each send m zero id bytes_out sent = record {
  messages = sent;
  outcome = elim (get_elem? bytes_out 0) [ none ↦ none | some b ↦ some (ok b) ];
}
send_each send m (suc left) id bytes_out sent = elim (get_elem? bytes_out id) [
  | none ↦ record { messages = sent; outcome = none }
  | some b ↦
      if id == 0
      then send_each send m left (suc id) bytes_out sent
      else if length b == m
      then (elim (send id b) [
        | ok _ ↦ send_each send m left (suc id) bytes_out (sent ++ (id, b) ∷ [])
        | err e ↦ record { messages = sent; outcome = some (err e) }
      ])
      else record { messages = sent; outcome = some (wrong_length id) }
]

-- `recv` is what `recv_from(0)` returns.
unfoldable pub client_receive_or_king_send :
    (ℕ → Text → Answer {0} Unit) → ℕ → ℕ → Answer Text → Option (List Text) → Sent
client_receive_or_king_send send n_parties party_id recv (some bytes_out) =
    if party_id == 0
    then elim (get_elem? bytes_out 0) [
      | none ↦ record { messages = []; outcome = none }
      | some first ↦ send_each send (length first) n_parties 0 bytes_out []
    ]
    else record {
      messages = [];
      outcome = some (
          err (MpcNetError.bad_input (bytes "recv_from_king called with bytes_out when not king")));
    }
client_receive_or_king_send send n_parties party_id recv none =
    if party_id == 0
    then record {
      messages = [];
      outcome =
          some (
            err
              (MpcNetError.bad_input (bytes "recv_from_king called with no bytes_out when king")));
    }
    else record { messages = []; outcome = some recv }
