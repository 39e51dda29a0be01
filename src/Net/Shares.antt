-- ===== src/Net/Shares.antt =====
-- mpc-net/src/ser_net.rs: the exchange of serialised values. `serialize_compressed` and
-- `deserialize_compressed` are ark-serialize's, the latter with the text of its error.
pub mod Senders
use zk_pse.Base.{
  ℕ, zero, suc, ◌+◌, ltb, Bool, true, false, if◌then◌else◌, List, [], ◌∷◌, ◌++◌, map, length,
  Option, none, some, ◌⊎◌, inl, inr,
}
use zk_pse.Std.Map.{Map}
use zk_pse.Std.Text.{Text, bytes, decimal}
use zk_pse.Dist.Degree.{ReceivedShares}
use zk_pse.Net.{MpcNetError, Answer, ok, err}
use zk_pse.Net.Exchange.{
  KingReceived, full, partial, king_received, clients, Sent, client_receive_or_king_send,
}

module _ {ℓ} {T : Type ℓ} (serialize : T → Text) (deserialize : Text → T ⊎ Text) where
  -- `deserialize_compressed(..).map_err(|err| MpcNetError::Generic(err.to_string()))`
  unfoldable pub decode : Text → Answer T
  decode b = elim (deserialize b) [ inl t ↦ ok t | inr e ↦ err (MpcNetError.generic e) ]

  -- `for result in results { ret.push(result?); }`
  unfoldable pub decode_all : List Text → Answer (List T)
  decode_all [] = ok []
  decode_all (b ∷ bytes_in) =
      let rest = decode_all bytes_in in
      elim (decode b) [ err e ↦ err e | ok t ↦ elim rest [ err e ↦ err e | ok ts ↦ ok (t ∷ ts) ] ]

  -- the `filter_map` over the results of some parties
  unfoldable pub decode_valid : List (ℕ × Text) → List (ℕ × T)
  decode_valid [] = []
  decode_valid ((id, b) ∷ received) =
      let rest = decode_valid received in elim (decode b) [ err e ↦ rest | ok t ↦ (id, t) ∷ rest ]

  -- what the king makes of the result; `into_iter` is the order in which the `HashMap` yields its entries
  unfoldable pub received_shares :
      (Map ℕ Text → List (ℕ × Text)) → ℕ → ℕ → KingReceived → Answer (ReceivedShares T)
  received_shares into_iter n_parties threshold (full bytes_in) = elim (decode_all bytes_in) [
    | err e ↦ err e
    | ok ret ↦ ok (record { shares = ret; parties = clients n_parties 0 })
  ]
  received_shares into_iter n_parties threshold (partial received_results) =
      let results = decode_valid (into_iter received_results) in
      if ltb (length results) threshold
      then err (
          MpcNetError.protocol
            (bytes "Timeout: only " ++ decimal (length results) ++ bytes " responses received") 0)
      else ok (record { shares = map (λ r. r.1) results; parties = map (λ r. r.0) results })

  -- the king's part of `client_send_or_king_receive_serialized`, with `store` collected at the timeout
  unfoldable pub king_receive_serialized :
      (Map ℕ Text → List (ℕ × Text)) → ℕ → ℕ → T → Map ℕ Text → Option (Answer (ReceivedShares T))
  king_receive_serialized into_iter n_parties threshold own store =
      elim (king_received n_parties (serialize own) store) [
        | none ↦ none
        | some r ↦ some (received_shares into_iter n_parties threshold r)
      ]

  -- `client_receive_or_king_send_serialized`: what was sent, and the value received
  unfoldable pub client_receive_or_king_send_serialized :
      (ℕ → Text → Answer {0} Unit)
      → ℕ
      → ℕ
      → Answer Text
      → Option (List T)
      → List (ℕ × Text) × Option (Answer T)
  client_receive_or_king_send_serialized send n_parties party_id recv out =
      let sent =
        client_receive_or_king_send send n_parties party_id recv
          (elim out [ none ↦ none | some outs ↦ some (map serialize outs) ]) in
      (
        sent.messages,
        elim sent.outcome [
          | none ↦ none
          | some (err e) ↦ some (err e)
          | some (ok bytes_in) ↦ some (decode bytes_in)
        ],
      )
