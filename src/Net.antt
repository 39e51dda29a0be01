-- ===== src/Net.antt =====
-- mpc-net/src: the exchange between the clients and the king. The transport (`recv_from` and
-- `send_to` of multi.rs and prod.rs) is sockets: what it yields is a parameter.
pub mod Exchange
pub mod Shares
use zk_pse.Base.{ℕ}
use zk_pse.Std.Text.{Text}

pub data MpcNetError : Type 0 where
  generic : Text → MpcNetError
  protocol : Text → ℕ → MpcNetError
  not_connected : MpcNetError
  bad_input : Text → MpcNetError

-- `std::result::Result`
pub data Answer {ℓ} (A : Type ℓ) : Type ℓ where
  ok : A → Answer A
  err : MpcNetError → Answer A
