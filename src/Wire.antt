-- ===== src/Wire.antt =====
-- The transactions of `btcsuite/btcd/wire` as far as the program reads them, and the functions of
-- the Bitcoin libraries that it calls. The libraries are not part of the repository, so their
-- functions are the fields of a record which the modules that call them take as a parameter.
use touchstone.Base.{ℕ, ℤ, Str, Bytes, List, Outcome}

-- `wire.TxIn`: the previous output's transaction (as its id in hexadecimal) and index, and the
-- unlocking script.
pub record TxIn : Type 0 where
  pub prev_hash : Str
  pub prev_index : ℕ
  pub signature_script : Bytes

-- `wire.TxOut`
pub record TxOut : Type 0 where
  pub value : ℤ
  pub pk_script : Bytes

-- `wire.MsgTx`
pub record MsgTx : Type 0 where
  pub version : ℕ
  pub tx_in : List TxIn
  pub tx_out : List TxOut
  pub lock_time : ℕ

-- `MsgTx.TxHash().String()`, `Serialize`, `Deserialize`.
pub record Wire : Type 0 where
  pub tx_hash : MsgTx → Str
  pub serialize : MsgTx → Bytes
  pub deserialize : Bytes → Outcome MsgTx
