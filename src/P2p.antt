-- ===== src/P2p.antt =====
-- controller/p2p_controller.go: the handlers of the peers' requests.
pub mod Known
use touchstone.Base.{
  ℕ, ℤ, Str, Bytes, codes, List, Option, none, some, Outcome, ok, err, bind, new_error, Action,
  pure, lift, ◌>>=◌,
}
use touchstone.Interceptor.{Btcec, Metadata, header, intercept}
use touchstone.Services.Env.{Env}
use touchstone.Services.Sync.{get_txs}
use touchstone.Services.PartitionHash.{
  get_partitions_hash, get_unconfirm_txids, get_partitions_txids,
}

unfoldable pub get_peer_pubkey : Option Metadata → Outcome Str
get_peer_pubkey none = err (new_error (codes "no header"))
get_peer_pubkey (some md) = header md.pubkey (codes "no pubkey")

-- The calls of the service `P2P`.
pub data PeerRequest : Type 0 where
  notify_txs : List Bytes → PeerRequest
  get_txs_of : List Bytes → PeerRequest
  get_partitions_hash_of : ℤ → ℤ → PeerRequest
  get_unconfirm_txids_of : PeerRequest
  get_txids_by_partitions : List ℤ → PeerRequest

-- Their responses. `NotifyTxs` also starts `NotifiedTxs` in a goroutine, with the ids and the
-- peer's key.
pub data PeerResponse : Type 0 where
  empty_data : List Bytes → Str → PeerResponse
  byte_slices : List Bytes → PeerResponse

module _ {S : Type 0} (env : Env S) (fuel : ℕ) where
  unfoldable pub peer_handler : Option Metadata → PeerRequest → Action S PeerResponse
  unfolding get_peer_pubkey
  peer_handler context (notify_txs txids) = do
    pubkey ← lift (get_peer_pubkey context)
    pure (empty_data txids pubkey)
  peer_handler context (get_txs_of txids) = do txs ← get_txs env fuel txids; pure (byte_slices txs)
  peer_handler context (get_partitions_hash_of offset limit) = do
    hashes ← get_partitions_hash env offset limit
    pure (byte_slices hashes)
  peer_handler context get_unconfirm_txids_of = do
    txids ← get_unconfirm_txids env
    pure (byte_slices txids)
  peer_handler context (get_txids_by_partitions partitions) = do
    txids ← get_partitions_txids env partitions
    pure (byte_slices txids)

  -- A request as the gRPC server runs it, with the interceptor that `StartP2pServer` gives it.
  unfoldable pub serve_peer :
      Btcec → List Str → ℤ → Option Metadata → PeerRequest → Action S PeerResponse
  unfolding peer_handler
  serve_peer btcec allow_pubkeys now context request =
      lift (intercept btcec allow_pubkeys now context) >>= λ _. peer_handler context request
