-- ===== src/Services/Peers.antt =====
-- The peers of the server: `ConnectPeer` and its loop, `NotifiedTxs` and `SetPrivateKey`.
pub mod Connect
pub mod Repeated
use touchstone.Base.{
  ℕ, zero, suc, Str, Bytes, codes, str_eq, Bool, List, [], ◌∷◌, Option, none, some, is_some,
  Outcome, ok, err, hang, bind, new_error, Error, Action, pure, fail, lift, handle, ◌>>=◌, length,
  ◌==◌, if◌then◌else◌,
}
use touchstone.Services.Env.{Env, Peer}
use touchstone.Services.PartitionHash.{decode_hex}
use touchstone.Services.Sync.{sync_txs, node_get_tx_bytes}
use touchstone.Interceptor.Handshake.{PeerConfig}

-- `map[string]*Node`: each key with its value, once.
abbrev pub PeerMap : Type 0 → Type 0
PeerMap N = List (Str × N)

module _ {N : Type 0} where
  -- `peer, ok := peers[key]`
  unfoldable pub lookup : Str → PeerMap N → Option N
  lookup key [] = none
  lookup key ((k, n) ∷ rest) = let later = lookup key rest in if str_eq k key then some n else later

  -- `peers[key] = peer`
  unfoldable pub put : Str → N → PeerMap N → PeerMap N
  put key n [] = (key, n) ∷ []
  put key n ((k, n') ∷ rest) =
      let later = put key n rest in if str_eq k key then (key, n) ∷ rest else (k, n') ∷ later

-- Over `grpc.Dial(host, …)` with `NewP2PClient`.
module _ {S N : Type 0} (dial : Str → Action S N) where
  -- The loop over the configured peers: those that are connected are kept, and those that do not
  -- answer are passed over.
  unfoldable pub connect_all : PeerMap N → List PeerConfig → PeerMap N → Action S (PeerMap N)
  unfolding lookup put
  connect_all old [] peers = pure peers
  connect_all old (c ∷ cs) peers = elim (lookup c.pubkey old) [
    | some peer ↦ connect_all old cs (put c.pubkey peer peers)
    | none ↦
        handle (dial c.host) (λ peer. connect_all old cs (put c.pubkey peer peers))
          (λ e. connect_all old cs peers)
  ]

-- `this.peers = peers`, and the result.
module _ {S N : Type 0} (set_peers : PeerMap N → S → S) where
  unfoldable pub set_and_compare : List PeerConfig → PeerMap N → Action S (Unit {0})
  set_and_compare configs peers s = (
    if length peers == length configs
        then ok tt
        else err (new_error (codes "still have connect failed")),
    set_peers peers s,
  )

-- With the field `peers` of the server.
module _ {S N : Type 0} (dial : Str → Action S N) (get_peers : S → PeerMap N)
    (set_peers : PeerMap N → S → S) where
  unfoldable pub connect_peer : List PeerConfig → Action S (Unit {0})
  unfolding connect_all set_and_compare
  connect_peer configs s =
      ◌>>=◌ (connect_all dial (get_peers s) configs []) (set_and_compare set_peers configs) s

  -- The rounds of the loop, with a minute between them.
  unfoldable pub connect_peer_loop : ℕ → List PeerConfig → Action S (Unit {0})
  unfolding connect_peer
  connect_peer_loop zero configs s = (hang, s)
  connect_peer_loop (suc f) configs s =
      handle (connect_peer configs) pure (λ _. connect_peer_loop f configs) s

-- `SetPrivateKey`, where `from_bytes` is the first result of `btcec.PrivKeyFromBytes`.
unfoldable pub set_private_key : {K : Type 0} → (Bytes → K) → Str → Outcome K
set_private_key from_bytes hex = bind (decode_hex hex) λ bytes. ok (from_bytes bytes)

-- `NotifiedTxs`, whose errors go to the log.
module _ {S : Type 0} (env : Env S) (fuel : ℕ) where
  unfoldable pub notified_txs : PeerMap (Peer S) → List Bytes → Str → Action S (Unit {0})
  unfolding lookup
  notified_txs peers txids peer_pubkey = elim (lookup peer_pubkey peers) [
    | none ↦ pure tt
    | some peer ↦
        handle (sync_txs env fuel txids (node_get_tx_bytes peer)) (λ _. pure tt) (λ _. pure tt)
  ]
