-- ===== src/Tests/Peers.antt =====
-- Peers: connections to them and their notifications.
use touchstone.Base.{
  ℕ, ◌≡◌, ◌≢◌, refl, pos, Bytes, Str, codes, str_eq, true, List, [], ◌∷◌, All, some, ok, Action,
  length, ◌-64◌, ◌-ℤ◌, to_int64,
}
use touchstone.Util.Hex.{decode_string}
use touchstone.Interceptor.{Btcec, Metadata, intercept, verify_timestamp_sig}
use touchstone.Interceptor.Handshake.{PeerConfig, allow_pubkeys_of}
use touchstone.Services.Peers.{
  PeerMap, lookup, put, connect_all, set_and_compare, connect_peer, connect_peer_loop,
  set_private_key,
}
use touchstone.Services.Peers.Connect.{has_key, connect_peer-All}
use touchstone.Services.Peers.Repeated.{connect_peer_loop-repeats}
use touchstone.Services.Loops.{init, connecting, syncing, checking, spending}
use touchstone.P2p.{get_peer_pubkey, peer_handler, serve_peer}
use touchstone.P2p.Known.{notify-has_key}
use touchstone.Tests.Store.{test_env}

-- A peer is the length of its host.
abbrev dial : Str → Action (PeerMap ℕ) ℕ
dial host s = (ok (length host), s)

abbrev get_peers : PeerMap ℕ → PeerMap ℕ
get_peers s = s

abbrev set_peers : PeerMap ℕ → PeerMap ℕ → PeerMap ℕ
set_peers peers s = peers

abbrev peer : Str → Str → PeerConfig
peer host pubkey = record { host = host; pubkey = pubkey }

abbrev two_peers : List PeerConfig
two_peers = peer (codes "a:1") (codes "02ab") ∷ peer (codes "b:1") (codes "02cd") ∷ []

connect_peer-All_example :
    All
      (λ c.
        has_key (get_peers (connect_peer dial get_peers set_peers two_peers []).1) c.pubkey ≡ true)
      two_peers
unfolding connect_peer connect_all set_and_compare lookup put str_eq
connect_peer-All_example =
    connect_peer-All dial get_peers set_peers two_peers [] (λ peers s. refl) refl

abbrev same_key : List PeerConfig
same_key = peer (codes "a:1") (codes "02ab") ∷ peer (codes "b:1") (codes "02ab") ∷ []

connect_peer_loop-repeats_example :
    (connect_peer_loop dial get_peers set_peers 5 same_key []).0 ≢ ok tt
unfolding str_eq
connect_peer_loop-repeats_example =
    connect_peer_loop-repeats dial get_peers set_peers 5 same_key [] refl

abbrev ec : Btcec
ec = record {
  PublicKey = Bytes;
  Signature = Bytes;
  parse_pub_key = λ bytes. ok bytes;
  parse_signature = λ bytes. ok bytes;
  verify = λ sig bytes key. str_eq sig key;
  parse_int = λ text. ok (pos 1600000000);
}

abbrev headers : Metadata
headers = record {
  pubkey = some (codes "02cd" ∷ []);
  signature = some (codes "02cd" ∷ []);
  timestamp = some (codes "1600000000" ∷ []);
}

abbrev connected : PeerMap ℕ
connected = (codes "02ab", 3) ∷ (codes "02cd", 3) ∷ []

notify-has_key_example : has_key connected (codes "02cd") ≡ true
unfolding connect_peer connect_all set_and_compare lookup put str_eq serve_peer peer_handler
    get_peer_pubkey intercept verify_timestamp_sig allow_pubkeys_of decode_string ◌-64◌ ◌-ℤ◌
    to_int64
notify-has_key_example =
    notify-has_key (test_env [] []) 3 ec dial get_peers set_peers two_peers (pos 1600000005)
      (some headers) ((1 ∷ []) ∷ []) ((1 ∷ []) ∷ []) (codes "02cd") [] connected (λ peers s. refl)
      refl refl refl

-- With the same key twice the peers are connected again and again beside the other loops.
init_run :
    (init dial get_peers set_peers (λ bytes. bytes) (λ key s. s) same_key (codes "01") []).0
    ≡ ok (connecting same_key ∷ syncing ∷ checking ∷ spending ∷ [])
unfolding init set_private_key decode_string connect_peer connect_all set_and_compare lookup put
    str_eq
init_run = refl
