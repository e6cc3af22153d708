-- ===== src/P2p/Known.antt =====
-- Whose notifications are followed.
use touchstone.Base.{
  ℕ, ℤ, ◌≡◌, sym, ap, ◌∙◌, Str, Bytes, str_eq, str_eq_sound, true, Bool-cases, inl, inr, List, [],
  ◌∷◌, All, any, Option, ok, Action, pure, lift, >>=-eq-ok, subst,
}
use touchstone.Interceptor.{Btcec, Metadata, intercept}
use touchstone.Interceptor.Auth.{intercept-IsAuthentic}
use touchstone.Interceptor.Handshake.{PeerConfig, allow_pubkeys_of}
use touchstone.Services.Env.{Env}
use touchstone.Services.Peers.{PeerMap, connect_peer}
use touchstone.Services.Peers.Connect.{has_key, connect_peer-All}
use touchstone.P2p.{notify_txs, empty_data, get_peer_pubkey, peer_handler, serve_peer}

any-has_key :
    {N : Type 0} (peers : PeerMap N) (key : Str) (configs : List PeerConfig)
    → any (λ k. str_eq k key) (allow_pubkeys_of configs) ≡ true
    → All (λ c. has_key peers c.pubkey ≡ true) configs
    → has_key peers key ≡ true
unfolding allow_pubkeys_of
any-has_key peers key [] h all = absurd (cc)
any-has_key {N} peers key (c ∷ cs) h all = elim (Bool-cases (str_eq c.pubkey key)) [
  | inl same ↦ subst (λ k. has_key peers k ≡ true) (str_eq_sound c.pubkey key same) all.0
  | inr other ↦ any-has_key peers key cs (rw other at h) all.1
]

module _ {S : Type 0} (env : Env S) (fuel : ℕ) (btcec : Btcec) where
  -- What a notification that is taken starts is for a configured key.
  notify-allowed :
      (allow_pubkeys : List Str) (now : ℤ) (context : Option Metadata) (txids ids : List Bytes)
      (pubkey : Str) (s : S)
      → (serve_peer env fuel btcec allow_pubkeys now context (notify_txs txids) s).0
        ≡ ok (empty_data ids pubkey)
      → any (λ k. str_eq k pubkey) allow_pubkeys ≡ true
  unfolding serve_peer peer_handler get_peer_pubkey
  notify-allowed allow_pubkeys now context txids ids pubkey s h =
      let (_, passed, h1) =
        >>=-eq-ok (λ _. peer_handler env fuel context (notify_txs txids)) (empty_data ids pubkey)
          (lift (intercept btcec allow_pubkeys now context)) s h in
      let a = intercept-IsAuthentic btcec allow_pubkeys now context passed in
      let found : get_peer_pubkey context ≡ ok a.pubkey_hex =
        ap get_peer_pubkey a.has_metadata ∙ a.has_pubkey in
      let (_, read, h2) =
        >>=-eq-ok (λ k. pure (empty_data txids k)) (empty_data ids pubkey)
          (lift (get_peer_pubkey context)) s h1 in
      let same : a.pubkey_hex ≡ pubkey = cc in
      subst (λ key. any (λ k. str_eq k key) allow_pubkeys ≡ true) same a.allowed

  -- If the server connected its peers without an error, a notification that it answers starts the
  -- fetching from a peer that it has: the peer that was notified for is never missing.
  pub notify-has_key :
      {N : Type 0} (dial : Str → Action S N) (get_peers : S → PeerMap N)
      (set_peers : PeerMap N → S → S) (configs : List PeerConfig) (now : ℤ)
      (context : Option Metadata) (txids ids : List Bytes) (pubkey : Str) (s0 s : S)
      → ((peers : PeerMap N) (s' : S) → get_peers (set_peers peers s') ≡ peers)
      → (connect_peer dial get_peers set_peers configs s0).0 ≡ ok tt
      → get_peers s ≡ get_peers (connect_peer dial get_peers set_peers configs s0).1
      → (serve_peer env fuel btcec (allow_pubkeys_of configs) now context (notify_txs txids) s).0
        ≡ ok (empty_data ids pubkey)
      → has_key (get_peers s) pubkey ≡ true
  notify-has_key {N} dial get_peers set_peers configs now context txids ids pubkey s0 s law done
        same h =
      let connected = connect_peer dial get_peers set_peers configs s0 in
      let all = connect_peer-All dial get_peers set_peers configs s0 law done in
      let known = notify-allowed (allow_pubkeys_of configs) now context txids ids pubkey s h in
      subst (λ m. has_key {N = N} m pubkey ≡ true) (sym same)
        (any-has_key (get_peers connected.1) pubkey configs known all)
