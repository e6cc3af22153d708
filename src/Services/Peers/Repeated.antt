-- ===== src/Services/Peers/Repeated.antt =====
-- Configurations with the same key.
use touchstone.Base.{
  ℕ, zero, suc, ◌≡◌, ◌≢◌, Str, true, List, ok, Action, pure, handle-eq-ok, inl, inr,
}
use touchstone.Interceptor.Handshake.{PeerConfig}
use touchstone.Services.Peers.{PeerMap, connect_peer, connect_peer_loop}
use touchstone.Services.Peers.Connect.{repeats, connect_peer-once}

-- Where two configurations have the same key, the loop that connects the peers never comes to its
-- end without an error, however many rounds it is given and whichever peers answer.
pub connect_peer_loop-repeats :
    {S N : Type 0} (dial : Str → Action S N) (get_peers : S → PeerMap N)
    (set_peers : PeerMap N → S → S) (f : ℕ) (configs : List PeerConfig) (s : S)
    → repeats configs ≡ true
    → (connect_peer_loop dial get_peers set_peers f configs s).0 ≢ ok tt
unfolding connect_peer_loop
connect_peer_loop-repeats dial get_peers set_peers zero configs s twice h = cc
connect_peer_loop-repeats dial get_peers set_peers (suc f) configs s twice h =
    elim (handle-eq-ok pure tt (connect_peer dial get_peers set_peers configs)
      (λ _. connect_peer_loop dial get_peers set_peers f configs) s h) [
        | inl (_, done, _) ↦
            let once = connect_peer-once dial get_peers set_peers configs s done in cc
        | inr (_, _, more) ↦
            connect_peer_loop-repeats dial get_peers set_peers f configs
              (connect_peer dial get_peers set_peers configs s).1 twice more
      ]
