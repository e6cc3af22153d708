-- ===== src/Services/Loops.antt =====
-- What runs beside the requests: `Init`, and the loops that it starts as goroutines.
use touchstone.Base.{
  ℕ, zero, suc, Str, Bytes, true, List, [], ◌∷◌, hang, Action, pure, lift, handle, ◌>>=◌,
}
use touchstone.Services.Env.{Env}
use touchstone.Services.Peers.{PeerMap, connect_peer, set_private_key}
use touchstone.Services.Sync.Rounds.{sync_state}
use touchstone.Services.Chain.{check_tx_state, set_spent}
use touchstone.Interceptor.Handshake.{PeerConfig}

-- The methods that `Init` runs in goroutines of their own.
pub data Goroutine : Type 0 where
  connecting : List PeerConfig → Goroutine
  syncing checking spending : Goroutine

-- The three loops call one method, log its error and wait, without an end. The rounds that are
-- looked at are given; a panic ends the program.
unfoldable pub repeat_call : {S : Type 0} → ℕ → Action S (Unit {0}) → Action S (Unit {0})
repeat_call zero call s = (hang, s)
repeat_call (suc n) call s = handle call (λ _. repeat_call n call) (λ _. repeat_call n call) s

module _ {S : Type 0} (env : Env S) (fuel : ℕ) where
  unfoldable pub sync_state_loop : ℕ → Action S (Unit {0})
  unfolding repeat_call
  sync_state_loop rounds = repeat_call rounds (sync_state env fuel true)

  unfoldable pub check_tx_state_loop : ℕ → Action S (Unit {0})
  unfolding repeat_call
  check_tx_state_loop rounds = repeat_call rounds (check_tx_state env)

  unfoldable pub set_spent_loop : ℕ → Action S (Unit {0})
  unfolding repeat_call
  set_spent_loop rounds = repeat_call rounds (set_spent env)

-- Over the fields `peers` and `privateKey` of the server.
module _ {S N K : Type 0} (dial : Str → Action S N) (get_peers : S → PeerMap N)
    (set_peers : PeerMap N → S → S) (from_bytes : Bytes → K) (set_key : K → S → S) where
  -- `Init`, with the goroutines that it has started.
  unfoldable pub init : List PeerConfig → Str → Action S (List Goroutine)
  init configs private_key_hex =
      let loops = syncing ∷ checking ∷ spending ∷ [] in
      lift (set_private_key from_bytes private_key_hex) >>= λ key s.
      handle (connect_peer dial get_peers set_peers configs) (λ _. pure loops)
        (λ _. pure (connecting configs ∷ loops)) (set_key key s)
