-- ===== src/Start.antt =====
-- The start of the program: `main` in main.go.
use touchstone.Base.{Str, Bytes, List, Outcome, ok, hang, Action, pure, crash, lift, handle, ◌>>=◌}
use touchstone.Conf.{init_g_config}
use touchstone.Models.Mongo.{Driver, new_db}
use touchstone.Models.Indexs.{
  Index, create_tx_point_index, create_raw_tx_info_index, create_partition_info_index,
  create_addr_info_index,
}
use touchstone.Interceptor.Handshake.{PeerConfig}
use touchstone.Mapi.Mempool.{KeyChain, new_mempool_mapi_client}
use touchstone.Services.Loops.{Goroutine}

-- `conf.Config`
pub record Config : Type 0 where
  pub env : Str
  pub mongo_host : Str
  pub mempool_host : Str
  pub mempool_pki_mnemonic : Str
  pub mempool_pki_mnemonic_password : Str
  pub server_privatekey : Str
  pub peers_configs : List PeerConfig
  pub p2p_host : Str
  pub http_host : Str
  pub db_name : Str

-- The servers that `main` runs in goroutines of their own.
pub data Service : Type 0 where
  p2p_server : Str → List PeerConfig → Service
  http_server : Str → Service

-- `panic(err)`, once the error is logged.
abbrev pub must : {S A : Type 0} → Action S A → Action S A
must m = handle m pure (λ e. crash)

-- What `main` uses of the system: files, JSON, and the start of a goroutine.
pub record System (S : Type 0) : Type 0 where
  pub read_file : Str → Action S Bytes
  pub unmarshal : Bytes → Outcome Config
  pub go : Service → S → S

module _ {S Sess : Type 0} (system : System S) (driver : Driver S Sess) (chain : KeyChain)
    (ensure_index : Str → Sess → Index → Action S (Unit {0}))
    (init : List PeerConfig → Str → Action S (List Goroutine)) where
  open system use {read_file, unmarshal, go}

  abbrev started : Service → Action S (Unit {0})
  started service s = (ok tt, go service s)

  -- The four calls of `CreateIndex`.
  unfoldable pub create_indexs : Str → Action S (Unit {0})
  unfolding create_tx_point_index create_raw_tx_info_index create_partition_info_index
      create_addr_info_index
  create_indexs host = do
    _ ← must (create_raw_tx_info_index driver host ensure_index)
    _ ← must (create_tx_point_index driver host ensure_index)
    _ ← must (create_partition_info_index driver host ensure_index)
    must (create_addr_info_index driver host ensure_index)

  -- From the configuration on. The last loop only logs the time, every hour.
  unfoldable pub run_with : Config → Action S (Unit {0})
  unfolding create_indexs
  run_with config = do
    _ ← must (lift (init_g_config config.env))
    _ ← must (new_db driver config.mongo_host)
    _ ← create_indexs config.mongo_host
    mapi_client ← must (
        lift (
          new_mempool_mapi_client chain config.mempool_host config.mempool_pki_mnemonic
            config.mempool_pki_mnemonic_password))
    _ ← started (p2p_server config.p2p_host config.peers_configs)
    _ ← started (http_server config.http_host)
    goroutines ← must (init config.peers_configs config.server_privatekey)
    λ s. (hang, s)

  unfoldable pub main : Str → Action S (Unit {0})
  unfolding run_with
  main config_file_path = do
    config_json ← must (read_file config_file_path)
    config ← must (lift (unmarshal config_json))
    run_with config
