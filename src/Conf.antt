-- ===== src/Conf.antt =====
-- conf/config.go: what the environment's name sets.
use touchstone.Base.{ℤ, pos, Str, codes, str_eq, ◌++◌, Outcome, ok, err, new_error, if◌then◌else◌}

abbrev pub regtest_start_height : ℤ
regtest_start_height = pos 0

abbrev pub mainnet_start_height : ℤ
mainnet_start_height = pos 650000

-- `chaincfg.Params`, by name.
pub data NetParam : Type 0 where
  regression_net_params main_net_params : NetParam

-- `InitGConfig`: the start height and the network that it sets.
unfoldable pub init_g_config : Str → Outcome (ℤ × NetParam)
init_g_config env =
    if str_eq env (codes "regtest")
    then ok (regtest_start_height, regression_net_params)
    else if str_eq env (codes "mainnet")
    then ok (mainnet_start_height, main_net_params)
    else err (new_error (codes "not support env " ++ env))
