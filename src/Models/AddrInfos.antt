-- ===== src/Models/AddrInfos.antt =====
-- models/addr_info.go: which user an address belongs to.
use touchstone.Base.{ℤ, Str, str_eq, Action, pure, fail, handle, if◌then◌else◌}
use touchstone.Models.Collection.{Collection, is_duplicate}

pub record AddrInfo : Type 0 where
  pub appid : Str
  pub user_id : ℤ
  pub user_index : ℤ
  pub addr : Str
  pub timestamp : ℤ

module _ {S : Type 0} (col : Collection S AddrInfo) where
  open col use {insert, get_one, update_all}

  unfoldable pub add_or_update_addr_info : AddrInfo → Action S (Unit {0})
  add_or_update_addr_info info = handle (insert info) pure (λ e.
      if is_duplicate e
      then update_all (λ a. str_eq a.addr info.addr)
          (λ a. record a {
            appid = info.appid;
            user_id = info.user_id;
            user_index = info.user_index;
            timestamp = info.timestamp;
          })
      else fail e)

  unfoldable pub get_addr_info : Str → Action S AddrInfo
  get_addr_info addr = get_one (λ a. str_eq a.addr addr)
