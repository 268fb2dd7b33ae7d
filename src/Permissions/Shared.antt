-- ===== src/Permissions/Shared.antt =====
-- The functions of packages/openterms-py/openterms/permissions/client.py itself, which call one client
-- that the module keeps.
use openterms.Prelude.{String, Option}
use openterms.Prelude.Int.{ℤ}
use openterms.Python.{Fields, Result}
use openterms.Permissions.Models.{
  PermissionDecision, CheckResult, DiscoveryResult, PermissionReceipt,
}
use openterms.Permissions.Network.{Outside, Client, World, new_client}
use openterms.Permissions.Client.{fetch, check, discover, permission_receipt, clear_cache}

-- `_default_client`, with the world it acts on
pub record Module : Type 0 where
  pub default_client : Client
  pub world : World

-- the module with what a call returned behind it
unfoldable pub keep : {A : Type 0} → Client → A × World → A × Module
keep client (x, w) = (x, record { default_client = client; world = w })

unfoldable pub configure : ℤ → Option String → Module → Module
unfolding new_client
configure default_ttl registry_url m = record {
  default_client = new_client default_ttl registry_url;
  world = m.world;
}

-- `fetch` of the module
unfoldable pub fetch_default : Outside → String → Module → Option Fields × Module
unfolding keep fetch
fetch_default outside domain m =
    keep m.default_client (fetch outside m.default_client domain m.world)

unfoldable pub check_default : Outside → String → String → Module → Result CheckResult × Module
unfolding keep check
check_default outside domain action m =
    keep m.default_client (check outside m.default_client domain action m.world)

unfoldable pub discover_default :
    Outside → String → Module → Result (Option DiscoveryResult) × Module
unfolding keep discover
discover_default outside domain m =
    keep m.default_client (discover outside m.default_client domain m.world)

unfoldable pub permission_receipt_default :
    Outside → String → String → PermissionDecision → Module → PermissionReceipt × Module
unfolding keep permission_receipt
permission_receipt_default outside domain action decision m =
    keep m.default_client (permission_receipt outside domain action decision m.world)

unfoldable pub clear_cache_default : Outside → Option String → Module → Module
unfolding clear_cache
clear_cache_default outside domain m = record {
  default_client = m.default_client;
  world = clear_cache outside domain m.world;
}
