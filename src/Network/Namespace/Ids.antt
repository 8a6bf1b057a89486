-- ===== src/Network/Namespace/Ids.antt =====
-- The ids of the namespaces of pkg/network/namespace.go.
use drafter.Base.{List, [], ◌∷◌, String, ◌≡◌, refl}
use drafter.Script.{Log, Oracle, run_script}
use drafter.Network.Namespace.{
  Namespace, NamespaceConfig, NetCall, Parsed, default_address, external_addr, assign, get_id,
  new_namespace, open_namespace, open_steps,
}

pub get_id-new_namespace :
    (id : String) (conf : NamespaceConfig) → get_id (new_namespace id conf) ≡ id
unfolding new_namespace
get_id-new_namespace id conf = refl

get_id-assign : (ms : List Parsed) (n : Namespace) → get_id (assign ms n) ≡ get_id n
get_id-assign [] n = refl
get_id-assign (default_address set ∷ ms) n = get_id-assign ms n
get_id-assign (external_addr set ∷ ms) n = get_id-assign ms n

pub get_id-open_namespace :
    (reply : Oracle NetCall) (n : Namespace) (log : Log NetCall)
    → get_id (open_namespace reply n log).1 ≡ get_id n
unfolding open_namespace
get_id-open_namespace reply n log = get_id-assign (run_script reply (open_steps n) log).marks n
