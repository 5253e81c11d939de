-- ===== src/Tests/Mints.antt =====
-- The theorems about mints at concrete probes.
use tollgate_module_basic_go.Prelude.{◌≡◌, true, false, [], ◌∷◌, All, is_nil, ◌⊎◌}
use tollgate_module_basic_go.MintHealth.{
  MintState, MintHealthTracker, new_mint, mint_state, not_throttled, get_reachable_mint_configs,
  get_advertised_mint_configs,
}
use tollgate_module_basic_go.MintHealth.Advertised.{get_advertised_mint_configs_lem}
use tollgate_module_basic_go.Tests.{mint, mint_url}

abbrev up : MintState
up = record new_mint { is_reachable = true }

abbrev tracker : MintHealthTracker
tracker = record {
  mints = (mint_url, up) ∷ [];
  recovery_threshold = 3;
  failure_threshold = 3;
  persistent_throttle_probes = 5;
  has_on_first = true;
  has_on_changed = true;
  had_reachable_mint = true;
  reachable_count = 1;
  first_calls = 0;
  changed_calls = 0;
}

get_advertised_mint_configs_lem_example :
    let offered = get_advertised_mint_configs (mint ∷ []) tracker in
    let reachable = get_reachable_mint_configs (mint ∷ []) tracker in
    All (λ m. (mint_state m.url tracker).is_reachable ≡ true) offered
    × (is_nil offered ≡ is_nil reachable)
    × (All (λ m. (mint_state m.url tracker).is_throttled ≡ false) offered
        ⊎ ((not_throttled tracker reachable ≡ []) × (offered ≡ reachable)))
get_advertised_mint_configs_lem_example = get_advertised_mint_configs_lem (mint ∷ []) tracker
