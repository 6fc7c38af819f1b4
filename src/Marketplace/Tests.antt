-- ===== src/Marketplace/Tests.antt =====
-- A search in a concrete store.
use go_blockchain.Prelude.{◌≡◌, refl, ◌↔◌, true, [], ◌∷◌, pos, Bytes, bytes_equal, codes}
use go_blockchain.Indexer.{IndexStore, AgentService, new_index_store, list_services, active_in}
use go_blockchain.Marketplace.{SearchFilter, has_prefix, contains, is_match, search_among, search}
use go_blockchain.Marketplace.Search.{IsAmong, Matches, search_iff}

abbrev service : Bytes → Bytes → AgentService
service id name = record {
  service_id = id;
  agent_address = codes "alice";
  name = name;
  description = codes "an agent";
  endpoint_url = [];
  price_per_call = pos 5;
  registered_at = pos 1;
  active = true;
}

abbrev store : IndexStore
store = record new_index_store {
  services =
      (codes "1", service (codes "1") (codes "translate"))
      ∷ (codes "2", service (codes "2") (codes "summarize"))
      ∷ [];
}

abbrev filter : SearchFilter
filter = record { query = codes "late"; max_price = pos 5; agent_address = [] }

found : search (λ t. t) filter store ≡ service (codes "1") (codes "translate") ∷ []
unfolding search search_among is_match contains has_prefix list_services active_in bytes_equal
found = refl

search_iff_example :
    IsAmong (service (codes "1") (codes "translate")) (search (λ t. t) filter store) ↔ (
      IsAmong (service (codes "1") (codes "translate")) (list_services store)
      × Matches (λ t. t) filter (service (codes "1") (codes "translate")))
search_iff_example = search_iff (λ t. t) filter store (service (codes "1") (codes "translate"))
