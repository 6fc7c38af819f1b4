-- ===== src/Marketplace.antt =====
-- internal/marketplace: service_catalog.go, and `CreateHTLCSecret` of escrow_manager.go. The transactions
-- that the manager builds are in Core.Payments. `strings.ToLower` is an argument.
pub mod Search
mod Tests
use go_blockchain.Prelude.{
  Bool, true, false, ◌&&◌, ◌||◌, not, List, [], ◌∷◌, Option, none, some, if◌then◌else◌, ◌==◌, ℤ,
  pos, ltb_ℤ, Bytes, bytes_equal, length,
}
use go_blockchain.Core.External.{Crypto}
use go_blockchain.Indexer.{IndexStore, AgentService, list_services, get_service}

pub record SearchFilter : Type 0 where
  pub query : Bytes
  pub max_price : ℤ
  pub agent_address : Bytes

-- `strings.Contains`
unfoldable pub has_prefix : Bytes → Bytes → Bool
has_prefix [] s = true
has_prefix (a ∷ sub) [] = false
has_prefix (a ∷ sub) (b ∷ s) = a == b && has_prefix sub s

unfoldable pub contains : Bytes → Bytes → Bool
contains [] sub = has_prefix sub []
contains (b ∷ s) sub = has_prefix sub (b ∷ s) || contains s sub

module _ (to_lower : Bytes → Bytes) where
  -- The tests of one service, up to the one that passes it over.
  unfoldable pub is_match : SearchFilter → AgentService → Bool
  is_match filter srv =
      let query = to_lower filter.query in
      if ltb_ℤ (pos 0) filter.max_price && ltb_ℤ filter.max_price srv.price_per_call
      then false
      else if not (length filter.agent_address == 0)
          && not (bytes_equal srv.agent_address filter.agent_address)
      then false
      else if not (length query == 0)
          && (not (contains (to_lower srv.name) query)
              && not (contains (to_lower srv.description) query))
      then false
      else true

  -- The loop over the services.
  unfoldable pub search_among : SearchFilter → List AgentService → List AgentService
  search_among filter [] = []
  search_among filter (srv ∷ rest) =
      let found = search_among filter rest in if is_match filter srv then srv ∷ found else found

  unfoldable pub search : SearchFilter → IndexStore → List AgentService
  search filter store = search_among filter (list_services store)

unfoldable pub get_service_by_id : Bytes → IndexStore → Option AgentService
get_service_by_id id store = get_service id store

-- `CreateHTLCSecret`, on the 32 random bytes, if they can be drawn.
unfoldable pub create_htlc_secret : Crypto → Option Bytes → Option (Bytes × Bytes)
create_htlc_secret c none = none
create_htlc_secret c (some preimage) = some (preimage, c.sha256 preimage)
