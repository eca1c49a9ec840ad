-- ===== src/Inbound.antt =====
-- proxy/reflex/inbound/inbound.go: the accounts and the configuration of the inbound handler.
pub mod Detect
pub mod Handshake
pub mod HttpRequest
pub mod Server
pub mod Fallback
pub mod Process
pub mod Routing
pub mod Client
use reflex_network_project.Prelude.{
  ℕ, Bool, true, false, Option, none, some, List, [], ◌∷◌, map, same, if◌then◌else◌,
}
use reflex_network_project.Morph.{TrafficProfile}

-- `protocol.Account` has other implementations; they are `other`, by their number.
pub data Account : Type 0 where
  reflex_account : List ℕ → Account
  other : ℕ → Account

-- `MemoryAccount.Equals`, of the account with this id.
unfoldable pub equals : List ℕ → Account → Bool
equals id (reflex_account id') = same id id'
equals id (other n) = false

pub record MemoryUser : Type 0 where
  pub email : List ℕ
  pub account : Account

-- `reflex.InboundConfig`: the ids of its clients, and the fallback's port.
pub record InboundConfig : Type 0 where
  pub clients : List (List ℕ)
  pub fallback : Option ℕ

pub record Handler (W : Type 0) : Type 0 where
  pub clients : List MemoryUser
  pub fallback : Option ℕ
  pub default_profile : Option (TrafficProfile W)

unfoldable pub new_user : List ℕ → MemoryUser
new_user id = record { email = id; account = reflex_account id }

-- The profile is what `reflex.Profiles` holds for "http2-api".
unfoldable pub new_handler : {W : Type 0} → InboundConfig → Option (TrafficProfile W) → Handler W
new_handler config profile = record {
  clients = map new_user config.clients;
  fallback = config.fallback;
  default_profile = profile;
}

-- `authenticateUser`, of the user's id as text: the first client with that id.
unfoldable pub authenticate_user : List MemoryUser → List ℕ → Option MemoryUser
authenticate_user [] id = none
authenticate_user (u ∷ us) id = elim u.account [
  | reflex_account id' ↦ (if same id' id then some u else authenticate_user us id)
  | other n ↦ authenticate_user us id
]
