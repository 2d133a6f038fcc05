-- ===== src/Policy/Network.antt =====
-- crates/factory-policy/src/policy.rs: the network mode after composition.
use agentic_software_factory.Prelude.{
  ◌≡◌, Bool, true, false, Option, none, some, and_then, arith, if◌then◌else◌,
}
use agentic_software_factory.Policy.Model.{NetworkMode, allow, deny, NetworkPolicy, PolicyScope}

pub record EffectiveNetwork : Type 0 where
  pub mode : NetworkMode

abbrev is_deny : NetworkMode → Bool
is_deny allow = false
is_deny deny = true

abbrev denies_by : Option NetworkPolicy → Bool
denies_by none = false
denies_by (some network) = is_deny network.mode

abbrev denies : Option PolicyScope → Bool
denies scope = denies_by (and_then scope (λ s. s.network))

-- `EffectiveNetwork::resolve`: a scope that denies sets the mode, in either round.
unfoldable pub resolve : Option PolicyScope → Option PolicyScope → EffectiveNetwork
resolve role agent =
    let after_role = if denies role then deny else allow in
    record { mode = if denies agent then deny else after_role }

-- `EffectiveNetwork::restrict`
unfoldable pub restrict : EffectiveNetwork → Option PolicyScope → EffectiveNetwork
restrict n restriction = if denies restriction then record { mode = deny } else n

-- `EffectiveNetwork::allowed`
unfoldable pub allowed : EffectiveNetwork → Bool
allowed n = elim n.mode [ allow ↦ true | deny ↦ false ]

-- Each layer can only take the network away.
pub network_narrow :
    (role agent restriction : Option PolicyScope)
    → (allowed (restrict (resolve role agent) restriction) ≡ true
        → allowed (resolve role agent) ≡ true)
      × (allowed (resolve role agent) ≡ true → allowed (resolve role none) ≡ true)
unfolding resolve restrict allowed
network_narrow role agent restriction = ground arith
