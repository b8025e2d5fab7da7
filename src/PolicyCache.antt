-- ===== src/PolicyCache.antt =====
-- crates/meshlite-tls/src/policy_cache.rs: the allow rules in force, and the two checks against them.
pub mod Decision
pub mod Destination
use meshlite.Base.{Bool, true, false, List, [], ◌∷◌, Text, codes, str_eq, any, if◌then◌else◌}

pub record AllowRule : Type 0 where
  pub from_service : Text
  pub to_services : List Text

pub record PolicyCache : Type 0 where
  pub rules : List AllowRule
  pub default_allow : Bool
  pub mtls_mode : Text

abbrev pub new : PolicyCache
new = record { rules = []; default_allow = true; mtls_mode = codes "off" }

unfoldable pub update : PolicyCache → List AllowRule → Bool → Text → PolicyCache
update cache rules default_allow mtls_mode = record {
  rules = rules;
  default_allow = default_allow;
  mtls_mode = mtls_mode;
}

-- `to_services.iter().any(|t| t == to_svc)`
unfoldable pub lists : AllowRule → Text → Bool
lists rule to_svc = any (λ t. str_eq t to_svc) rule.to_services

-- the loop of `is_allowed`, over the rules that are left
unfoldable pub check_rules : List AllowRule → Bool → Text → Text → Bool
check_rules [] default_allow from_svc to_svc = default_allow
check_rules (rule ∷ rules) default_allow from_svc to_svc =
    let rest = check_rules rules default_allow from_svc to_svc in
    if str_eq rule.from_service from_svc then (if lists rule to_svc then true else false) else rest

unfoldable pub is_allowed : PolicyCache → Text → Text → Bool
unfolding check_rules
is_allowed cache = check_rules cache.rules cache.default_allow

-- the loop of `is_allowed_destination`
unfoldable pub check_destination : List AllowRule → Bool → Text → Bool
check_destination [] default_allow to_svc = default_allow
check_destination (rule ∷ rules) default_allow to_svc =
    let rest = check_destination rules default_allow to_svc in
    if lists rule to_svc then true else rest

unfoldable pub is_allowed_destination : PolicyCache → Text → Bool
unfolding check_destination
is_allowed_destination cache = check_destination cache.rules cache.default_allow
