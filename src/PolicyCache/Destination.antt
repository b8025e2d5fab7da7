-- ===== src/PolicyCache/Destination.antt =====
-- `is_allowed_destination` of crates/meshlite-tls/src/policy_cache.rs, the check without a source.
use mathlib.Core.List.{Memᴰ}
use meshlite.Base.{
  ◌≡◌, refl, ◌↔◌, ◌⊎◌, inl, inr, Bool, true, List, [], ◌∷◌, arith, Text, Bool-cases,
}
use meshlite.PolicyCache.{
  AllowRule, PolicyCache, lists, check_rules, is_allowed, check_destination, is_allowed_destination,
}
use meshlite.PolicyCache.Decision.{lists_iff}

-- Some rule, whatever its source, lists `t`.
abbrev pub Listed : List AllowRule → Text → Type 0
Listed rules t = (rule : AllowRule) × Memᴰ rule rules × Memᴰ t rule.to_services

check_destination_sound :
    (rules : List AllowRule) (default : Bool) (t : Text)
    → check_destination rules default t ≡ true
    → Listed rules t ⊎ (default ≡ true)
unfolding check_destination
check_destination_sound [] default t e = inr e
check_destination_sound (r ∷ rules) default t e = elim (Bool-cases (lists r t)) [
  | inl here ↦ inl (r, Memᴰ.head refl, (lists_iff r t).0 here)
  | inr there ↦ elim (check_destination_sound rules default t (ground arith)) [
    | inl (rule, m, l) ↦ inl (rule, Memᴰ.tail m, l)
    | inr d ↦ inr d
  ]
]

check_destination_listed :
    (rules : List AllowRule) (default : Bool) (t : Text) (rule : AllowRule)
    → Memᴰ rule rules
    → lists rule t ≡ true
    → check_destination rules default t ≡ true
unfolding check_destination
check_destination_listed [] default t rule m l = elim m [ ]
check_destination_listed (r ∷ rules) default t rule (Memᴰ.head e) l = ground arith
check_destination_listed (r ∷ rules) default t rule (Memᴰ.tail m) l =
    ground (arith, check_destination_listed rules default t rule m l)

check_destination_default :
    (rules : List AllowRule) (t : Text) → check_destination rules true t ≡ true
unfolding check_destination
check_destination_default [] t = refl
check_destination_default (r ∷ rules) t = ground (arith, check_destination_default rules t)

-- `is_allowed_destination` answers true exactly when some rule, whatever its source, lists the
-- destination, or the default is to allow.
pub is_allowed_destination_iff :
    (c : PolicyCache) (t : Text)
    → (is_allowed_destination c t ≡ true) ↔ (Listed c.rules t ⊎ (c.default_allow ≡ true))
unfolding is_allowed_destination
is_allowed_destination_iff c t = (check_destination_sound c.rules c.default_allow t, back)
  where
    back :
        Listed c.rules t ⊎ (c.default_allow ≡ true)
        → check_destination c.rules c.default_allow t ≡ true
    back (inl (rule, m, l)) =
        check_destination_listed c.rules c.default_allow t rule m ((lists_iff rule t).1 l)
    back (inr d) = rw d (check_destination_default c.rules t)

check_rules-check_destination :
    (rules : List AllowRule) (default : Bool) (f t : Text)
    → check_rules rules default f t ≡ true
    → check_destination rules default t ≡ true
unfolding check_rules check_destination
check_rules-check_destination [] default f t e = e
check_rules-check_destination (r ∷ rules) default f t e =
    ground (arith, check_rules-check_destination rules default f t)

-- The check without a source never refuses what the full check permits for some source.
pub is_allowed_destination_of_is_allowed :
    (c : PolicyCache) (f t : Text) → is_allowed c f t ≡ true → is_allowed_destination c t ≡ true
unfolding is_allowed is_allowed_destination
is_allowed_destination_of_is_allowed c f t e =
    check_rules-check_destination c.rules c.default_allow f t e
