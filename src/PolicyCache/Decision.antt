-- ===== src/PolicyCache/Decision.antt =====
-- `is_allowed` of crates/meshlite-tls/src/policy_cache.rs against a description of the first rule that
-- names the source.
use mathlib.Core.List.{Memᴰ}
use meshlite.Base.{
  ◌≡◌, ◌≢◌, refl, sym, ◌∙◌, ap, ◌↔◌, ◌⊎◌, inl, inr, Bool, true, false, List, [], ◌∷◌, ◌++◌, arith,
  Text, str_eq, str_eq_iff, any, All, Bool-cases,
}
use meshlite.PolicyCache.{AllowRule, PolicyCache, lists, check_rules, is_allowed}

mem_of_any : (t : Text) (xs : List Text) → any (λ s. str_eq s t) xs ≡ true → Memᴰ t xs
mem_of_any t [] e = cc
mem_of_any t (x ∷ xs) e = elim (Bool-cases (str_eq x t)) [
  | inl same ↦ Memᴰ.head (sym ((str_eq_iff x t).0 same))
  | inr other ↦ Memᴰ.tail (mem_of_any t xs (rw other at e))
]

any_of_mem : (t : Text) (xs : List Text) → Memᴰ t xs → any (λ s. str_eq s t) xs ≡ true
any_of_mem t [] m = elim m [ ]
any_of_mem t (x ∷ xs) (Memᴰ.head e) = ground (arith, str_eq_iff x t)
any_of_mem t (x ∷ xs) (Memᴰ.tail m) = ground (arith, any_of_mem t xs m)

pub lists_iff : (r : AllowRule) (t : Text) → (lists r t ≡ true) ↔ Memᴰ t r.to_services
unfolding lists
lists_iff r t = (mem_of_any t r.to_services, any_of_mem t r.to_services)

-- No rule of the list has the source `f`.
abbrev pub NoneFrom : Text → List AllowRule → Type 0
NoneFrom f = All (λ r. r.from_service ≢ f)

-- `rule` is the first one with the source `f`.
pub record IsFirst (f : Text) (rules : List AllowRule) (rule : AllowRule) : Type 0 where
  pub before : List AllowRule
  pub after : List AllowRule
  pub splits : rules ≡ before ++ rule ∷ after
  pub none_before : NoneFrom f before
  pub from_f : rule.from_service ≡ f

abbrev pub Permits : List AllowRule → Bool → Text → Text → Type 0
Permits rules default f t =
    ((rule : AllowRule) × IsFirst f rules rule × Memᴰ t rule.to_services)
    ⊎ (NoneFrom f rules × (default ≡ true))

IsFirst-cons :
    {f : Text} {rules : List AllowRule} {rule : AllowRule} (r : AllowRule)
    → r.from_service ≢ f
    → IsFirst f rules rule
    → IsFirst f (r ∷ rules) rule
IsFirst-cons r n h = record {
  before = r ∷ h.before;
  after = h.after;
  splits = ap (◌∷◌ r) h.splits;
  none_before = (n, h.none_before);
  from_f = h.from_f;
}

Permits-cons :
    {rules : List AllowRule} {default : Bool} {f t : Text} (r : AllowRule)
    → r.from_service ≢ f
    → Permits rules default f t
    → Permits (r ∷ rules) default f t
Permits-cons r n (inl (rule, first, m)) = inl (rule, IsFirst-cons r n first, m)
Permits-cons r n (inr (none, d)) = inr ((n, none), d)

other_source : {f : Text} (r : AllowRule) → str_eq r.from_service f ≡ false → r.from_service ≢ f
other_source {f} r e p = ground (arith, str_eq_iff r.from_service f)

check_rules-Permits :
    (rules : List AllowRule) (default : Bool) (f t : Text)
    → check_rules rules default f t ≡ true
    → Permits rules default f t
unfolding check_rules
check_rules-Permits [] default f t e = inr (tt, e)
check_rules-Permits (r ∷ rules) default f t e = elim (Bool-cases (str_eq r.from_service f)) [
  | inl same ↦ inl (
    r,
    record {
      before = [];
      after = rules;
      splits = refl;
      none_before = tt;
      from_f = (str_eq_iff r.from_service f).0 same;
    },
    (lists_iff r t).0 (ground arith),
  )
  | inr other ↦
      Permits-cons r (other_source r other) (check_rules-Permits rules default f t (ground arith))
]

check_rules_first :
    (before after : List AllowRule) (rule : AllowRule) (default : Bool) (f t : Text)
    → NoneFrom f before
    → rule.from_service ≡ f
    → check_rules (before ++ rule ∷ after) default f t ≡ lists rule t
unfolding check_rules
check_rules_first [] after rule default f t h e = ground (arith, str_eq_iff rule.from_service f)
check_rules_first (r ∷ before) after rule default f t h e =
    ground
      (arith, str_eq_iff r.from_service f, check_rules_first before after rule default f t h.1 e)

check_rules_none :
    (rules : List AllowRule) (default : Bool) (f t : Text)
    → NoneFrom f rules
    → check_rules rules default f t ≡ default
unfolding check_rules
check_rules_none [] default f t h = refl
check_rules_none (r ∷ rules) default f t h =
    ground (arith, str_eq_iff r.from_service f, check_rules_none rules default f t h.1)

Permits-check_rules :
    (rules : List AllowRule) (default : Bool) (f t : Text)
    → Permits rules default f t
    → check_rules rules default f t ≡ true
Permits-check_rules rules default f t (inl (rule, first, m)) =
    ap (λ l. check_rules l default f t) first.splits
    ∙ check_rules_first first.before first.after rule default f t first.none_before first.from_f
    ∙ (lists_iff rule t).1 m
Permits-check_rules rules default f t (inr (none, d)) = check_rules_none rules default f t none ∙ d

-- `is_allowed` answers true exactly when the first rule with that source lists the destination, or
-- no rule has that source and the default is to allow.
pub is_allowed_iff :
    (c : PolicyCache) (f t : Text) → (is_allowed c f t ≡ true) ↔ Permits c.rules c.default_allow f t
unfolding is_allowed
is_allowed_iff c f t = (
  check_rules-Permits c.rules c.default_allow f t,
  Permits-check_rules c.rules c.default_allow f t,
)
