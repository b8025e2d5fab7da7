-- ===== src/Tests/Policies.antt =====
-- Certificates and policies: crates/meshlite-tls/src.
use mathlib.Core.List.Permᴰ
use meshlite.Base.{
  ◌≡◌, refl, ◌↔◌, ◌⊎◌, Bool, true, false, none, some, List, [], ◌∷◌, Text, codes, str_eq,
}
use meshlite.HashMap
use meshlite.HashMap.{Entries, IsIteration, IsUnique}
use meshlite.CertStore
use meshlite.CertStore.{CertStore, StoredCert}
use meshlite.CertStore.TrustAnchor.{Update, run_updates, root_ca_pem-run_updates}
use meshlite.PolicyCache
use meshlite.PolicyCache.{AllowRule, PolicyCache, is_allowed, is_allowed_destination, lists}
use meshlite.PolicyCache.Decision.{Permits, is_allowed_iff}
use meshlite.PolicyCache.Destination.{Listed, is_allowed_destination_iff}

abbrev alpha : Text
alpha = codes "alpha"

abbrev beta : Text
beta = codes "beta"

abbrev gamma : Text
gamma = codes "gamma"

-- The iteration in the order of the entries.
abbrev in_order {ℓ} : {V : Type ℓ} → Entries V → Entries V
in_order m = m

in_order-IsIteration {ℓ} : {V : Type ℓ} → IsIteration (in_order {V = V})
in_order-IsIteration m = Permᴰ.refl m

abbrev first : Update
first = record {
  service_id = alpha;
  leaf = codes "leaf-v1";
  root = codes "root";
  key = codes "key-v1";
}

abbrev second : Update
second = record {
  service_id = beta;
  leaf = codes "leaf-v2";
  root = codes "root";
  key = codes "key-v2";
}

abbrev two_certs : CertStore
two_certs = run_updates CertStore.new (first ∷ second ∷ [])

empty_has_none :
    (CertStore.has_any CertStore.new ≡ false) × (CertStore.leaf_cert_pem CertStore.new alpha ≡ none)
unfolding CertStore.has_any CertStore.leaf_cert_pem HashMap.get
empty_has_none = (refl, refl)

update_overwrites :
    CertStore.leaf_cert_pem
      (CertStore.update
        (CertStore.update CertStore.new alpha (codes "leaf-v1") (codes "root") (codes "k1"))
        alpha
        (codes "leaf-v2")
        (codes "root")
        (codes "k2"))
      alpha
    ≡ some (codes "leaf-v2")
unfolding CertStore.leaf_cert_pem CertStore.update HashMap.get HashMap.insert str_eq
update_overwrites = refl

two_certs-IsUnique : IsUnique two_certs.certs
unfolding CertStore.update HashMap.insert HashMap.get str_eq
two_certs-IsUnique = (refl, (refl, tt))

abbrev first_stored : StoredCert
first_stored = record {
  leaf_cert_pem = codes "leaf-v1";
  root_ca_pem = codes "root";
  private_key_pem = codes "key-v1";
}

first_of_two : CertStore.first_cert in_order two_certs ≡ some first_stored
unfolding CertStore.first_cert CertStore.update HashMap.insert str_eq
first_of_two = refl

root_ca_pem-run_updates_example : CertStore.root_ca_pem in_order two_certs ≡ some (codes "root")
root_ca_pem-run_updates_example =
    root_ca_pem-run_updates in_order (codes "root") first (second ∷ []) in_order-IsIteration
      (refl, (refl, tt))

abbrev alpha_to_beta : AllowRule
alpha_to_beta = record { from_service = alpha; to_services = beta ∷ [] }

abbrev alpha_to_gamma : AllowRule
alpha_to_gamma = record { from_service = alpha; to_services = gamma ∷ [] }

abbrev policy_of : List AllowRule → Bool → PolicyCache
policy_of rules default = record {
  rules = rules;
  default_allow = default;
  mtls_mode = codes "enforce";
}

abbrev one_way : PolicyCache
one_way = policy_of (alpha_to_beta ∷ []) false

one_way_answers :
    (is_allowed one_way alpha beta ≡ true)
    × (is_allowed one_way beta alpha ≡ false)
    × (is_allowed one_way gamma alpha ≡ false)
    × (is_allowed_destination one_way beta ≡ true)
    × (is_allowed_destination one_way alpha ≡ false)
unfolding is_allowed is_allowed_destination lists str_eq
one_way_answers = (refl, refl, refl, refl, refl)

default_allow_permits :
    (is_allowed PolicyCache.new alpha beta ≡ true)
    × (is_allowed_destination PolicyCache.new beta ≡ true)
unfolding is_allowed is_allowed_destination
default_allow_permits = (refl, refl)

is_allowed_iff_example :
    (is_allowed one_way alpha beta ≡ true) ↔ Permits one_way.rules false alpha beta
is_allowed_iff_example = is_allowed_iff one_way alpha beta

is_allowed_destination_iff_example :
    (is_allowed_destination one_way beta ≡ true) ↔ (Listed one_way.rules beta ⊎ (false ≡ true))
is_allowed_destination_iff_example = is_allowed_destination_iff one_way beta
