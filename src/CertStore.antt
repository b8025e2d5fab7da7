-- ===== src/CertStore.antt =====
-- crates/meshlite-tls/src/cert_store.rs: the certificates of the services on a node.
-- `iter` is the order in which the `HashMap` iterates, on which `values().next()` depends.
pub mod Lookup
pub mod TrustAnchor
use mathlib.Core.Option
use meshlite.Base.{Bool, true, false, Option, [], ◌∷◌, Text, Bytes, head?}
use meshlite.HashMap
use meshlite.HashMap.{Entries}

pub record StoredCert : Type 0 where
  pub leaf_cert_pem : Bytes
  pub root_ca_pem : Bytes
  pub private_key_pem : Bytes

pub record CertStore : Type 0 where
  pub certs : Entries StoredCert

abbrev pub new : CertStore
new = record { certs = [] }

unfoldable pub update : CertStore → Text → Bytes → Bytes → Bytes → CertStore
update store service_id leaf root key = record {
  certs =
      HashMap.insert service_id
        (record { leaf_cert_pem = leaf; root_ca_pem = root; private_key_pem = key }) store.certs;
}

-- `!is_empty()`
abbrev is_nonempty : Entries StoredCert → Bool
is_nonempty [] = false
is_nonempty (_ ∷ _) = true

unfoldable pub has_any : CertStore → Bool
has_any store = is_nonempty store.certs

unfoldable pub leaf_cert_pem : CertStore → Text → Option Bytes
leaf_cert_pem store service_id =
    Option.map (λ c. c.leaf_cert_pem) (HashMap.get service_id store.certs)

module _ (iter : Entries StoredCert → Entries StoredCert) where
  unfoldable pub first_cert : CertStore → Option StoredCert
  first_cert store = Option.map (λ e. e.1) (head? (iter store.certs))

  unfoldable pub root_ca_pem : CertStore → Option Bytes
  root_ca_pem store = Option.map (λ e. e.1.root_ca_pem) (head? (iter store.certs))
