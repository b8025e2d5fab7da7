-- ===== src/CertStore/Lookup.antt =====
-- CertStore of crates/meshlite-tls/src/cert_store.rs: reads after an update, and what an arbitrary
-- entry is.
use mathlib.Core.List.{Memᴰ}
use mathlib.Core.Option
use meshlite.Base.{
  true, ◌≡◌, refl, some, [], ◌∷◌, arith, Text, Bytes, str_eq, is_some, head?, if◌then◌else◌,
  mem-perm, length-perm, length,
}
use meshlite.HashMap
use meshlite.HashMap.{Entries, IsUnique, IsIteration}
use meshlite.CertStore.{
  is_nonempty, CertStore, StoredCert, update, has_any, leaf_cert_pem, first_cert, root_ca_pem,
}

-- After `update` the leaf certificate of that service is the new one, and that of any other service
-- is what it was.
pub leaf_cert_pem-update :
    (s : CertStore) (id j : Text) (leaf root key : Bytes)
    → leaf_cert_pem (update s id leaf root key) j
      ≡ (if str_eq id j then some leaf else leaf_cert_pem s j)
unfolding leaf_cert_pem update
leaf_cert_pem-update s id j leaf root key = rw HashMap.get-insert (ground arith)

is_nonempty-insert :
    (id : Text) (c : StoredCert) (m : Entries StoredCert)
    → is_nonempty (HashMap.insert id c m) ≡ true
unfolding HashMap.insert
is_nonempty-insert id c [] = refl
is_nonempty-insert id c ((j, d) ∷ m) = ground arith

pub has_any-update :
    (s : CertStore) (id : Text) (leaf root key : Bytes) → has_any (update s id leaf root key) ≡ true
unfolding has_any update
has_any-update s id leaf root key = is_nonempty-insert id _ s.certs

pub update-IsUnique :
    (s : CertStore) (id : Text) (leaf root key : Bytes)
    → IsUnique s.certs
    → IsUnique (update s id leaf root key).certs
unfolding update
update-IsUnique s id leaf root key h = HashMap.insert-IsUnique id _ s.certs h

module _ (iter : Entries StoredCert → Entries StoredCert) (visits : IsIteration iter) where
  -- Whatever the iteration order, `first_cert` and `root_ca_pem` find an entry exactly when the
  -- store has one, and they read the same entry.
  pub first_cert-has_any :
      (s : CertStore)
      → (is_some (first_cert iter s) ≡ has_any s)
        × (root_ca_pem iter s ≡ Option.map (λ c. c.root_ca_pem) (first_cert iter s))
  unfolding first_cert has_any root_ca_pem
  first_cert-has_any s = go s.certs (iter s.certs) (length-perm (visits s.certs))
    where
      go :
          (m l : Entries StoredCert)
          → length l ≡ length m
          → (is_some (Option.map {B = StoredCert} (λ e. e.1) (head? l)) ≡ is_nonempty m)
            × (Option.map (λ e. e.1.root_ca_pem) (head? l)
                ≡ Option.map
                    (λ c. c.root_ca_pem)
                    (Option.map {B = StoredCert} (λ e. e.1) (head? l)))
      go [] [] e = (refl, refl)
      go (x ∷ m) (y ∷ l) e = (refl, refl)
      go [] (y ∷ l) e = absurd (omega arith)
      go (x ∷ m) [] e = absurd (omega arith)

  -- The certificate that `first_cert` returns is stored under some service.
  pub first_cert_stored :
      (s : CertStore) {c : StoredCert}
      → IsUnique s.certs
      → first_cert iter s ≡ some c
      → (id : Text) × (HashMap.get id s.certs ≡ some c)
  unfolding first_cert
  first_cert_stored s {c} u e = go (iter s.certs) (λ x m. mem-perm (visits s.certs) m) e
    where
      go :
          (l : Entries StoredCert)
          → ((x : Text × StoredCert) → Memᴰ x l → Memᴰ x s.certs)
          → Option.map (λ x. x.1) (head? l) ≡ some c
          → (id : Text) × (HashMap.get id s.certs ≡ some c)
      go [] sub e = cc
      go ((id, d) ∷ l) sub e = (id, HashMap.get_of_mem id s.certs u (sub (id, c) (Memᴰ.head cc)))
