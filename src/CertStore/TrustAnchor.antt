-- ===== src/CertStore/TrustAnchor.antt =====
-- The header of crates/meshlite-tls/src/cert_store.rs: all services share one root CA, so the root of
-- any stored entry serves as the trust anchor.
use mathlib.Core.List.{Memᴰ}
use mathlib.Core.Option
use meshlite.Base.{
  ◌≡◌, ◌≢◌, refl, some, List, [], ◌∷◌, arith, Text, Bytes, str_eq, head?, All, All-mem, Bool-cases,
  mem-perm, length-perm, length, inl, inr, ◌∙◌, ap,
}
use meshlite.HashMap
use meshlite.HashMap.{Entries, IsIteration}
use meshlite.CertStore.{CertStore, StoredCert, new, update, root_ca_pem}

-- The arguments of one call of `update`.
pub record Update : Type 0 where
  pub service_id : Text
  pub leaf : Bytes
  pub root : Bytes
  pub key : Bytes

abbrev pub run_updates : CertStore → List Update → CertStore
run_updates s [] = s
run_updates s (u ∷ us) = run_updates (update s u.service_id u.leaf u.root u.key) us

abbrev HasRoot : Bytes → Entries StoredCert → Type 0
HasRoot r m = All (λ e. e.1.root_ca_pem ≡ r) m

insert-HasRoot :
    {r : Bytes} (k : Text) (c : StoredCert) (m : Entries StoredCert)
    → c.root_ca_pem ≡ r
    → HasRoot r m
    → HasRoot r (HashMap.insert k c m)
unfolding HashMap.insert
insert-HasRoot k c [] e h = (e, tt)
insert-HasRoot k c ((j, d) ∷ m) e h = elim (Bool-cases (str_eq j k)) [
  | inl same ↦ rw same (e, h.1)
  | inr other ↦ rw other (h.0, insert-HasRoot k c m e h.1)
]

insert-ne-nil : (k : Text) (c : StoredCert) (m : Entries StoredCert) → HashMap.insert k c m ≢ []
unfolding HashMap.insert
insert-ne-nil k c [] e = cc
insert-ne-nil k c ((j, d) ∷ m) e = ground arith

run_updates-HasRoot :
    (r : Bytes) (s : CertStore) (us : List Update)
    → HasRoot r s.certs
    → All (λ u. u.root ≡ r) us
    → HasRoot r (run_updates s us).certs
unfolding update
run_updates-HasRoot r s [] h a = h
run_updates-HasRoot r s (u ∷ us) h a =
    run_updates-HasRoot r (update s u.service_id u.leaf u.root u.key) us
      (insert-HasRoot u.service_id _ s.certs a.0 h) a.1

run_updates-ne-nil :
    (s : CertStore) (us : List Update) → s.certs ≢ [] → (run_updates s us).certs ≢ []
unfolding update
run_updates-ne-nil s [] h = h
run_updates-ne-nil s (u ∷ us) h =
    run_updates-ne-nil (update s u.service_id u.leaf u.root u.key) us
      (insert-ne-nil u.service_id _ s.certs)

first_root :
    {r : Bytes} (l m : Entries StoredCert)
    → length l ≡ length m
    → ((x : Text × StoredCert) → Memᴰ x l → Memᴰ x m)
    → m ≢ []
    → HasRoot r m
    → Option.map (λ e. e.1.root_ca_pem) (head? l) ≡ some r
first_root [] [] len sub ne h = absurd (ne refl)
first_root [] (y ∷ m) len sub ne h = absurd (omega arith)
first_root (x ∷ l) m len sub ne h =
    let (y, e, p) = All-mem m h (sub x (Memᴰ.head refl)) in
    ap some (ap (λ z. z.1.root_ca_pem) e ∙ p)

-- If every update so far carried the root CA `r`, and there was one, then `root_ca_pem` returns `r`,
-- whatever the order in which the map iterates.
pub root_ca_pem-run_updates :
    (iter : Entries StoredCert → Entries StoredCert) (r : Bytes) (u : Update) (us : List Update)
    → IsIteration iter
    → All (λ x. x.root ≡ r) (u ∷ us)
    → root_ca_pem iter (run_updates new (u ∷ us)) ≡ some r
unfolding root_ca_pem
root_ca_pem-run_updates iter r u us visits a =
    let s = run_updates new (u ∷ us) in
    first_root (iter s.certs) s.certs (length-perm (visits s.certs))
      (λ x m. mem-perm (visits s.certs) m)
      (run_updates-ne-nil _ us (unfold update in insert-ne-nil u.service_id _ []))
      (run_updates-HasRoot r new (u ∷ us) tt a)
