-- ===== src/SigilClient/Drains.antt =====
-- What the streams of kprobe/kprobe-userspace/src/sigil_client.rs leave in the caches.
use meshlite.Base.{
  ℕ, suc, ◌+◌, ◌≡◌, refl, ap, ◌⊎◌, inl, inr, Bool, true, false, Option, none, some, [], ◌∷◌, ◌++◌,
  arith, All,
}
use meshlite.CertStore
use meshlite.CertStore.{CertStore}
use meshlite.PolicyCache
use meshlite.PolicyCache.{PolicyCache}
use meshlite.SigilClient.{
  Node, CertBundle, Payload, cert, policy, Pushes, apply_policy_bundle, receive_cert,
  receive_policy, drain_bootstrap, drain_connected,
}

-- How many pushes carry a payload.
abbrev pub payloads : Pushes → ℕ
payloads [] = 0
payloads (none ∷ pushes) = payloads pushes
payloads (some p ∷ pushes) = suc (payloads pushes)

-- The last policy among the pushes, or the one before.
abbrev pub last_policy : Pushes → PolicyCache → PolicyCache
last_policy [] cache = cache
last_policy (none ∷ pushes) cache = last_policy pushes cache
last_policy (some (cert bundle) ∷ pushes) cache = last_policy pushes cache
last_policy (some (policy pb) ∷ pushes) cache =
    last_policy pushes
      (record { rules = pb.rules; default_allow = pb.default_allow; mtls_mode = pb.mtls_mode })

-- All certificates of the pushes, stored in their order.
abbrev pub all_certs : Pushes → CertStore → CertStore
all_certs [] store = store
all_certs (none ∷ pushes) store = all_certs pushes store
all_certs (some (policy pb) ∷ pushes) store = all_certs pushes store
all_certs (some (cert b) ∷ pushes) store =
    all_certs pushes
      (CertStore.update store b.service_id b.service_cert_pem b.root_ca_pem b.key_pem)

-- A connected stream leaves the last policy pushed, every certificate stored in order, and one
-- request for a sync for each push with a payload.
pub drain_connected_lem :
    (pushes : Pushes) (node : Node)
    → ((drain_connected pushes node).cache ≡ last_policy pushes node.cache)
      × ((drain_connected pushes node).certs ≡ all_certs pushes node.certs)
      × ((drain_connected pushes node).syncs ≡ node.syncs + payloads pushes)
unfolding drain_connected receive_cert receive_policy apply_policy_bundle PolicyCache.update
drain_connected_lem [] node = (refl, refl, omega arith)
drain_connected_lem (none ∷ pushes) node = drain_connected_lem pushes node
drain_connected_lem (some (cert bundle) ∷ pushes) node =
    let (p, c, n) = drain_connected_lem pushes (receive_cert bundle node) in (p, c, omega arith)
drain_connected_lem (some (policy pb) ∷ pushes) node =
    let (p, c, n) = drain_connected_lem pushes (receive_policy pb node) in (p, c, omega arith)

abbrev IsCert : Option Payload → Type 0
IsCert (some (cert bundle)) = Unit
IsCert _ = ⊥

-- No push of the list is a certificate.
abbrev pub NoCert : Pushes → Type 0
NoCert = All (λ p. ¬ IsCert p)

-- A stream that carries a certificate, and what stands before and behind the first one.
pub record FirstCert (pushes : Pushes) : Type 0 where
  pub before : Pushes
  pub bundle : CertBundle
  pub after : Pushes
  pub splits : pushes ≡ before ++ some (cert bundle) ∷ after
  pub none_before : NoCert before

FirstCert-cons :
    {pushes : Pushes} (p : Option Payload) → ¬ IsCert p → FirstCert pushes → FirstCert (p ∷ pushes)
FirstCert-cons p n f = record {
  before = p ∷ f.before;
  bundle = f.bundle;
  after = f.after;
  splits = ap (◌∷◌ p) f.splits;
  none_before = (n, f.none_before);
}

-- What the loop of the bootstrap state leaves, in the two ways in which it can end.
abbrev pub BootstrapEnds : Pushes → Node → Bool × Node → Type 0
BootstrapEnds pushes node result =
    (NoCert pushes × (result ≡ (false, drain_connected pushes node)))
    ⊎ ((f : FirstCert pushes) × (result
          ≡ (true, drain_connected (f.before ++ some (cert f.bundle) ∷ []) node)))

-- The bootstrap loop takes what a connected one takes, up to and with the first certificate; it ends
-- without one exactly if the stream carries none.
pub drain_bootstrap_lem :
    (pushes : Pushes) (node : Node) → BootstrapEnds pushes node (drain_bootstrap pushes node)
unfolding drain_bootstrap drain_connected FirstCert-cons
drain_bootstrap_lem [] node = inl (tt, refl)
drain_bootstrap_lem (none ∷ pushes) node = elim (drain_bootstrap_lem pushes node) [
  | inl (n, e) ↦ inl ((λ h. h, n), e)
  | inr (f, e) ↦ inr (FirstCert-cons none (λ h. h) f, e)
]
drain_bootstrap_lem (some (cert bundle) ∷ pushes) node =
    inr (
      record { before = []; bundle = bundle; after = pushes; splits = refl; none_before = tt },
      refl,
    )
drain_bootstrap_lem (some (policy pb) ∷ pushes) node =
    elim (drain_bootstrap_lem pushes (receive_policy pb node)) [
      | inl (n, e) ↦ inl ((λ h. h, n), e)
      | inr (f, e) ↦ inr (FirstCert-cons (some (policy pb)) (λ h. h) f, e)
    ]
