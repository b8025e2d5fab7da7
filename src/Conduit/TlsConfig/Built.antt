-- ===== src/Conduit/TlsConfig/Built.antt =====
-- What the client configuration of conduit/src/tls_config.rs is made of.
use meshlite.Base.{◌≡◌, refl, ap, some, List, [], ◌∷◌, ◌++◌, arith, Bytes, map, head?}
use meshlite.Results.{◌>>=◌}
use meshlite.Conduit.{Result, ok, err, ClientConfig}
use meshlite.Conduit.TlsConfig.{
  Rustls, collect, load_certs, load_key, first_key, add_all, root_store, client_config,
}

-- The roots are all the certificates of one text, the chain all those of another, and the key is the first
-- one of a third, in PKCS#8 if there is one.
pub record IsBuiltFrom (tls : Rustls) (leaf key root : Bytes) (cfg : ClientConfig) : Type 0 where
  pub trusts : map ok cfg.roots ≡ tls.read_certs root
  pub presents : map ok cfg.chain ≡ tls.read_certs leaf
  pub signs_with : head? (tls.read_pkcs8_keys key ++ tls.read_ec_keys key) ≡ some (ok cfg.key)

collected :
    (x : Bytes) (rest : Result (List Bytes)) (xs : List (Result Bytes)) (ys : List Bytes)
    → ((zs : List Bytes) → rest ≡ ok zs → map ok zs ≡ xs)
    → (do r ← rest; ok (x ∷ r)) ≡ ok ys
    → map ok ys ≡ ok x ∷ xs
collected x (err e) xs ys all h = absurd (ground arith)
collected x (ok zs) xs ys all h = let same = all zs refl in ground arith

collect_all : (xs : List (Result Bytes)) (ys : List Bytes) → collect xs ≡ ok ys → map ok ys ≡ xs
unfolding collect
collect_all [] ys h = ground arith
collect_all (err e ∷ xs) ys h = absurd (ground arith)
collect_all (ok x ∷ xs) ys h = collected x (collect xs) xs ys (λ zs k. collect_all xs zs k) h

added :
    (x : Bytes) (accepted : Result Unit) (rest : Result (List Bytes)) (xs : List (Result Bytes))
    (ys : List Bytes)
    → ((zs : List Bytes) → rest ≡ ok zs → map ok zs ≡ xs)
    → (do a ← accepted; r ← rest; ok (x ∷ r)) ≡ ok ys
    → map ok ys ≡ ok x ∷ xs
added x (err e) rest xs ys all h = absurd (ground arith)
added x (ok u) rest xs ys all h = collected x rest xs ys all h

add_everything :
    (tls : Rustls) (xs : List (Result Bytes)) (ys : List Bytes)
    → add_all tls xs ≡ ok ys
    → map ok ys ≡ xs
add_everything tls [] ys h = ground arith
add_everything tls (err e ∷ xs) ys h = absurd (ground arith)
add_everything tls (ok x ∷ xs) ys h =
    added x (tls.accepts_root x) (add_all tls xs) xs ys (λ zs k. add_everything tls xs zs k) h

first_key_head :
    (tls : Rustls) (pkcs8 ec : List (Result Bytes)) (k : Bytes)
    → first_key tls pkcs8 ec ≡ ok k
    → head? (pkcs8 ++ ec) ≡ some (ok k)
first_key_head tls (x ∷ xs) ec k h = ap some h
first_key_head tls [] (x ∷ xs) k h = ap some h
first_key_head tls [] [] k h = absurd (ground arith)

configured :
    (tls : Rustls) (leaf key root : Bytes) (cfg : ClientConfig) (chain : Result (List Bytes))
    (signing : Result Bytes) (roots : Result (List Bytes))
    → ((ys : List Bytes) → chain ≡ ok ys → map ok ys ≡ tls.read_certs leaf)
    → ((k : Bytes)
        → signing ≡ ok k
        → head? (tls.read_pkcs8_keys key ++ tls.read_ec_keys key) ≡ some (ok k))
    → ((ys : List Bytes) → roots ≡ ok ys → map ok ys ≡ tls.read_certs root)
    → (do
      leaf_certs ← chain
      k ← signing
      trusted ← roots
      accepted ← tls.accepts_client leaf_certs k
      ok (record { roots = trusted; chain = leaf_certs; key = k }))
      ≡ ok cfg
    → IsBuiltFrom tls leaf key root cfg
configured tls leaf key root cfg (err e) signing roots c s r h = absurd (ground arith)
configured tls leaf key root cfg (ok ys) (err e) roots c s r h = absurd (ground arith)
configured tls leaf key root cfg (ok ys) (ok k) (err e) c s r h = absurd (ground arith)
configured tls leaf key root cfg (ok ys) (ok k) (ok zs) c s r h = finish (tls.accepts_client ys k) h
  where
    finish :
        (accepted : Result Unit)
        → (do a ← accepted; ok (record { roots = zs; chain = ys; key = k })) ≡ ok cfg
        → IsBuiltFrom tls leaf key root cfg
    finish (err e) g = absurd (ground arith)
    finish (ok u) g =
        let same : (record { roots = zs; chain = ys; key = k }) ≡ cfg = ground arith in
        rw (← same) (record { trusts = r zs refl; presents = c ys refl; signs_with = s k refl })

pub client_config-IsBuiltFrom :
    (tls : Rustls) (leaf key root : Bytes) (cfg : ClientConfig)
    → client_config tls leaf key root ≡ ok cfg
    → IsBuiltFrom tls leaf key root cfg
unfolding client_config load_certs load_key root_store
client_config-IsBuiltFrom tls leaf key root cfg h =
    configured tls leaf key root cfg (load_certs tls leaf) (load_key tls key) (root_store tls root)
      (collect_all (tls.read_certs leaf))
      (first_key_head tls (tls.read_pkcs8_keys key) (tls.read_ec_keys key))
      (add_everything tls (tls.read_certs root)) h
