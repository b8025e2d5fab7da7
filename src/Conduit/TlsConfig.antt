-- ===== src/Conduit/TlsConfig.antt =====
-- conduit/src/tls_config.rs, less the contexts that anyhow puts before the text of an error. PEM
-- parsing, and what the root store and the builders accept (rustls, rustls-pemfile) are the fields of
-- `Rustls`; a client configuration is what it is built with.
pub mod Built
use meshlite.Base.{List, [], ◌∷◌, Text, Bytes, codes}
use meshlite.Results.{◌>>=◌}
use meshlite.Conduit.{Result, ok, err, ClientConfig}

-- `CertificateDer` and `PrivateKeyDer`
abbrev pub Cert : Type 0
Cert = Bytes

abbrev pub Key : Type 0
Key = Bytes

pub record Rustls : Type 1 where
  pub ServerConfig : Type 0
  pub read_certs : Bytes → List (Result Cert)
  pub read_pkcs8_keys : Bytes → List (Result Key)
  pub read_ec_keys : Bytes → List (Result Key)
  pub accepts_root : Cert → Result Unit
  pub accepts_client : List Cert → Key → Result Unit
  pub build_server : List Cert → List Cert → Key → Result ServerConfig
  pub valid_name : Text → Result Unit

module _ {A : Type 0} where
  -- `.collect::<Result<Vec<_>, _>>()`
  unfoldable pub collect : List (Result A) → Result (List A)
  collect [] = ok []
  collect (x ∷ xs) = do a ← x; rest ← collect xs; ok (a ∷ rest)

module _ (tls : Rustls) where
  open tls use {
    ServerConfig, read_certs, read_pkcs8_keys, read_ec_keys, accepts_root, accepts_client,
    build_server,
  }

  unfoldable pub load_certs : Bytes → Result (List Cert)
  load_certs pem = collect (read_certs pem)

  abbrev first_ec : List (Result Key) → Result Key
  first_ec (key ∷ _) = key
  first_ec [] = err (codes "no supported private key found in PEM")

  abbrev first_key : List (Result Key) → List (Result Key) → Result Key
  first_key (key ∷ _) ec = key
  first_key [] ec = first_ec ec

  unfoldable pub load_key : Bytes → Result Key
  load_key pem = first_key (read_pkcs8_keys pem) (read_ec_keys pem)

  -- The roots of the store, in the order in which they are added.
  abbrev add_all : List (Result Cert) → Result (List Cert)
  add_all [] = ok []
  add_all (c ∷ cs) = do cert ← c; added ← accepts_root cert; rest ← add_all cs; ok (cert ∷ rest)

  unfoldable pub root_store : Bytes → Result (List Cert)
  root_store root_ca_pem = add_all (read_certs root_ca_pem)

  unfoldable pub client_config : Bytes → Bytes → Bytes → Result ClientConfig
  client_config leaf_cert_pem key_pem root_ca_pem = do
    leaf_certs ← load_certs leaf_cert_pem
    key ← load_key key_pem
    roots ← root_store root_ca_pem
    accepted ← accepts_client leaf_certs key
    ok (record { roots = roots; chain = leaf_certs; key = key })

  unfoldable pub server_config : Bytes → Bytes → Bytes → Result ServerConfig
  server_config leaf_cert_pem key_pem root_ca_pem = do
    leaf_certs ← load_certs leaf_cert_pem
    key ← load_key key_pem
    roots ← root_store root_ca_pem
    build_server roots leaf_certs key
