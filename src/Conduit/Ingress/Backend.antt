-- ===== src/Conduit/Ingress/Backend.antt =====
-- What conduit/src/ingress.rs connects to, and what it reports.
use meshlite.Base.{
  ℕ, ◌+◌, ◌≡◌, refl, sym, ◌∙◌, inl, inr, Bool, true, false, Option, none, some, List, [], ◌∷◌, ◌++◌,
  arith, Text, Bytes, codes, any, Bool-cases, if◌then◌else◌, append_assoc,
}
use meshlite.Strings.{split}
use meshlite.Strings.Split.{has, has-append, split-append_whole}
use meshlite.Conduit.{
  Result, ok, err, Action, emit, to_peer, to_client, tunnel, Script, stop, perform, bad_request,
}
use meshlite.Conduit.Host.{extract_host}
use meshlite.Conduit.Host.Shape.{extract_host-IsHostName}
use meshlite.Conduit.Ingress.{
  Network, backend_addr, forward, route, answer, accepted, handle_connection, report, serve,
}

split_at_port :
    (name port : Text)
    → has b':' name ≡ false
    → has b':' port ≡ false
    → split b':' (name ++ codes ":" ++ port) ≡ name ∷ port ∷ []
split_at_port name port n p =
    rw (append_assoc name (codes ":") port) (split-append_whole b':' name port n p)

-- The name of the backend: a name with a dot is taken as it is, any other gets the suffix.
abbrev pub backend_name : Text → Text → Text
backend_name suffix host = if has b'.' host then host else host ++ suffix

-- Where neither the suffix nor the port has a colon, the address of the backend of a request splits at
-- its only colon into the name of the backend and the port: no name that a client sends can bring in
-- a port of its own.
pub split-backend_addr :
    (suffix port : Text) (raw : Bytes) {host : Text}
    → extract_host raw ≡ some host
    → has b':' suffix ≡ false
    → has b':' port ≡ false
    → split b':' (backend_addr suffix port host) ≡ backend_name suffix host ∷ port ∷ []
unfolding backend_addr
split-backend_addr suffix port raw {host} e s p =
    let clean = (extract_host-IsHostName raw e).1 in
    elim (Bool-cases (has b'.' host)) [
      | inl dotted ↦ rw (dotted, backend_addr) (split_at_port host port clean p)
      | inr bare ↦
          rw (bare, backend_addr)
            (split_at_port (host ++ suffix) port (ground (arith, has-append b':' host suffix)) p)
    ]

abbrev is_contact : Action → Bool
is_contact (emit r) = false
is_contact (to_client b) = false
is_contact _ = true

abbrev pub contacts : List Action → Bool
contacts = any is_contact

abbrev is_emit : Action → Bool
is_emit (emit r) = true
is_emit _ = false

-- The records that a connection makes.
abbrev pub count_records : List Action → ℕ
count_records [] = 0
count_records (a ∷ actions) = if is_emit a then count_records actions + 1 else count_records actions

abbrev pub failed : Result Unit → ℕ
failed (ok tt) = 0
failed (err e) = 1

module _ (suffix port : Text) (net : Network) where
  IsSilent : Script → Type 0
  IsSilent s = count_records s.0 ≡ 0

  perform-IsSilent :
      (a : Action) (r : Result Unit) (s : Script)
      → is_emit a ≡ false
      → IsSilent s
      → IsSilent (perform a r s)
  unfolding IsSilent
  perform-IsSilent a (ok tt) s n h = rw n h
  perform-IsSilent a (err e) s n h = rw n refl

  forward-IsSilent :
      (header : Bytes) (backend : Text) (r : Result Unit)
      → IsSilent (forward suffix port net header backend r)
  unfolding IsSilent
  forward-IsSilent header backend (err e) = refl
  forward-IsSilent header backend (ok tt) =
      perform-IsSilent (to_peer header) net.backend_write (perform tunnel net.copy stop) refl
        (perform-IsSilent tunnel net.copy stop refl refl)

  route-IsSilent :
      (header : Bytes) (host : Option Text) → IsSilent (route suffix port net header host)
  unfolding IsSilent
  route-IsSilent header none =
      perform-IsSilent (to_client bad_request) net.client_write stop refl refl
  route-IsSilent header (some host) =
      forward-IsSilent header (backend_addr suffix port host) net.connect

  answer-IsSilent : (read : Result Bytes) → IsSilent (answer suffix port net read)
  unfolding IsSilent
  answer-IsSilent (err e) = refl
  answer-IsSilent (ok []) = refl
  answer-IsSilent (ok (b ∷ bs)) = route-IsSilent (b ∷ bs) (extract_host (b ∷ bs))

  accepted-IsSilent : (r : Result Unit) → IsSilent (accepted suffix port net r)
  unfolding IsSilent
  accepted-IsSilent (err e) = refl
  accepted-IsSilent (ok tt) = answer-IsSilent net.read

  count_records-report :
      (cluster_id : Text) (s : Script)
      → IsSilent s
      → count_records (report cluster_id s) ≡ failed s.1
  unfolding IsSilent
  count_records-report cluster_id (actions, ok tt) h = h
  count_records-report cluster_id (actions, err e) h = go actions h
    where
      go :
          (acts : List Action)
          → count_records acts ≡ 0
          → count_records (report cluster_id (acts, err e)) ≡ 1
      go [] h = refl
      go (a ∷ acts) h = ground (arith, go acts)

  -- A connection of the ingress is reported by exactly one record if its handling fails, and by none
  -- if it ends well.
  pub serve_reports :
      (cluster_id : Text)
      → count_records (serve cluster_id suffix port net)
        ≡ failed (handle_connection suffix port net).1
  unfolding serve handle_connection
  serve_reports cluster_id =
      count_records-report cluster_id (accepted suffix port net net.accept)
        (accepted-IsSilent net.accept)

  contacts-report : (cluster_id : Text) (s : Script) → contacts (report cluster_id s) ≡ contacts s.0
  contacts-report cluster_id (actions, ok tt) = refl
  contacts-report cluster_id (actions, err e) = go actions
    where
      go : (acts : List Action) → contacts (report cluster_id (acts, err e)) ≡ contacts acts
      go [] = refl
      go (a ∷ acts) = ground (arith, go acts)

  -- What stands between a client and a backend: the handshake and a host name in what was read.
  pub record Admitted : Type 0 where
    pub handshake_ok : net.accept ≡ ok tt
    pub header : Bytes
    pub was_read : net.read ≡ ok header
    pub host : Text
    pub named : extract_host header ≡ some host

  client_only : (b : Bytes) (r : Result Unit) → contacts (perform (to_client b) r stop).0 ≡ false
  client_only b (ok tt) = refl
  client_only b (err e) = refl

  route-Admitted :
      (header : Bytes) (host : Option Text)
      → net.accept ≡ ok tt
      → net.read ≡ ok header
      → extract_host header ≡ host
      → contacts (route suffix port net header host).0 ≡ true
      → Admitted
  route-Admitted header none a r e h = ground (arith, client_only bad_request net.client_write)
  route-Admitted header (some host) a r e h = record {
    handshake_ok = a;
    header = header;
    was_read = r;
    host = host;
    named = e;
  }

  answer-Admitted :
      (read : Result Bytes)
      → net.accept ≡ ok tt
      → net.read ≡ read
      → contacts (answer suffix port net read).0 ≡ true
      → Admitted
  answer-Admitted (err e) a r h = cc
  answer-Admitted (ok []) a r h = cc
  answer-Admitted (ok (b ∷ bs)) a r h = route-Admitted (b ∷ bs) (extract_host (b ∷ bs)) a r refl h

  accepted-Admitted :
      (r : Result Unit) → net.accept ≡ r → contacts (accepted suffix port net r).0 ≡ true → Admitted
  accepted-Admitted (err e) a h = cc
  accepted-Admitted (ok tt) a h = answer-Admitted net.read a refl h

  -- A backend is only dialled, written to or tunnelled to for a client whose mTLS handshake succeeded
  -- and whose request names a host.
  pub serve_admitted :
      (cluster_id : Text) → contacts (serve cluster_id suffix port net) ≡ true → Admitted
  unfolding serve handle_connection
  serve_admitted cluster_id h =
      accepted-Admitted net.accept refl
        (sym (contacts-report cluster_id (accepted suffix port net net.accept)) ∙ h)
