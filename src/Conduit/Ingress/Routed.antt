-- ===== src/Conduit/Ingress/Routed.antt =====
-- Where conduit/src/ingress.rs connects to.
use mathlib.Core.List.{Memᴰ}
use meshlite.Base.{
  inl, inr, ◌⊎◌, arith, ◌==◌, codes, any, Bool-cases, mem_of_any, any_of_mem, ◌≡◌, refl, Option,
  none, some, List, [], ◌∷◌, ◌++◌, Text, Bytes, All,
}
use meshlite.Conduit.{
  Result, ok, err, Action, emit, dial, to_peer, to_client, tunnel, Script, stop, perform-All,
  bad_request,
}
use meshlite.Conduit.Host.{extract_host}
use meshlite.Conduit.Ingress.{
  Network, backend_addr, forward, route, answer, accepted, handle_connection, error_record, report,
  serve,
}

-- The address of the service of a host: the host as it is if it has a dot, with the suffix if not, and the
-- port.
abbrev pub IsAddressOf : Text → Text → Text → Text → Type 0
IsAddressOf suffix port host backend =
    (Memᴰ b'.' host × (backend ≡ host ++ codes ":" ++ port))
    ⊎ (¬ Memᴰ b'.' host × (backend ≡ host ++ suffix ++ codes ":" ++ port))

backend_addr-IsAddressOf :
    (suffix port host : Text) → IsAddressOf suffix port host (backend_addr suffix port host)
unfolding backend_addr
backend_addr-IsAddressOf suffix port host = elim (Bool-cases (any (λ c. c == b'.') host)) [
  | inl dotted ↦ inl (mem_of_any b'.' host dotted, rw dotted refl)
  | inr bare ↦ inr (λ m. let dotted = any_of_mem b'.' host m in ground arith, rw bare refl)
]

module _ (suffix port : Text) (net : Network) where
  -- The address is that of the host which the head names.
  pub record IsRoute (backend : Text) : Type 0 where
    pub header : Bytes
    pub host : Text
    pub was_read : net.read ≡ ok header
    pub named : extract_host header ≡ some host
    pub addressed : IsAddressOf suffix port host backend

  abbrev pub IsRouted : Action → Type 0
  IsRouted (dial backend) = IsRoute backend
  IsRouted _ = Unit

  abbrev AllRouted : Script → Type 0
  AllRouted s = All IsRouted s.0

  forward-AllRouted :
      (header : Bytes) (backend : Text) (r : Result Unit)
      → AllRouted (forward suffix port net header backend r)
  forward-AllRouted header backend (err e) = tt
  forward-AllRouted header backend (ok u) =
      perform-All IsRouted (to_peer header) net.backend_write _ tt
        (perform-All IsRouted tunnel net.copy stop tt tt)

  route-AllRouted :
      (header : Bytes) (host : Option Text)
      → net.read ≡ ok header
      → extract_host header ≡ host
      → AllRouted (route suffix port net header host)
  route-AllRouted header none r e =
      perform-All IsRouted (to_client bad_request) net.client_write stop tt tt
  route-AllRouted header (some host) r e = (
    record {
      header = header;
      host = host;
      was_read = r;
      named = e;
      addressed = backend_addr-IsAddressOf suffix port host;
    },
    forward-AllRouted header (backend_addr suffix port host) net.connect,
  )

  answer-AllRouted :
      (read : Result Bytes) → net.read ≡ read → AllRouted (answer suffix port net read)
  answer-AllRouted (err e) r = tt
  answer-AllRouted (ok []) r = tt
  answer-AllRouted (ok (b ∷ bs)) r = route-AllRouted (b ∷ bs) (extract_host (b ∷ bs)) r refl

  accepted-AllRouted : (r : Result Unit) → AllRouted (accepted suffix port net r)
  accepted-AllRouted (err e) = tt
  accepted-AllRouted (ok u) = answer-AllRouted net.read refl

  All-append_emit :
      (xs : List Action) (cluster_id msg : Text)
      → All IsRouted xs
      → All IsRouted (xs ++ emit (error_record cluster_id msg) ∷ [])
  All-append_emit [] cluster_id msg h = (tt, tt)
  All-append_emit (x ∷ xs) cluster_id msg h = (h.0, All-append_emit xs cluster_id msg h.1)

  report-AllRouted :
      (cluster_id : Text) (s : Script) → AllRouted s → All IsRouted (report cluster_id s)
  report-AllRouted cluster_id (actions, ok u) h = h
  report-AllRouted cluster_id (actions, err msg) h = All-append_emit actions cluster_id msg h

  -- The task of a connection only dials the backend of the host that the head it read names.
  pub serve-AllRouted : (cluster_id : Text) → All IsRouted (serve cluster_id suffix port net)
  unfolding serve handle_connection
  serve-AllRouted cluster_id =
      report-AllRouted cluster_id (accepted suffix port net net.accept)
        (accepted-AllRouted net.accept)
