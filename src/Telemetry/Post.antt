-- ===== src/Telemetry/Post.antt =====
-- `post_record` of kprobe/kprobe-userspace/src/telemetry.rs and conduit/src/telemetry.rs: where a record
-- is sent, and which answers are taken for a success. The JSON of the record (serde) is a parameter.
use meshlite.Base.{
  ℕ, ◌≡◌, refl, ap, ◌∙◌, Bool, true, false, not, ◌||◌, Option, none, some, ◌∷◌, ◌++◌, Text, Bytes,
  codes, head?, length, if◌then◌else◌,
}
use meshlite.Strings.{strip_prefix, trim_end_matches, split, contains}
use meshlite.Strings.Split.{has}
use meshlite.Strings.Trim.{IsTail, trim-append, trim-append_clean, trim-IsTail, head-split-append}
use meshlite.Results.{Result, ok, err}
use meshlite.Results.{◌>>=◌}
use meshlite.Conduit.ClusterClient.{Tcp, status_line}
use meshlite.Telemetry.{TelemetryRecord}

abbrev or_https : Text → Option Text → Text
or_https base_url (some rest) = rest
or_https base_url none = elim (strip_prefix (codes "https://") base_url) [
  | some rest ↦ rest
  | none ↦ base_url
]

-- `addr`
unfoldable pub addr_of : Text → Text
addr_of base_url =
    trim_end_matches b'/' (or_https base_url (strip_prefix (codes "http://") base_url))

unfoldable pub host_port_of : Text → Text
host_port_of addr = elim (head? (split b'/' addr)) [ some host ↦ host | none ↦ addr ]

abbrev answered : Text → Result Unit
answered status_line =
    if not (contains status_line (codes " 200 ") || contains status_line (codes " 202 "))
    then err (codes "unexpected Trace response: " ++ status_line)
    else ok tt

module _ (to_vec : TelemetryRecord → Result Bytes) (decimal : ℕ → Text) where
  unfoldable pub post_record : Tcp → Text → TelemetryRecord → Result Unit
  post_record tcp base_url record_ = do
    let host_port = host_port_of (addr_of base_url)
    body ← to_vec record_
    resp ← tcp host_port (
        codes "POST /api/v1/telemetry HTTP/1.1\r\nHost: "
        ++ host_port
        ++ codes "\r\nContent-Type: application/json\r\nContent-Length: "
        ++ decimal (length body)
        ++ codes "\r\nConnection: close\r\n\r\n"
        ++ body)
    answered (status_line resp)

-- What `start` makes of the URL of Trace.
unfoldable pub trace_base : Text → Text
trace_base trace_url = trim_end_matches b'/' trace_url

abbrev pub scheme : Bool → Text
scheme true = codes "https://"
scheme false = codes "http://"

or_https-scheme :
    (secure : Bool) (rest : Text)
    → or_https (scheme secure ++ rest) (strip_prefix (codes "http://") (scheme secure ++ rest))
      ≡ rest
unfolding strip_prefix
or_https-scheme true rest = refl
or_https-scheme false rest = refl

-- From a URL of either scheme, with any path, the record goes to the host and port that the URL names,
-- provided that these are not empty and have no slash.
pub host_port_of_url :
    (secure : Bool) (x : ℕ) (host path : Text)
    → has b'/' (x ∷ host) ≡ false
    → IsTail b'/' path
    → host_port_of (addr_of (trace_base (scheme secure ++ ((x ∷ host) ++ path)))) ≡ x ∷ host
unfolding host_port_of addr_of trace_base
host_port_of_url secure x host path clean tail =
    let p = trim_end_matches b'/' path in
    let once = trim-append_clean b'/' x host path clean in
    let base =
      trim-append b'/' (scheme secure) ((x ∷ host) ++ path) (λ e. cc)
      ∙ ap (λ s. scheme secure ++ s) once in
    let again = trim-append_clean b'/' x host p clean in
    let first =
      head-split-append b'/' (x ∷ host) (trim_end_matches b'/' p) clean
        (trim-IsTail b'/' p (trim-IsTail b'/' path tail)) in
    rw (base, or_https-scheme secure ((x ∷ host) ++ p), again, host_port_of, first) refl
