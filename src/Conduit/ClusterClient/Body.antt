-- ===== src/Conduit/ClusterClient/Body.antt =====
-- What conduit/src/cluster_client.rs takes out of a response, and what the gateway holds after
-- enrolment and polling.
use mathlib.Core.Option
use mathlib.Core.List.{Permᴰ, Memᴰ}
use meshlite.Base.{
  ℕ, suc, ◌+◌, ◌≡◌, refl, ap, ◌∙◌, inl, inr, true, some, List, [], ◌∷◌, ◌++◌, arith, Text, Bytes,
  codes, zero, ◌≤◌, take, map, length-append, Bool-cases, Option-cases, length, drop, head?,
  length-perm, mem-perm,
}
use meshlite.HashMap
use meshlite.HashMap.{Entries, IsIteration}
use meshlite.Strings.{position, starts_with, contains, trim}
use meshlite.Strings.Utf8.{from_utf8}
use meshlite.CertStore
use meshlite.CertStore.{CertStore, StoredCert, first_cert}
use meshlite.PolicyCache
use meshlite.PolicyCache.{PolicyCache}
use meshlite.Conduit.{Result, ok, err}
use meshlite.Conduit.ClusterClient.{
  EnrollResponse, apply_enroll, PolicyResponse, PolicySnapshot, crlf2, separator, status_line,
  extract_body, Tcp, fetch_policy, apply_fetched, poll,
}

starts_with-append :
    (s t p : Bytes) → length p ≤ length s → starts_with (s ++ t) p ≡ starts_with s p
unfolding starts_with
starts_with-append s t [] h = ground arith
starts_with-append [] t (c ∷ p) h = absurd (omega arith)
starts_with-append (x ∷ s) t (c ∷ p) h = ground (arith, starts_with-append s t p (omega arith))

starts_with-le : (s p : Bytes) → starts_with s p ≡ true → length p ≤ length s
unfolding starts_with
starts_with-le s [] h = omega arith
starts_with-le [] (c ∷ p) h = cc
starts_with-le (x ∷ s) (c ∷ p) h = ground (arith, starts_with-le s p)

position-le : (p s : Bytes) {n : ℕ} → position p s ≡ some n → n + length p ≤ length s
unfolding position
position-le p [] h = cc
position-le p (x ∷ s) {n} h = elim (Bool-cases (starts_with (x ∷ s) p)) [
  | inl here ↦ ground (arith, starts_with-le (x ∷ s) p here)
  | inr not_here ↦ elim (Option-cases (position p s)) [
    | inl absent ↦ ground arith
    | inr (m, later) ↦ ground (arith, position-le p s later)
  ]
]

-- What is found first in a string is found there in every longer one.
position-append : (p s t : Bytes) {n : ℕ} → position p s ≡ some n → position p (s ++ t) ≡ some n
unfolding position
position-append p [] t h = cc
position-append p (x ∷ s) t {n} h = elim (Bool-cases (starts_with (x ∷ s) p)) [
  | inl here ↦ ground (arith, starts_with-append (x ∷ s) t p (starts_with-le (x ∷ s) p here))
  | inr not_here ↦ elim (Option-cases (position p s)) [
    | inl absent ↦ ground arith
    | inr (m, later) ↦
        let fits = position-le p s later in
        let same = starts_with-append (x ∷ s) t p (omega arith) in
        ground (arith, position-append p s t later)
  ]
]

drop-append : (s t : Bytes) → drop (length s) (s ++ t) ≡ t
drop-append [] t = refl
drop-append (x ∷ s) t = drop-append s t

take-append : (n : ℕ) (s t : Bytes) → n ≤ length s → take n (s ++ t) ≡ take n s
take-append zero s t h = refl
take-append (suc n) [] t h = absurd (omega arith)
take-append (suc n) (x ∷ s) t h = ap (◌∷◌ x) (take-append n s t (omega arith))

drop_head : (head body : Bytes) → drop (length head + 4) ((head ++ crlf2) ++ body) ≡ body
drop_head head body =
    let all : length (head ++ crlf2) ≡ length head + 4 = length-append head crlf2 in
    rw (← all) (drop-append (head ++ crlf2) body)

status_line-append :
    (s t : Bytes) {n : ℕ} → position (codes "\n") s ≡ some n → status_line (s ++ t) ≡ status_line s
unfolding status_line trim from_utf8
status_line-append s t {n} e =
    let fits = position-le (codes "\n") s e in
    let long = position-append (codes "\n") s t e in
    rw (e, long, take-append n s t (omega arith)) refl

separated : (raw : Bytes) {n : ℕ} → position crlf2 raw ≡ some n → separator raw ≡ some (n + 4)
unfolding separator
separated raw e = rw (e, separator) refl

checked_ok :
    (raw : Bytes) {n : ℕ}
    → separator raw ≡ some n
    → contains (status_line raw) (codes "200") ≡ true
    → extract_body raw ≡ ok (drop n raw)
unfolding extract_body
checked_ok raw e h = rw (e, h) refl

-- A response whose head has no empty line before the one that ends it, and has 200 in its first line,
-- gives exactly the bytes behind that line, whatever they are.
pub extract_body-append :
    (head body : Bytes) {n : ℕ}
    → position crlf2 (head ++ crlf2) ≡ some (length head)
    → position (codes "\n") (head ++ crlf2) ≡ some n
    → contains (status_line (head ++ crlf2)) (codes "200") ≡ true
    → extract_body ((head ++ crlf2) ++ body) ≡ ok body
extract_body-append head body e f h =
    let there = position-append crlf2 (head ++ crlf2) body e in
    let line = status_line-append (head ++ crlf2) body f in
    checked_ok ((head ++ crlf2) ++ body) (separated _ there) (rw line h)
    ∙ ap (λ b. ok b) (drop_head head body)

-- The last policy that a tick fetched, or the one before.
abbrev pub last_fetched : List (Result PolicySnapshot) → PolicyCache → PolicyCache
last_fetched [] cache = cache
last_fetched (err e ∷ rest) cache = last_fetched rest cache
last_fetched (ok snap ∷ rest) cache =
    last_fetched rest (record {
      rules = snap.rules;
      default_allow = snap.default_allow;
      mtls_mode = snap.mtls_mode;
    })

-- The poll leaves the policy of the last tick that fetched one; a tick that fails changes nothing.
pub poll_lem :
    (parse : Bytes → Result PolicyResponse) (addr : Text) (ticks : List Tcp) (cache : PolicyCache)
    → poll parse addr ticks cache
      ≡ last_fetched (map (λ tcp. fetch_policy parse tcp addr) ticks) cache
unfolding poll PolicyCache.update
poll_lem parse addr [] cache = refl
poll_lem parse addr (tcp ∷ ticks) cache =
    go (fetch_policy parse tcp addr) (λ c. poll_lem parse addr ticks c)
  where
    go :
        (fetched : Result PolicySnapshot)
        → ((c : PolicyCache)
            → poll parse addr ticks c ≡ last_fetched (map (λ t. fetch_policy parse t addr) ticks) c)
        → poll parse addr ticks (apply_fetched parse fetched cache)
          ≡ last_fetched (fetched ∷ map (λ t. fetch_policy parse t addr) ticks) cache
    go (err e) later = later cache
    go (ok snap) later = later (apply_fetched parse (ok snap) cache)

first_of_one :
    {A : Type 0} (a : Text × A) (xs : List (Text × A))
    → Permᴰ xs (a ∷ [])
    → Option.map (λ e. e.1) (head? xs) ≡ some a.1
first_of_one a [] p = absurd (omega (arith, length-perm p))
first_of_one {A = A} a (x ∷ xs) p = elim (mem-perm p (Memᴰ.head refl)) [
  | Memᴰ.head e ↦ ap (λ (y : Text × A). some y.1) e
  | Memᴰ.tail m ↦ elim m [ ]
]

-- After enrolment the gateway presents the enrolled certificate and key and trusts the enrolled root,
-- in whichever order the store iterates.
pub first_cert-apply_enroll :
    (iter : Entries StoredCert → Entries StoredCert) (resp : EnrollResponse) (cluster_id : Text)
    → IsIteration iter
    → first_cert iter (apply_enroll CertStore.new resp cluster_id)
      ≡ some (record {
        leaf_cert_pem = resp.cert_pem;
        root_ca_pem = resp.root_ca_pem;
        private_key_pem = resp.key_pem;
      })
unfolding first_cert apply_enroll CertStore.update HashMap.insert
first_cert-apply_enroll iter resp cluster_id visits =
    first_of_one _ (iter (apply_enroll CertStore.new resp cluster_id).certs) (visits _)
