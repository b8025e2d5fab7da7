-- ===== src/Reader/Services.antt =====
-- The names that `resolve_service` of kprobe/kprobe-userspace/src/main.rs gives to addresses.
use mathlib.Core.List.{Memᴰ}
use mathlib.Core.List.Permᴰ
use meshlite.Base.{
  ◌≡◌, refl, ap, ◌∙◌, ◌⊎◌, inl, inr, true, false, none, some, List, [], ◌∷◌, Text, Bool-cases,
  Option-cases, mem-perm,
}
use meshlite.HashMap
use meshlite.HashMap.{IsIteration, IsUnique}
use meshlite.VerdictSync.{Ipv4Addr, PodSnapshot, ips_of}
use meshlite.PodWatcher.Snapshot.{has, known}
use meshlite.Reader.{unknown, first_service, resolve_service}

-- The first entry that has the address, or none has it.
abbrev Search : PodSnapshot → Ipv4Addr → Text → Type 0
Search l ip service =
    ((ips : List Ipv4Addr) × Memᴰ (service, ips) l × (has ip ips ≡ true))
    ⊎ ((service ≡ unknown)
        × ((svc : Text) (ips : List Ipv4Addr) → Memᴰ (svc, ips) l → has ip ips ≡ false))

first_service-Search : (l : PodSnapshot) (ip : Ipv4Addr) → Search l ip (first_service l ip)
unfolding first_service
first_service-Search [] ip = inr (refl, λ svc ips m. elim m [ ])
first_service-Search ((k, js) ∷ l) ip = elim (Bool-cases (has ip js)) [
  | inl here ↦ rw here (inl (js, Memᴰ.head refl, here))
  | inr away ↦ rw away (elim (first_service-Search l ip) [
    | inl (ips, m, h) ↦ inl (ips, Memᴰ.tail m, h)
    | inr (u, none_has) ↦ inr (u, λ svc ips m. in_rest svc ips away none_has m)
  ])
]
  where
    in_rest :
        (svc : Text) (ips : List Ipv4Addr)
        → has ip js ≡ false
        → ((svc : Text) (ips : List Ipv4Addr) → Memᴰ (svc, ips) l → has ip ips ≡ false)
        → Memᴰ (svc, ips) ((k, js) ∷ l)
        → has ip ips ≡ false
    in_rest svc ips away none_has (Memᴰ.head e) =
        ap (λ (x : Text × List Ipv4Addr). has ip x.1) e ∙ away
    in_rest svc ips away none_has (Memᴰ.tail m) = none_has svc ips m

known_listed :
    (snap : PodSnapshot) (svc : Text) (ip : Ipv4Addr) {ips : List Ipv4Addr}
    → HashMap.get svc snap ≡ some ips
    → known snap svc ip ≡ has ip ips
unfolding known ips_of
known_listed snap svc ip h = rw (h, known, ips_of) refl

known_absent :
    (snap : PodSnapshot) (svc : Text) (ip : Ipv4Addr)
    → HashMap.get svc snap ≡ none
    → known snap svc ip ≡ false
unfolding known ips_of
known_absent snap svc ip h = rw (h, known, ips_of) refl

-- Whatever the iteration order of a snapshot without repeated keys, the name given to an address is that of a service to which the
-- snapshot gives the address, or it is `unknown` and no service has the address.
pub resolve_service_lem :
    (iter : PodSnapshot → PodSnapshot) (snapshot : PodSnapshot) (ip : Ipv4Addr)
    → IsIteration iter
    → IsUnique snapshot
    → (known snapshot (resolve_service iter snapshot ip) ip ≡ true)
      ⊎ ((resolve_service iter snapshot ip ≡ unknown)
          × ((svc : Text) → known snapshot svc ip ≡ false))
unfolding resolve_service
resolve_service_lem iter snapshot ip visits unique =
    elim (first_service-Search (iter snapshot) ip) [
      | inl (ips, m, h) ↦
          let there =
            HashMap.get_of_mem (first_service (iter snapshot) ip) snapshot unique
              (mem-perm (visits snapshot) m) in
          inl (known_listed snapshot _ ip there ∙ h)
      | inr (u, none_has) ↦ inr (
        u,
        λ svc. elim (Option-cases (HashMap.get svc snapshot)) [
          | inl absent ↦ known_absent snapshot svc ip absent
          | inr (ips, there) ↦
              known_listed snapshot svc ip there
              ∙ none_has svc ips
                  (mem-perm (Permᴰ.symm (visits snapshot)) (HashMap.mem_of_get svc snapshot there))
        ],
      )
    ]
