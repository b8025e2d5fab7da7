-- ===== src/VerdictSync/Interrupted.antt =====
-- The verdict map while `sync` (kprobe/kprobe-userspace/src/verdict_sync.rs) is at work: each removal and
-- each insertion is one system call, between which the classifier reads the map.
use mathlib.Core.List.{Memᴰ}
use meshlite.Base.{
  ℕ, zero, suc, ◌≡◌, refl, sym, ap, subst, ◌∙◌, ◌⊎◌, inl, inr, none, some, List, [], ◌∷◌, ◌++◌, map,
  take, arith, Option-cases,
}
use meshlite.Word.{Endian}
use meshlite.Classifier.{PacketKey}
use meshlite.PolicyCache.{PolicyCache}
use meshlite.Bpf.{Aya, IsAya}
use meshlite.VerdictSync.{
  PodSnapshot, Progress, good_keys, remove_all, write, clear, svc_names, populate, sync,
}
use meshlite.VerdictSync.Writes.{Write, run_writes}
use meshlite.VerdictSync.Pairs.{Planned, mem-plan}
use meshlite.VerdictSync.Plan.{plan, write_all-plan}
use meshlite.VerdictSync.Justified.{Only, write-Only}

-- One call into the kernel.
pub data Call : Type 0 where
  removal : PacketKey → Call
  insertion : Write → Call

module _ (aya : Aya) where
  -- A call that fails leaves the map.
  abbrev pub perform : Call → aya.Verdicts → aya.Verdicts
  perform (removal k) m = elim (aya.remove k m) [ some n ↦ n | none ↦ m ]
  perform (insertion (k, v)) m = elim (aya.insert k v m) [ some n ↦ n | none ↦ m ]

  abbrev pub perform_all : List Call → aya.Verdicts → aya.Verdicts
  perform_all [] m = m
  perform_all (call ∷ calls) m = perform_all calls (perform call m)

  perform_all-append :
      (xs ys : List Call) (m : aya.Verdicts)
      → perform_all (xs ++ ys) m ≡ perform_all ys (perform_all xs m)
  perform_all-append [] ys m = refl
  perform_all-append (x ∷ xs) ys m = perform_all-append xs ys (perform x m)

  removals :
      (ks : List PacketKey) (m : aya.Verdicts)
      → perform_all (map removal ks) m ≡ remove_all aya ks m
  unfolding remove_all
  removals [] m = refl
  removals (k ∷ ks) m = removals ks (perform (removal k) m)

  write-perform :
      (k : PacketKey) (v : ℕ) (p : Progress aya)
      → (write aya k v p).verdicts ≡ perform (insertion (k, v)) p.verdicts
  unfolding write
  write-perform k v p = elim (Option-cases (aya.insert k v p.verdicts)) [
    | inl full ↦ rw (full, write, perform) refl
    | inr (m, done) ↦ rw (done, write, perform) refl
  ]

  insertions :
      (ws : List Write) (p : Progress aya)
      → perform_all (map insertion ws) p.verdicts ≡ (run_writes aya ws p).verdicts
  insertions [] p = refl
  insertions ((k, v) ∷ ws) p =
      ap (perform_all (map insertion ws)) (sym (write-perform k v p))
      ∙ insertions ws (write aya k v p)

  module _ (laws : IsAya aya) (P : PacketKey → ℕ → Type 0) where
    -- What a call inserts is as `P` says.
    abbrev Allowed : Call → Type 0
    Allowed (removal k) = Unit
    Allowed (insertion (k, v)) = P k v

    perform-Only :
        (call : Call) (m : aya.Verdicts)
        → Allowed call
        → Only aya laws P m
        → Only aya laws P (perform call m)
    perform-Only (removal k) m allowed only = elim (Option-cases (aya.remove k m)) [
      | inl missing ↦ rw (missing, perform) only
      | inr (n, done) ↦
          rw (done, perform) (λ j v h. only j v (ground (arith, laws.get-remove k j m n done)))
    ]
    perform-Only (insertion (k, v)) m allowed only =
        let p : Progress aya = record { verdicts = m; entry_count = 0 } in
        rw (← write-perform k v p) (write-Only aya laws P k v p allowed only)

    pub take-Only :
        (n : ℕ) (calls : List Call) (m : aya.Verdicts)
        → ((call : Call) → Memᴰ call calls → Allowed call)
        → Only aya laws P m
        → Only aya laws P (perform_all (take n calls) m)
    take-Only zero calls m all only = only
    take-Only (suc n) [] m all only = only
    take-Only (suc n) (call ∷ calls) m all only =
        take-Only n calls (perform call m) (λ c i. all c (Memᴰ.tail i))
          (perform-Only call m (all call (Memᴰ.head refl)) only)

    calls-Allowed :
        (ks : List PacketKey) (ws : List Write)
        → ((k : PacketKey) (v : ℕ) → Memᴰ (k, v) ws → P k v)
        → (call : Call) → Memᴰ call (map removal ks ++ map insertion ws)
        → Allowed call
    calls-Allowed [] [] all call i = elim i [ ]
    calls-Allowed [] ((k, v) ∷ ws) all call (Memᴰ.head e) =
        subst Allowed (sym e) (all k v (Memᴰ.head refl))
    calls-Allowed [] ((k, v) ∷ ws) all call (Memᴰ.tail i) =
        calls-Allowed [] ws (λ j w m. all j w (Memᴰ.tail m)) call i
    calls-Allowed (k ∷ ks) ws all call (Memᴰ.head e) = subst Allowed (sym e) tt
    calls-Allowed (k ∷ ks) ws all call (Memᴰ.tail i) = calls-Allowed ks ws all call i

module _ (aya : Aya) (e : Endian) (iter : PodSnapshot → PodSnapshot) (policy : PolicyCache)
    (pods : PodSnapshot) where
  -- The calls of `sync`: the keys that are enumerated are removed, the pairs of addresses inserted.
  abbrev pub calls : aya.Verdicts → List Call
  calls m =
      let names = svc_names aya e iter policy pods in
      map removal (good_keys aya (aya.keys m)) ++ map insertion (plan e policy pods names names)

  -- The verdicts after some of them.
  abbrev pub interrupted : ℕ → aya.Verdicts → aya.Verdicts
  interrupted n m = perform_all aya (take n (calls m)) m

  -- The removal of each key that is enumerated and then the insertion of each planned pair, one call into
  -- the kernel after the other, leave in the verdict map what `sync` leaves.
  pub perform_all-calls :
      (m : aya.Verdicts) (flags : aya.Flags)
      → perform_all aya (calls m) m ≡ (sync aya e iter policy pods m flags).0.verdicts
  unfolding sync populate clear
  perform_all-calls m flags =
      let ks = good_keys aya (aya.keys m) in
      let names = svc_names aya e iter policy pods in
      let ws = plan e policy pods names names in
      let start : Progress aya = record { verdicts = clear aya m; entry_count = 0 } in
      perform_all-append aya (map removal ks) (map insertion ws) m
      ∙ ap (perform_all aya (map insertion ws)) (removals aya ks m)
      ∙ insertions aya ws start
      ∙ sym (
          ap (λ (p : Progress aya). p.verdicts)
            (write_all-plan aya e policy pods names names start))

  -- At any moment of `sync`, an entry stood in the map before or is a planned one.
  pub interrupted-Only :
      (laws : IsAya aya) (n : ℕ) (m : aya.Verdicts) (key : PacketKey) (v : ℕ)
      → aya.get (interrupted n m) key ≡ some v
      → (aya.get m key ≡ some v) ⊎ Planned e policy pods (key, v)
  interrupted-Only laws n m =
      let names = svc_names aya e iter policy pods in
      let P : PacketKey → ℕ → Type 0 =
        λ k w. (aya.get m k ≡ some w) ⊎ Planned e policy pods (k, w) in
      take-Only aya laws P n (calls m) m
        (calls-Allowed aya laws P (good_keys aya (aya.keys m)) (plan e policy pods names names)
          (λ k w i. inr (mem-plan e policy pods names names i)))
        (λ k w h. inl h)
