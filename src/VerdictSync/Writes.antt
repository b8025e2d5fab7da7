-- ===== src/VerdictSync/Writes.antt =====
-- The effect of a sequence of writes, and of step 2, on the map of
-- kprobe/kprobe-userspace/src/verdict_sync.rs.
use mathlib.Core.List.{Memᴰ}
use meshlite.Base.{
  ℕ, ◌+◌, ◌≤◌, ◌≡◌, refl, ◌∙◌, ap, ◌⊎◌, inl, inr, false, Option, none, some, List, [], ◌∷◌, ◌++◌,
  arith, length, if◌then◌else◌, Option-cases, Bool-cases,
}
use meshlite.Classifier.{PacketKey}
use meshlite.Bpf.{Aya, IsAya, key_eq, key_eq_iff, max_entries}
use meshlite.VerdictSync.{Progress, good_keys, remove_all, clear, write}

abbrev pub Write : Type 0
Write = PacketKey × ℕ

-- What the last write to `j` leaves, and `o` if there is none.
abbrev pub last_write : List Write → PacketKey → Option ℕ → Option ℕ
last_write [] j o = o
last_write ((k, v) ∷ ws) j o = last_write ws j (if key_eq k j then some v else o)

pub last_write_same :
    (ws : List Write) (j : PacketKey) (v : ℕ) (o : Option ℕ)
    → ((w : ℕ) → Memᴰ (j, w) ws → w ≡ v)
    → Memᴰ (j, v) ws ⊎ (o ≡ some v)
    → last_write ws j o ≡ some v
last_write_same [] j v o all (inl m) = elim m [ ]
last_write_same [] j v o all (inr e) = e
last_write_same ((k, u) ∷ ws) j v o all h = elim (Bool-cases (key_eq k j)) [
  | inl same ↦
      let kj = (key_eq_iff k j).0 same in
      let uv = all u (Memᴰ.head cc) in
      last_write_same ws j v _ (λ w m. all w (Memᴰ.tail m)) (inr (rw same (ap some uv)))
  | inr other ↦ last_write_same ws j v _ (λ w m. all w (Memᴰ.tail m)) (rw other (go other h))
]
  where
    go :
        key_eq k j ≡ false
        → Memᴰ (j, v) ((k, u) ∷ ws) ⊎ (o ≡ some v)
        → Memᴰ (j, v) ws ⊎ (o ≡ some v)
    go other (inl (Memᴰ.head e)) = absurd (ground (arith, key_eq_iff k j))
    go other (inl (Memᴰ.tail m)) = inl m
    go other (inr e) = inr e

pub last_write_none :
    (ws : List Write) (j : PacketKey) (o : Option ℕ)
    → ((w : ℕ) → Memᴰ (j, w) ws → ⊥)
    → last_write ws j o ≡ o
last_write_none [] j o never = refl
last_write_none ((k, u) ∷ ws) j o never = elim (Bool-cases (key_eq k j)) [
  | inl same ↦ absurd (never u (Memᴰ.head (ground (arith, key_eq_iff k j))))
  | inr other ↦ rw other (last_write_none ws j o (λ w m. never w (Memᴰ.tail m)))
]

module _ (aya : Aya) where
  abbrev pub run_writes : List Write → Progress aya → Progress aya
  run_writes [] p = p
  run_writes ((k, v) ∷ ws) p = run_writes ws (write aya k v p)

  pub run_writes-append :
      (xs ys : List Write) (p : Progress aya)
      → run_writes (xs ++ ys) p ≡ run_writes ys (run_writes xs p)
  run_writes-append [] ys p = refl
  run_writes-append ((k, v) ∷ xs) ys p = run_writes-append xs ys (write aya k v p)

  module _ (laws : IsAya aya) where
    open aya use {Verdicts, get, size}

    -- One write into a map that is not full.
    write_effect :
        (k j : PacketKey) (v : ℕ) (p : Progress aya)
        → size p.verdicts + 1 ≤ max_entries
        → ((write aya k v p).entry_count ≡ p.entry_count + 1)
          × (size (write aya k v p).verdicts ≤ size p.verdicts + 1)
          × (get (write aya k v p).verdicts j ≡ (if key_eq k j then some v else get p.verdicts j))
    unfolding write
    write_effect k j v p room = elim (Option-cases (aya.insert k v p.verdicts)) [
      | inl full ↦ absurd (omega (arith, laws.insert_full k v p.verdicts full))
      | inr (m, done) ↦
          rw (done, write)
            (refl, laws.size-insert k v p.verdicts m done, laws.get-insert k j v p.verdicts m done)
    ]

    -- Writes that fit in the map all succeed, and each key has what was written last.
    pub run_writes_effect :
        (ws : List Write) (j : PacketKey) (p : Progress aya)
        → size p.verdicts + length ws ≤ max_entries
        → ((run_writes ws p).entry_count ≡ p.entry_count + length ws)
          × (get (run_writes ws p).verdicts j ≡ last_write ws j (get p.verdicts j))
    run_writes_effect [] j p room = (omega arith, refl)
    run_writes_effect ((k, v) ∷ ws) j p room =
        let (counted, sized, read) = write_effect k j v p (omega arith) in
        let (counted', read') = run_writes_effect ws j (write aya k v p) (omega arith) in
        (omega arith, read' ∙ ap (last_write ws j) read)

    get-remove_all :
        (ks : List PacketKey) (j : PacketKey) (m : Verdicts)
        → Memᴰ j ks ⊎ (get m j ≡ none)
        → get (remove_all aya ks m) j ≡ none
    unfolding remove_all
    get-remove_all [] j m (inl i) = elim i [ ]
    get-remove_all [] j m (inr e) = e
    get-remove_all (k ∷ ks) j m h = elim (Option-cases (aya.remove k m)) [
      | inl missing ↦ rw missing (get-remove_all ks j m (go missing h))
      | inr (n, done) ↦ rw done (get-remove_all ks j n (go' n done h))
    ]
      where
        go :
            aya.remove k m ≡ none
            → Memᴰ j (k ∷ ks) ⊎ (get m j ≡ none)
            → Memᴰ j ks ⊎ (get m j ≡ none)
        go missing (inl (Memᴰ.head e)) = inr (ap (get m) e ∙ laws.remove_missing k m missing)
        go missing (inl (Memᴰ.tail i)) = inl i
        go missing (inr e) = inr e

        go' :
            (n : Verdicts)
            → aya.remove k m ≡ some n
            → Memᴰ j (k ∷ ks) ⊎ (get m j ≡ none)
            → Memᴰ j ks ⊎ (get n j ≡ none)
        go' n done (inl (Memᴰ.tail i)) = inl i
        go' n done (inl (Memᴰ.head e)) =
            inr (ground (arith, laws.get-remove k j m n done, key_eq_iff k j))
        go' n done (inr e) = inr (ground (arith, laws.get-remove k j m n done))

    mem-good_keys :
        (k : PacketKey) (ks : List (Option PacketKey))
        → Memᴰ (some k) ks
        → Memᴰ k (good_keys aya ks)
    unfolding good_keys
    mem-good_keys k [] i = elim i [ ]
    mem-good_keys k (none ∷ ks) (Memᴰ.head e) = absurd cc
    mem-good_keys k (none ∷ ks) (Memᴰ.tail i) = mem-good_keys k ks i
    mem-good_keys k (some j ∷ ks) (Memᴰ.head e) = Memᴰ.head cc
    mem-good_keys k (some j ∷ ks) (Memᴰ.tail i) = Memᴰ.tail (mem-good_keys k ks i)

    -- Step 2 leaves no key in the map.
    pub clear_empty : (m : Verdicts) (k : PacketKey) → get (clear aya m) k ≡ none
    unfolding clear
    clear_empty m k =
        get-remove_all (good_keys aya (aya.keys m)) k m (elim (Option-cases (get m k)) [
          | inl absent ↦ inr absent
          | inr (v, there) ↦ inl (mem-good_keys k (aya.keys m) (laws.keys_all k m there))
        ])
