-- ===== src/VerdictSync/Plan.antt =====
-- Step 3 of `sync` (kprobe/kprobe-userspace/src/verdict_sync.rs) as one list of writes: the nested
-- loops go through the pairs of services, and for each through the pairs of addresses.
use meshlite.Base.{
  ℕ, ◌≡◌, refl, sym, ap, ◌∙◌, inl, inr, List, [], ◌∷◌, ◌++◌, Text, str_eq, Bool-cases,
  if◌then◌else◌,
}
use meshlite.Word.{Endian}
use meshlite.PolicyCache.{PolicyCache}
use meshlite.Bpf.{Aya}
use meshlite.VerdictSync.{
  Ipv4Addr, PodSnapshot, ips_of, verdict_for, packet_key, Progress, write_row, write_block,
  write_from, write_all,
}
use meshlite.VerdictSync.Writes.{Write, run_writes, run_writes-append}

module _ (e : Endian) where
  abbrev pub row : ℕ → Ipv4Addr → List Ipv4Addr → List Write
  row v src [] = []
  row v src (dst ∷ dsts) = (packet_key e src dst, v) ∷ row v src dsts

  abbrev pub block : ℕ → List Ipv4Addr → List Ipv4Addr → List Write
  block v [] dsts = []
  block v (src ∷ srcs) dsts = row v src dsts ++ block v srcs dsts

  module _ (policy : PolicyCache) (pods : PodSnapshot) where
    abbrev pub pair_writes : Text → Text → List Write
    pair_writes f t =
        if str_eq f t then [] else block (verdict_for policy f t) (ips_of pods f) (ips_of pods t)

    abbrev pub plan_from : Text → List Text → List Write
    plan_from f [] = []
    plan_from f (t ∷ names) = pair_writes f t ++ plan_from f names

    abbrev pub plan : List Text → List Text → List Write
    plan [] names = []
    plan (f ∷ rest) names = plan_from f names ++ plan rest names

module _ (aya : Aya) (e : Endian) where
  write_row-row :
      (v : ℕ) (src : Ipv4Addr) (dsts : List Ipv4Addr) (p : Progress aya)
      → write_row aya e v src dsts p ≡ run_writes aya (row e v src dsts) p
  unfolding write_row
  write_row-row v src [] p = refl
  write_row-row v src (dst ∷ dsts) p = write_row-row v src dsts _

  write_block-block :
      (v : ℕ) (srcs dsts : List Ipv4Addr) (p : Progress aya)
      → write_block aya e v srcs dsts p ≡ run_writes aya (block e v srcs dsts) p
  unfolding write_block
  write_block-block v [] dsts p = refl
  write_block-block v (src ∷ srcs) dsts p =
      write_block-block v srcs dsts (write_row aya e v src dsts p)
      ∙ ap (run_writes aya (block e v srcs dsts)) (write_row-row v src dsts p)
      ∙ sym (run_writes-append aya (row e v src dsts) (block e v srcs dsts) p)

  module _ (policy : PolicyCache) (pods : PodSnapshot) where
    write_from-plan_from :
        (f : Text) (names : List Text) (p : Progress aya)
        → write_from aya e policy pods f names p
          ≡ run_writes aya (plan_from e policy pods f names) p
    unfolding write_from
    write_from-plan_from f [] p = refl
    write_from-plan_from f (t ∷ names) p = elim (Bool-cases (str_eq f t)) [
      | inl same ↦ rw same (write_from-plan_from f names p)
      | inr other ↦
          let b = block e (verdict_for policy f t) (ips_of pods f) (ips_of pods t) in
          rw other (
            write_from-plan_from f names _
            ∙ ap (run_writes aya (plan_from e policy pods f names))
                (write_block-block _ (ips_of pods f) (ips_of pods t) p)
            ∙ sym (run_writes-append aya b (plan_from e policy pods f names) p))
    ]

    -- The nested loops make the writes of the plan, in its order.
    pub write_all-plan :
        (froms names : List Text) (p : Progress aya)
        → write_all aya e policy pods froms names p
          ≡ run_writes aya (plan e policy pods froms names) p
    unfolding write_all
    write_all-plan [] names p = refl
    write_all-plan (f ∷ froms) names p =
        write_all-plan froms names (write_from aya e policy pods f names p)
        ∙ ap (run_writes aya (plan e policy pods froms names)) (write_from-plan_from f names p)
        ∙ sym (
            run_writes-append aya (plan_from e policy pods f names) (plan e policy pods froms names)
              p)
