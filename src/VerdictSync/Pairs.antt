-- ===== src/VerdictSync/Pairs.antt =====
-- Which writes are in the plan of step 3 of `sync` (kprobe/kprobe-userspace/src/verdict_sync.rs).
use mathlib.Core.List.{Memᴰ}
use meshlite.Base.{
  ℕ, ◌≡◌, ◌≢◌, refl, ◌⊎◌, inl, inr, true, false, List, [], ◌∷◌, arith, Text, str_eq, str_eq_iff,
  str_eq_ne, Bool-cases, mem-append_cases, mem-append_left, mem-append_right,
}
use meshlite.Word.{Endian}
use meshlite.PolicyCache.{PolicyCache}
use meshlite.VerdictSync.{Ipv4Addr, PodSnapshot, ips_of, verdict_for, packet_key}
use meshlite.VerdictSync.Writes.{Write}
use meshlite.VerdictSync.Plan.{row, block, pair_writes, plan_from, plan}

-- Why a write is in the plan.
pub record Planned (e : Endian) (policy : PolicyCache) (pods : PodSnapshot) (w : Write)
    : Type 0 where
  pub from_svc : Text
  pub to_svc : Text
  pub src : Ipv4Addr
  pub dst : Ipv4Addr
  pub differ : from_svc ≢ to_svc
  pub src_of : Memᴰ src (ips_of pods from_svc)
  pub dst_of : Memᴰ dst (ips_of pods to_svc)
  pub is : w ≡ (packet_key e src dst, verdict_for policy from_svc to_svc)

module _ (e : Endian) where
  mem-row :
      (v : ℕ) (src : Ipv4Addr) (dsts : List Ipv4Addr) {w : Write}
      → Memᴰ w (row e v src dsts)
      → (dst : Ipv4Addr) × Memᴰ dst dsts × (w ≡ (packet_key e src dst, v))
  mem-row v src [] m = elim m [ ]
  mem-row v src (dst ∷ dsts) (Memᴰ.head p) = (dst, Memᴰ.head refl, p)
  mem-row v src (dst ∷ dsts) (Memᴰ.tail m) =
      let (d, i, p) = mem-row v src dsts m in (d, Memᴰ.tail i, p)

  mem-block :
      (v : ℕ) (srcs dsts : List Ipv4Addr) {w : Write}
      → Memᴰ w (block e v srcs dsts)
      → (src : Ipv4Addr) × (dst : Ipv4Addr) × Memᴰ src srcs
        × Memᴰ dst dsts
        × (w ≡ (packet_key e src dst, v))
  mem-block v [] dsts m = elim m [ ]
  mem-block v (src ∷ srcs) dsts m = elim (mem-append_cases (row e v src dsts) _ m) [
    | inl here ↦ let (d, i, p) = mem-row v src dsts here in (src, d, Memᴰ.head refl, i, p)
    | inr later ↦ let (s, d, i, j, p) = mem-block v srcs dsts later in (s, d, Memᴰ.tail i, j, p)
  ]

  row-mem :
      (v : ℕ) (src : Ipv4Addr) {dst : Ipv4Addr} (dsts : List Ipv4Addr)
      → Memᴰ dst dsts
      → Memᴰ (packet_key e src dst, v) (row e v src dsts)
  row-mem v src [] m = elim m [ ]
  row-mem v src (d ∷ dsts) (Memᴰ.head p) = Memᴰ.head (rw p)
  row-mem v src (d ∷ dsts) (Memᴰ.tail m) = Memᴰ.tail (row-mem v src dsts m)

  block-mem :
      (v : ℕ) {src dst : Ipv4Addr} (srcs dsts : List Ipv4Addr)
      → Memᴰ src srcs
      → Memᴰ dst dsts
      → Memᴰ (packet_key e src dst, v) (block e v srcs dsts)
  block-mem v [] dsts m j = elim m [ ]
  block-mem v {src} {dst} (s ∷ srcs) dsts (Memᴰ.head p) j =
      mem-append_left (row e v s dsts) _ (rw p (row-mem v s dsts j))
  block-mem v (s ∷ srcs) dsts (Memᴰ.tail i) j =
      mem-append_right (row e v s dsts) _ (block-mem v srcs dsts i j)

  module _ (policy : PolicyCache) (pods : PodSnapshot) where
    mem-plan_from :
        (f : Text) (names : List Text) {w : Write}
        → Memᴰ w (plan_from e policy pods f names)
        → Planned e policy pods w
    mem-plan_from f [] m = elim m [ ]
    mem-plan_from f (t ∷ names) {w} m =
        elim (mem-append_cases (pair_writes e policy pods f t) _ m) [
          | inl here ↦ go (Bool-cases (str_eq f t)) here
          | inr later ↦ mem-plan_from f names later
        ]
      where
        go :
            (str_eq f t ≡ true) ⊎ (str_eq f t ≡ false)
            → Memᴰ w (pair_writes e policy pods f t)
            → Planned e policy pods w
        go (inl same) here = elim (rw same at here) [ ]
        go (inr other) here =
            let (s, d, i, j, p) = mem-block _ (ips_of pods f) (ips_of pods t) (rw other at here) in
            record {
              from_svc = f;
              to_svc = t;
              src = s;
              dst = d;
              differ = λ q. ground (arith, str_eq_iff f t);
              src_of = i;
              dst_of = j;
              is = p;
            }

    pub mem-plan :
        (froms names : List Text) {w : Write}
        → Memᴰ w (plan e policy pods froms names)
        → Planned e policy pods w
    mem-plan [] names m = elim m [ ]
    mem-plan (f ∷ froms) names m = elim (mem-append_cases (plan_from e policy pods f names) _ m) [
      | inl here ↦ mem-plan_from f names here
      | inr later ↦ mem-plan froms names later
    ]

    plan_from-mem :
        (f t : Text) (names : List Text) {w : Write}
        → Memᴰ t names
        → Memᴰ w (pair_writes e policy pods f t)
        → Memᴰ w (plan_from e policy pods f names)
    plan_from-mem f t [] m i = elim m [ ]
    plan_from-mem f t (u ∷ names) (Memᴰ.head p) i = mem-append_left _ _ (rw p at i)
    plan_from-mem f t (u ∷ names) (Memᴰ.tail m) i =
        mem-append_right (pair_writes e policy pods f u) _ (plan_from-mem f t names m i)

    -- Every pair of addresses of two services is in the plan.
    pub plan-mem :
        (f t : Text) {src dst : Ipv4Addr} (froms names : List Text)
        → f ≢ t
        → Memᴰ f froms
        → Memᴰ t names
        → Memᴰ src (ips_of pods f)
        → Memᴰ dst (ips_of pods t)
        → Memᴰ (packet_key e src dst, verdict_for policy f t) (plan e policy pods froms names)
    plan-mem f t [] names n m k i j = elim m [ ]
    plan-mem f t (g ∷ froms) names n (Memᴰ.head p) k i j =
        mem-append_left (plan_from e policy pods g names) _ (
          plan_from-mem g t names k
            (rw (← p) (rw (str_eq_ne f t n) (block-mem _ (ips_of pods f) (ips_of pods t) i j))))
    plan-mem f t (g ∷ froms) names n (Memᴰ.tail m) k i j =
        mem-append_right (plan_from e policy pods g names) _ (plan-mem f t froms names n m k i j)
