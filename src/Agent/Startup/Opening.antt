-- ===== src/Agent/Startup/Opening.antt =====
-- The agent of kprobe/kprobe-userspace/src/main.rs between its start and the first reconciliation.
use meshlite.Base.{
  ℕ, ◌≡◌, ◌≢◌, refl, Option, none, some, List, [], ◌∷◌, arith, Text, Bytes, All, some-injective,
  sym, ◌∙◌,
}
use meshlite.Results.{Result, ok, err}
use meshlite.Word.{Endian}
use meshlite.HashMap.{IsIteration}
use meshlite.Classifier.{tc_act_shot, PacketKey, TcContext, Maps, kprobe_egress}
use meshlite.Classifier.Frame.{IsFrame}
use meshlite.Classifier.Filter.{key_of}
use meshlite.Classifier.Safety.{Denied-lookup_verdict, kprobe_egress_drops_iff}
use meshlite.Bpf.{Aya, IsAya, kernel_view}
use meshlite.VerdictSync.{PodSnapshot}
use meshlite.Enforcement.{lookup_verdict-none}
use meshlite.Agent.{initial, boot}
use meshlite.Agent.Freshness.{IsStart}
use meshlite.Agent.Startup.{
  Loader, Effect, attached, spawned, reading, Script, try_, named, set_allow_all, readers, listen,
  attach_classifier, open_maps, main,
}

-- Nothing is dropped while no verdict is written and the flag says allow.
pub allow_all_passes :
    (e : Endian) (maps : Maps) (bytes : Bytes) (ctx : TcContext)
    → ((k : PacketKey) → maps.verdict_map k ≡ none)
    → maps.policy_flags 0 ≡ some 1
    → IsFrame e bytes ctx
    → (kprobe_egress e maps ctx).0 ≢ tc_act_shot
allow_all_passes e maps bytes ctx empty flag frame h =
    let d = (kprobe_egress_drops_iff e maps bytes ctx frame).0 h in
    let key = key_of e d.packet.src d.packet.dst in
    let denied = Denied-lookup_verdict maps key d.denied in
    let read = lookup_verdict-none maps key 1 (empty key) flag in ground arith

module _ (aya : Aya) (laws : IsAya aya) (e : Endian) (iter : PodSnapshot → PodSnapshot)
    (visits : IsIteration iter) where
  -- The classifier is attached while it drops nothing, and the tasks start from `boot`.
  abbrev pub IsOpen : Effect aya → Type 0
  IsOpen (attached verdicts flags) =
      (bytes : Bytes) (ctx : TcContext)
      → IsFrame e bytes ctx
      → (kprobe_egress e (kernel_view aya verdicts flags) ctx).0 ≢ tc_act_shot
  IsOpen (spawned s) = IsStart aya laws e iter visits s
  IsOpen (reading cpu_id) = Unit

  abbrev pub AllOpen : Script aya → Type 0
  AllOpen s = All IsOpen s.0

  try-AllOpen :
      {A : Type 0} (r : Result A) (next : A → Script aya)
      → ((a : A) → r ≡ ok a → AllOpen (next a))
      → AllOpen (try_ aya r next)
  unfolding try_
  try-AllOpen (ok a) next h = h a refl
  try-AllOpen (err x) next h = tt

  named-some :
      {A : Type 0} (missing mistyped : Text) (o : Option (Result A)) (a : A)
      → named aya missing mistyped o ≡ ok a
      → o ≡ some (ok a)
  named-some missing mistyped none a h = absurd (ground arith)
  named-some missing mistyped (some (ok b)) a h = ground arith
  named-some missing mistyped (some (err x)) a h = absurd (ground arith)

  set_one :
      (flags set : aya.Flags) → aya.set_flag 0 1 flags ≡ some set → aya.get_flag set 0 ≡ some 1
  set_one flags set h =
      let (g, done, one) = laws.set_flag_zero 1 flags in
      rw (← some-injective g set (sym done ∙ h)) one

  boots :
      (verdicts : aya.Verdicts) (flags set : aya.Flags)
      → aya.set_flag 0 1 flags ≡ some set
      → boot aya verdicts flags ≡ some (initial aya verdicts set)
  unfolding boot
  boots verdicts flags set h = rw (h, boot) refl

  set_allow_all-some :
      (flags set : aya.Flags) → set_allow_all aya flags ≡ ok set → aya.set_flag 0 1 flags ≡ some set
  set_allow_all-some flags set h = ground arith

  module _ (decimal : ℕ → Text) (ebpf_path : Text) (loader : Loader aya) where
    readers-AllOpen : (cpus : List ℕ) → AllOpen (readers aya decimal ebpf_path loader cpus)
    readers-AllOpen [] = tt
    readers-AllOpen (cpu_id ∷ cpus) = try-AllOpen _ _ (λ u h. (tt, readers-AllOpen cpus))

    listen-AllOpen : AllOpen (listen aya decimal ebpf_path loader)
    listen-AllOpen = try-AllOpen _ _ (λ u h. try-AllOpen _ _ (λ cpus k. readers-AllOpen cpus))

    attach_classifier-AllOpen :
        (verdicts : aya.Verdicts) (flags set : aya.Flags)
        → ((k : PacketKey) → aya.get verdicts k ≡ none)
        → aya.set_flag 0 1 flags ≡ some set
        → AllOpen (attach_classifier aya decimal ebpf_path loader verdicts set)
    attach_classifier-AllOpen verdicts flags set empty h = try-AllOpen _ _ (λ u i.
        try-AllOpen _ _ (λ v j. try-AllOpen _ _ (λ w k. (
          λ bytes ctx frame.
              allow_all_passes e (kernel_view aya verdicts set) bytes ctx empty
                (set_one flags set h) frame,
          (
            record {
              verdicts = verdicts;
              flags = flags;
              booted = boots verdicts flags set h;
              empty = empty;
            },
            listen-AllOpen,
          ),
        ))))

    open_maps-AllOpen :
        ((m : aya.Verdicts)
          → loader.verdict_map ≡ some (ok m)
          → (k : PacketKey) → aya.get m k ≡ none)
        → AllOpen (open_maps aya decimal ebpf_path loader)
    open_maps-AllOpen fresh = try-AllOpen _ _ (λ verdicts i. try-AllOpen _ _ (λ flags j.
        try-AllOpen _ _ (λ set h.
          attach_classifier-AllOpen verdicts flags set
            (fresh verdicts (named-some _ _ _ verdicts i)) (set_allow_all-some flags set h))))

    -- In whatever way the calls of `main` succeed or fail: when the classifier is attached, nothing is
    -- dropped; and the tasks only start in the state that `boot` leaves. The verdict map of a loaded
    -- object is taken to be empty.
    pub main-AllOpen :
        ((m : aya.Verdicts)
          → loader.verdict_map ≡ some (ok m)
          → (k : PacketKey) → aya.get m k ≡ none)
        → AllOpen (main aya decimal ebpf_path loader)
    unfolding main
    main-AllOpen fresh = try-AllOpen _ _ (λ u i. try-AllOpen _ _ (λ v j. open_maps-AllOpen fresh))
