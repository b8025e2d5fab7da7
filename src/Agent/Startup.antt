-- ===== src/Agent/Startup.antt =====
-- `main` of kprobe/kprobe-userspace/src/main.rs, with the answers of the calls on aya and on the kernel as
-- its input. Of an error it keeps the outermost context, which is what it prints first.
pub mod Opening
use meshlite.Base.{
  ℕ, Bool, true, false, Option, none, some, List, [], ◌∷◌, ◌++◌, Text, codes, if◌then◌else◌,
}
use meshlite.Results.{Result, ok, err}
use meshlite.Strings.{contains}
use meshlite.Bpf.{Aya}
use meshlite.Agent.{Agent, initial}

-- `context` of anyhow
abbrev pub context : {A : Type 0} → Text → Result A → Result A
context c (ok a) = ok a
context c (err e) = err c

module _ (aya : Aya) where
  -- A map or a program that is asked for by name may be missing, or of another type.
  pub record Loader : Type 0 where
    pub load_file : Result Unit
    pub qdisc_add_clsact : Result Unit
    pub verdict_map : Option (Result aya.Verdicts)
    pub policy_flags : Option (Result aya.Flags)
    pub program : Option (Result Unit)
    pub load : Result Unit
    pub attach : Result Unit
    pub packet_events : Option (Result Unit)
    pub online_cpus : Result (List ℕ)
    pub open_buffer : ℕ → Result Unit
    pub ctrl_c : Result Unit

  -- The classifier is attached while the maps are these; the tasks start in this state; a reader starts
  -- on a CPU.
  pub data Effect : Type 0 where
    attached : aya.Verdicts → aya.Flags → Effect
    spawned : Agent aya → Effect
    reading : ℕ → Effect

  abbrev pub Script : Type 0
  Script = List Effect × Result Unit

  -- A step with `?` on its answer.
  unfoldable pub try_ : {A : Type 0} → Result A → (A → Script) → Script
  try_ (ok a) next = next a
  try_ (err e) next = ([], err e)

  abbrev pub act : Effect → Script → Script
  act effect s = (effect ∷ s.0, s.1)

  -- What `take_map` or `program_mut` with its `context`, then `try_from` with its own, gives.
  abbrev pub named : {A : Type 0} → Text → Text → Option (Result A) → Result A
  named missing mistyped none = err missing
  named missing mistyped (some r) = context mistyped r

  abbrev pub enumerated : Result (List ℕ) → Result (List ℕ)
  enumerated (ok cpus) = ok cpus
  enumerated (err e) = err (codes "Failed to enumerate online CPUs: " ++ e)

  -- The error that the qdisc is there already is passed over.
  abbrev pub clsact : Result Unit → Result Unit
  clsact (ok u) = ok u
  clsact (err e) =
      if contains e (codes "17")
      then ok tt
      else err (codes "Failed to add clsact qdisc to interface")

  abbrev pub set_allow_all : aya.Flags → Result aya.Flags
  set_allow_all flags = elim (aya.set_flag 0 1 flags) [
    | some set ↦ ok set
    | none ↦ err (codes "Failed to initialise POLICY_FLAGS[0] to allow-all")
  ]

  module _ (decimal : ℕ → Text) (ebpf_path : Text) (loader : Loader) where
    abbrev pub readers : List ℕ → Script
    readers [] = ([], loader.ctrl_c)
    readers (cpu_id ∷ cpus) =
        let rest = readers cpus in
        try_
          (context (codes "Failed to open perf buffer for CPU " ++ decimal cpu_id)
            (loader.open_buffer cpu_id))
          (λ u. act (reading cpu_id) rest)

    abbrev pub listen : Script
    listen =
        try_
          (named (codes "Map 'PACKET_EVENTS' not found in eBPF object")
            (codes "Failed to open AsyncPerfEventArray") loader.packet_events)
          (λ u. try_ (enumerated loader.online_cpus) readers)

    abbrev pub attach_classifier : aya.Verdicts → aya.Flags → Script
    attach_classifier verdicts flags =
        try_
          (named (codes "Program 'kprobe_egress' not found in eBPF object")
            (codes "'kprobe_egress' is not a SchedClassifier program") loader.program)
          (λ u.
            try_ (context (codes "Kernel rejected the eBPF program (verifier error)") loader.load)
              (λ v.
                try_ (context (codes "Failed to attach TC classifier to egress hook") loader.attach)
                  (λ w.
                    act (attached verdicts flags)
                      (act (spawned (initial aya verdicts flags)) listen))))

    abbrev pub open_maps : Script
    open_maps =
        try_
          (named (codes "Map 'VERDICT_MAP' not found in eBPF object")
            (codes "Failed to open VERDICT_MAP as HashMap") loader.verdict_map)
          (λ verdicts.
            try_
              (named (codes "Map 'POLICY_FLAGS' not found in eBPF object")
                (codes "Failed to open POLICY_FLAGS as Array") loader.policy_flags)
              (λ flags. try_ (set_allow_all flags) (attach_classifier verdicts)))

    unfoldable pub main : Script
    main =
        try_
          (context (codes "Failed to load eBPF object '" ++ ebpf_path ++ codes "'")
            loader.load_file)
          (λ u. try_ (clsact loader.qdisc_add_clsact) (λ v. open_maps))
