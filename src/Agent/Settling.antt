-- ===== src/Agent/Settling.antt =====
-- What the tasks of kprobe/kprobe-userspace/src/main.rs do by themselves, and the work that they have.
use meshlite.Base.{
  ℕ, zero, suc, ◌+◌, ◌*◌, ◌<◌, ◌≡◌, refl, ◌∙◌, inl, inr, Bool, true, false, arith, Bool-cases, ◌==◌,
  ◌||◌, ltb,
}
use meshlite.Word.{Endian}
use meshlite.Bpf.{Aya}
use meshlite.VerdictSync.{PodSnapshot}
use meshlite.Agent.{
  Reach, inside, Phase, idle, woken, holding, ready, Agent, Internal, sends_changed, takes_changed,
  forwards, sends_sync, wakes, clones_policy, clones_pods, reconciles, send_changed, take_changed,
  forward, send_sync, wake, clone_policy, clone_pods, reconcile,
}

abbrev phase_weight : Phase → ℕ
phase_weight idle = 0
phase_weight woken = 3
phase_weight (holding p) = 2
phase_weight (ready p pods) = 1

abbrev owed : Bool → ℕ → ℕ
owed true n = n
owed false n = 0

module _ (aya : Aya) (e : Endian) (iter : PodSnapshot → PodSnapshot) where
  -- How many steps the tasks have before them.
  abbrev pub work : Agent aya → ℕ
  work s =
      phase_weight s.phase
      + 4 * s.sync_queue
      + owed s.owes_forward 5
      + owed s.owes_sigil 5
      + 6 * s.pod_queue
      + owed s.owes_pod 7

  -- A message that will lead to a reconciliation is on its way.
  abbrev pub is_pending : Agent aya → Bool
  is_pending s =
      s.owes_pod || s.owes_forward || s.owes_sigil || ltb 0 s.pod_queue || ltb 0 s.sync_queue

  pub rested : (s : Agent aya) → work s ≡ 0 → (s.phase ≡ idle) × (is_pending s ≡ false)
  rested s h = go s.phase refl
    where
      go : (p : Phase) → s.phase ≡ p → (s.phase ≡ idle) × (is_pending s ≡ false)
      go idle i = (i, ground arith)
      go woken i = absurd (ground arith)
      go (holding p) i = absurd (ground arith)
      go (ready p pods) i = absurd (ground arith)

  -- What a step of the tasks leaves alone.
  abbrev pub Same : Agent aya → Agent aya → Type 0
  Same s t = (t.node ≡ s.node) × (t.pods ≡ s.pods) × (t.relisting ≡ s.relisting)

  Internal-work : {s t : Agent aya} → Internal aya e iter s t → work s ≡ 1 + work t
  Internal-work (sends_changed s o r) = rw o (omega arith)
  Internal-work (takes_changed s o r) = rw o (omega arith)
  Internal-work (forwards s o r) = rw o (omega arith)
  Internal-work (sends_sync s o r) = rw o (omega arith)
  Internal-work (wakes s i r) = rw i (omega arith)
  Internal-work (clones_policy s i) = rw i (omega arith)
  Internal-work (clones_pods s p i) = rw i (omega arith)
  Internal-work (reconciles s p pods i) = rw i (omega arith)

  pub Internal-Same : {s t : Agent aya} → Internal aya e iter s t → Same s t
  Internal-Same (sends_changed s o r) = (refl, refl, refl)
  Internal-Same (takes_changed s o r) = (refl, refl, refl)
  Internal-Same (forwards s o r) = (refl, refl, refl)
  Internal-Same (sends_sync s o r) = (refl, refl, refl)
  Internal-Same (wakes s i r) = (refl, refl, refl)
  Internal-Same (clones_policy s i) = (refl, refl, refl)
  Internal-Same (clones_pods s p i) = (refl, refl, refl)
  Internal-Same (reconciles s p pods i) = (refl, refl, refl)

  -- Steps of the tasks, one after another, with nothing from outside between them.
  pub data Run : ℕ → Agent aya → Agent aya → Type 0 where
    stay : (s : Agent aya) → Run 0 s s
    step : {n : ℕ} {s t u : Agent aya} → Internal aya e iter s t → Run n t u → Run (suc n) s u

  -- Without anything from outside, the tasks take at most as many steps as they have work: a run of
  -- theirs always ends.
  pub Run-work : {n : ℕ} {s t : Agent aya} → Run n s t → work s ≡ n + work t
  Run-work (stay s) = omega arith
  Run-work (step x r) = omega (arith, Internal-work x, Run-work r)

  pub Run-Same : {n : ℕ} {s t : Agent aya} → Run n s t → Same s t
  Run-Same (stay s) = (refl, refl, refl)
  Run-Same (step x r) =
      let (a, b, c) = Internal-Same x in let (a', b', c') = Run-Same r in (a' ∙ a, b' ∙ b, c' ∙ c)

  abbrev CanStep : Agent aya → Type 0
  CanStep s = (t : Agent aya) × Internal aya e iter s t

  idle_steps : (s : Agent aya) → s.phase ≡ idle → 0 < work s → CanStep s
  idle_steps s i h = elim (Bool-cases (s.sync_queue == 0)) [
    | inr waiting ↦ (wake aya s, wakes s i (ground arith))
    | inl no_sync ↦ elim (Bool-cases s.owes_forward) [
      | inl o ↦ (forward aya s, forwards s o (ground arith))
      | inr f ↦ elim (Bool-cases s.owes_sigil) [
        | inl o ↦ (send_sync aya s, sends_sync s o (ground arith))
        | inr g ↦ elim (Bool-cases (s.pod_queue == 0)) [
          | inr waiting ↦ (take_changed aya s, takes_changed s f (ground arith))
          | inl no_pod ↦ elim (Bool-cases s.owes_pod) [
            | inl o ↦ (send_changed aya s, sends_changed s o (ground arith))
            | inr k ↦ absurd (ground arith)
          ]
        ]
      ]
    ]
  ]

  -- As long as there is work, some task can go on: no two of them wait for each other.
  pub work_steps : (s : Agent aya) → 0 < work s → CanStep s
  work_steps s h = go s.phase refl
    where
      go : (p : Phase) → s.phase ≡ p → CanStep s
      go idle i = idle_steps s i h
      go woken i = (clone_policy aya s, clones_policy s i)
      go (holding p) i = (clone_pods aya s p, clones_pods s p i)
      go (ready p pods) i = (reconcile aya e iter s p pods, reconciles s p pods i)

  pub Run-Reach :
      {n : ℕ} {r s t : Agent aya} → Reach aya e iter r s → Run n s t → Reach aya e iter r t
  Run-Reach a (stay s) = a
  Run-Reach a (step x r) = Run-Reach (inside a x) r

  settles_in : (n : ℕ) (s : Agent aya) → work s ≡ n → (t : Agent aya) × Run n s t × (work t ≡ 0)
  settles_in zero s h = (s, stay s, h)
  settles_in (suc n) s h =
      let (t, x) = work_steps s (omega arith) in
      let (u, r, z) = settles_in n t (omega (arith, Internal-work x)) in (u, step x r, z)

  -- From every state the tasks reach a state in which nothing is left to do, in as many steps as they
  -- have work, with the policy, the certificates and the pods that were there.
  pub settles : (s : Agent aya) → (t : Agent aya) × Run (work s) s t × (work t ≡ 0) × Same s t
  settles s = let (t, r, z) = settles_in (work s) s refl in (t, r, z, Run-Same r)
