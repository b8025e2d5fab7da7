-- ===== src/Agent.antt =====
-- kprobe/kprobe-userspace/src/main.rs: the tasks of the agent and what they share. The pod watcher, the
-- forwarder of its events, the Sigil client and the reconciliation run side by side; each of the
-- functions below is what one task does between two points at which another may run.
pub mod Queues
pub mod Freshness
pub mod Settling
pub mod Enforces
pub mod Startup
pub mod History
pub mod Inputs
pub mod LastSync
pub mod Views
pub mod Moments
pub mod Trail
use meshlite.Base.{ℕ, ◌+◌, ◌-◌, ◌<◌, ◌≡◌, Bool, true, false, Option, none, some, [], if◌then◌else◌}
use meshlite.Word.{Endian}
use meshlite.Bpf.{Aya}
use meshlite.PolicyCache.{PolicyCache}
use meshlite.PodWatcher.{Event, init, handle}
use meshlite.SigilClient.{Node, start, Payload, cert, policy, receive_cert, receive_policy}
use meshlite.VerdictSync.{PodSnapshot, sync}

-- `mpsc::channel(32)`, for both channels (tokio). Their messages carry nothing, so that a channel is how
-- many of them it holds; a send waits while it is full, and a receive while it is empty.
abbrev pub capacity : ℕ
capacity = 32

-- Where the task of step 8 stands: waiting, woken, or with what it has cloned.
pub data Phase : Type 0 where
  idle woken : Phase
  holding : PolicyCache → Phase
  ready : PolicyCache → PodSnapshot → Phase

-- What the Sigil client does with a push, up to the send on `sync_tx`.
abbrev pub receive : Payload → Node → Node
receive (cert bundle) node = receive_cert bundle node
receive (policy pb) node = receive_policy pb node

module _ (aya : Aya) where
  -- `owes_pod`, `owes_forward` and `owes_sigil` say that the watcher, the forwarder or the Sigil client
  -- is about to send. `relisting` is no state of the program: it is set by an `Init` of the watch until
  -- the watcher next announces a change.
  pub record Agent : Type 0 where
    pub node : Node
    pub pods : PodSnapshot
    pub relisting : Bool
    pub owes_pod : Bool
    pub owes_forward : Bool
    pub owes_sigil : Bool
    pub pod_queue : ℕ
    pub sync_queue : ℕ
    pub phase : Phase
    pub verdicts : aya.Verdicts
    pub flags : aya.Flags

  abbrev pub initial : aya.Verdicts → aya.Flags → Agent
  initial verdicts flags = record {
    node = start;
    pods = [];
    relisting = false;
    owes_pod = false;
    owes_forward = false;
    owes_sigil = false;
    pod_queue = 0;
    sync_queue = 0;
    phase = idle;
    verdicts = verdicts;
    flags = flags;
  }

  -- The write of allow-all, and the state that the tasks start with.
  unfoldable pub boot : aya.Verdicts → aya.Flags → Option Agent
  boot verdicts flags = elim (aya.set_flag 0 1 flags) [
    | some set ↦ some (initial verdicts set)
    | none ↦ none
  ]

  abbrev pub relisting_after : Event → Bool → Bool → Bool
  relisting_after init announced before = true
  relisting_after _ announced before = if announced then false else before

  -- The watcher: an event, and the send on `pod_tx`.
  abbrev pub take_event : Agent → Event → Agent
  take_event s event = record s {
    pods = (handle s.pods event).0;
    owes_pod = (handle s.pods event).1;
    relisting = relisting_after event (handle s.pods event).1 s.relisting;
  }

  abbrev pub send_changed : Agent → Agent
  send_changed s = record s { owes_pod = false; pod_queue = s.pod_queue + 1 }

  -- The forwarder.
  abbrev pub take_changed : Agent → Agent
  take_changed s = record s { owes_forward = true; pod_queue = s.pod_queue - 1 }

  abbrev pub forward : Agent → Agent
  forward s = record s { owes_forward = false; sync_queue = s.sync_queue + 1 }

  -- The Sigil client: a push, and the send on `sync_tx`.
  abbrev pub take_push : Agent → Payload → Agent
  take_push s payload = record s { node = receive payload s.node; owes_sigil = true }

  abbrev pub send_sync : Agent → Agent
  send_sync s = record s { owes_sigil = false; sync_queue = s.sync_queue + 1 }

  -- The reconciliation.
  abbrev pub wake : Agent → Agent
  wake s = record s { sync_queue = s.sync_queue - 1; phase = woken }

  abbrev pub clone_policy : Agent → Agent
  clone_policy s = record s { phase = holding s.node.cache }

  abbrev pub clone_pods : Agent → PolicyCache → Agent
  clone_pods s p = record s { phase = ready p s.pods }

  module _ (e : Endian) (iter : PodSnapshot → PodSnapshot) where
    abbrev pub reconcile : Agent → PolicyCache → PodSnapshot → Agent
    reconcile s p pods =
        let (done, flags') = sync aya e iter p pods s.verdicts s.flags in
        record s { phase = idle; verdicts = done.verdicts; flags = flags' }

    -- What comes from outside: an event of the watch, a push of Sigil.
    pub data External : Agent → Agent → Type 0 where
      pod_event : (s : Agent) (event : Event) → s.owes_pod ≡ false → External s (take_event s event)
      sigil_push :
          (s : Agent) (payload : Payload) → s.owes_sigil ≡ false → External s (take_push s payload)

    -- What the tasks do by themselves.
    pub data Internal : Agent → Agent → Type 0 where
      sends_changed :
          (s : Agent) → s.owes_pod ≡ true → s.pod_queue < capacity → Internal s (send_changed s)
      takes_changed :
          (s : Agent) → s.owes_forward ≡ false → 0 < s.pod_queue → Internal s (take_changed s)
      forwards :
          (s : Agent) → s.owes_forward ≡ true → s.sync_queue < capacity → Internal s (forward s)
      sends_sync :
          (s : Agent) → s.owes_sigil ≡ true → s.sync_queue < capacity → Internal s (send_sync s)
      wakes : (s : Agent) → s.phase ≡ idle → 0 < s.sync_queue → Internal s (wake s)
      clones_policy : (s : Agent) → s.phase ≡ woken → Internal s (clone_policy s)
      clones_pods :
          (s : Agent) (p : PolicyCache) → s.phase ≡ holding p → Internal s (clone_pods s p)
      reconciles :
          (s : Agent) (p : PolicyCache) (pods : PodSnapshot)
          → s.phase ≡ ready p pods
          → Internal s (reconcile s p pods)

    -- Any interleaving.
    pub data Reach (s : Agent) : Agent → Type 0 where
      here : Reach s s
      outside : {t u : Agent} → Reach s t → External t u → Reach s u
      inside : {t u : Agent} → Reach s t → Internal t u → Reach s u
