-- ===== src/Agent/Trail.antt =====
-- From the packets that the classifier sees to what Trace is told: kprobe/kprobe-ebpf/src/main.rs, and main.rs
-- and telemetry.rs of kprobe/kprobe-userspace/src.
use mathlib.Core.List.{Memᴰ}
use meshlite.Base.{
  ℕ, ◌≡◌, refl, sym, ap, subst, ◌∙◌, inl, inr, Bool, List, [], ◌∷◌, ◌++◌, map, Text, Bytes, codes,
  str_eq, ◌==◌, All-mem, mem-append_cases, mem-append_left, Option-cases,
}
use meshlite.HashMap.{IsIteration}
use meshlite.Word.{Endian}
use meshlite.Classifier.{tc_act_shot, TcContext, Maps, PacketLog, kprobe_egress}
use meshlite.Classifier.Frame.{IsFrame}
use meshlite.Classifier.Filter.{filter, parse_packet, kprobe_egress-filter}
use meshlite.Bpf.{Aya, IsAya}
use meshlite.VerdictSync.{PodSnapshot}
use meshlite.Reader.Slots.{read_slots}
use meshlite.Reader.Reports.{Says}
use meshlite.Reader.Frames.{slots_of, frame_reported}
use meshlite.Telemetry
use meshlite.Telemetry.{TelemetryRecord, Mpsc, IsMpsc, agent_capacity, start, emitted, turn}
use meshlite.Telemetry.Delivery.{IsSublist, empty, keep, leave_out, all_emitted, run_delivers}
use meshlite.Agent.{Agent, Reach}
use meshlite.Agent.Freshness.{IsStart}
use meshlite.Agent.Views.{IsView, view-IsBinary}

module _ (aya : Aya) (e : Endian) (iter : PodSnapshot → PodSnapshot) (s : Agent aya)
    (look : PodSnapshot → PodSnapshot) (cluster_id : Text) where
  -- A frame, the maps that the classifier found at some time of the agent, and what the slot of its record
  -- held after it, with the snapshot of the pods when the slot was read.
  pub record Seen : Type 0 where
    pub bytes : Bytes
    pub ctx : TcContext
    pub frame : IsFrame e bytes ctx
    pub time : Agent aya
    pub reached : Reach aya e iter s time
    pub maps : Maps
    pub view : IsView aya e iter time maps
    pub snapshot : PodSnapshot
    pub pad : ℕ × ℕ
    pub rest : Bytes

  abbrev pub is_dropped : Seen → Bool
  is_dropped x = (kprobe_egress e x.maps x.ctx).0 == tc_act_shot

  abbrev pub records_of : Seen → List TelemetryRecord
  records_of x =
      let logs = (kprobe_egress e x.maps x.ctx).1 in
      (read_slots e look cluster_id (slots_of e look cluster_id x.snapshot x.pad x.rest logs)).1

  -- The record of a frame is read and reported, or the task of telemetry goes on.
  pub data Happening : Type 0 where
    read : Seen → Happening
    posting : Happening

  abbrev pub events_of : List Happening → List Telemetry.Event
  events_of [] = []
  events_of (read x ∷ happenings) = map emitted (records_of x) ++ events_of happenings
  events_of (posting ∷ happenings) = turn ∷ events_of happenings

  -- The record is about a frame that was seen, and says of it what the classifier did.
  pub record IsWitnessed (happenings : List Happening) (r : TelemetryRecord) : Type 0 where
    pub seen : Seen
    pub there : Memᴰ (read seen) happenings
    pub from_it : Memᴰ r (records_of seen)
    pub same_verdict : str_eq r.verdict (codes "deny") ≡ is_dropped seen

  later :
      (x : Happening) (happenings : List Happening) (r : TelemetryRecord)
      → IsWitnessed happenings r
      → IsWitnessed (x ∷ happenings) r
  later x happenings r w = record {
    seen = w.seen;
    there = Memᴰ.tail w.there;
    from_it = w.from_it;
    same_verdict = w.same_verdict;
  }

all_emitted-append :
    (rs : List TelemetryRecord) (events : List Telemetry.Event)
    → all_emitted (map emitted rs ++ events) ≡ rs ++ all_emitted events
all_emitted-append [] events = refl
all_emitted-append (r ∷ rs) events = ap (λ xs. r ∷ xs) (all_emitted-append rs events)

mem-sublist :
    {xs ys : List TelemetryRecord} (r : TelemetryRecord) → IsSublist xs ys → Memᴰ r xs → Memᴰ r ys
mem-sublist r empty m = elim m [ ]
mem-sublist r (keep x sub) (Memᴰ.head e) = Memᴰ.head e
mem-sublist r (keep x sub) (Memᴰ.tail m) = Memᴰ.tail (mem-sublist r sub m)
mem-sublist r (leave_out x sub) m = Memᴰ.tail (mem-sublist r sub m)

module _ (aya : Aya) (laws : IsAya aya) (e : Endian) (iter : PodSnapshot → PodSnapshot)
    (visits : IsIteration iter) (look : PodSnapshot → PodSnapshot) (cluster_id : Text)
    (s : Agent aya) (b : IsStart aya laws e iter visits s) where
  seen-Says :
      (x : Seen aya e iter s look cluster_id)
      → Says e look x.snapshot cluster_id
          (is_dropped aya e iter s look cluster_id x)
          (records_of aya e iter s look cluster_id x)
  seen-Says x =
      let filtered = kprobe_egress-filter e x.maps x.bytes x.ctx x.frame in
      elim (Option-cases (parse_packet x.bytes)) [
        | inl unread ↦
            subst
              (λ (out : ℕ × List PacketLog).
                Says e look x.snapshot cluster_id (out.0 == tc_act_shot)
                  (read_slots e look cluster_id
                    (slots_of e look cluster_id x.snapshot x.pad x.rest out.1)).1)
              (sym (filtered ∙ ap (filter e x.maps) unread)) tt
        | inr (p, parsed) ↦
            (frame_reported e look cluster_id x.snapshot x.pad x.rest x.bytes x.ctx x.maps p x.frame
              parsed (view-IsBinary aya laws e iter visits b x.reached x.view)).1
      ]

  emitted-IsWitnessed :
      (happenings : List (Happening aya e iter s look cluster_id)) (r : TelemetryRecord)
      → Memᴰ r (all_emitted (events_of aya e iter s look cluster_id happenings))
      → IsWitnessed aya e iter s look cluster_id happenings r
  emitted-IsWitnessed [] r m = elim m [ ]
  emitted-IsWitnessed (posting ∷ happenings) r m =
      later aya e iter s look cluster_id posting happenings r (emitted-IsWitnessed happenings r m)
  emitted-IsWitnessed (read x ∷ happenings) r m =
      let records = records_of aya e iter s look cluster_id x in
      let others = events_of aya e iter s look cluster_id happenings in
      let split = all_emitted-append records others in
      elim (mem-append_cases records (all_emitted others) (rw split at m)) [
        | inl here ↦
            let (a, same, says) = All-mem records (seen-Says x) here in
            record { seen = x; there = Memᴰ.head refl; from_it = here; same_verdict = rw same says }
        | inr there ↦
            later aya e iter s look cluster_id (read x) happenings r
              (emitted-IsWitnessed happenings r there)
      ]

  -- Whatever frames the classifier is given, at any times of the agent, and however the reading of their
  -- records and the posting of telemetry follow each other: each record that is posted to Trace is about
  -- a frame that the classifier was given, and is a denial exactly if the classifier dropped it.
  pub run-IsWitnessed :
      (mpsc : Mpsc) (channels : IsMpsc mpsc)
      (happenings : List (Happening aya e iter s look cluster_id)) (r : TelemetryRecord)
      → let events = events_of aya e iter s look cluster_id happenings in
        Memᴰ r (Telemetry.run mpsc (start mpsc agent_capacity) events).posted
        → IsWitnessed aya e iter s look cluster_id happenings r
  run-IsWitnessed mpsc channels happenings r m =
      let events = events_of aya e iter s look cluster_id happenings in
      let after = Telemetry.run mpsc (start mpsc agent_capacity) events in
      let (some_of, room) = run_delivers mpsc channels agent_capacity events in
      emitted-IsWitnessed happenings r
        (mem-sublist r some_of (mem-append_left after.posted (mpsc.contents after.channel) m))
