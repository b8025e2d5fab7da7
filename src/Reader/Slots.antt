-- ===== src/Reader/Slots.antt =====
-- The task of kprobe/kprobe-userspace/src/main.rs that reads the perf buffer of one CPU. A slot stands with
-- the snapshot of the pods as it is when the slot is read; what `read_events` (aya) answers is input.
use meshlite.Base.{ℕ, none, some, List, [], ◌∷◌, ◌++◌, Text, Bytes, take}
use meshlite.Results.{Result, ok, err}
use meshlite.Word.{Endian}
use meshlite.VerdictSync.{PodSnapshot}
use meshlite.Telemetry.{TelemetryRecord}
use meshlite.Reader.{Line, read_record}
use meshlite.Reader.Layout.{read_log}

-- What is printed and what is sent.
abbrev pub Output : Type 0
Output = List Line × List TelemetryRecord

abbrev pub and_then : Output → Output → Output
and_then a b = (a.0 ++ b.0, a.1 ++ b.1)

module _ (e : Endian) (iter : PodSnapshot → PodSnapshot) (cluster_id : Text) where
  -- An undersized slot is skipped.
  unfoldable pub read_slot : PodSnapshot → Bytes → Output
  read_slot snapshot slot = elim (read_log e slot) [
    | some log ↦ read_record e iter snapshot cluster_id log
    | none ↦ ([], [])
  ]

  abbrev pub read_slots : List (PodSnapshot × Bytes) → Output
  read_slots [] = ([], [])
  read_slots ((snapshot, slot) ∷ slots) = and_then (read_slot snapshot slot) (read_slots slots)

  -- Each answer is the number of events read, with the buffers; an error stops the reader.
  unfoldable pub run_reader : List (Result (ℕ × List (PodSnapshot × Bytes))) → Output
  run_reader [] = ([], [])
  run_reader (err e ∷ answers) = ([], [])
  run_reader (ok (read, buffers) ∷ answers) =
      and_then (read_slots (take read buffers)) (run_reader answers)
