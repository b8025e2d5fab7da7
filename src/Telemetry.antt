-- ===== src/Telemetry.antt =====
-- kprobe/kprobe-userspace/src/telemetry.rs and conduit/src/telemetry.rs, which differ in the capacity of
-- their channel only: the record, the channel, and the task that posts. The channel is tokio's, whose
-- operations are the fields of `Mpsc`, and `IsMpsc` is what their documentation says of them.
pub mod Delivery
pub mod Post
pub mod ListChannel
use meshlite.Base.{
  ℕ, ◌+◌, ◌≤◌, ◌<◌, ◌≡◌, Bool, Option, none, some, List, [], ◌∷◌, ◌++◌, Text, length,
}

-- The latency is the bits of an `f64`.
pub record TelemetryRecord : Type 0 where
  pub source_service : Text
  pub destination_service : Text
  pub cluster_id : Text
  pub leg : Text
  pub verdict : Text
  pub latency_ms : ℕ
  pub tls_verified : Bool
  pub status_code : Option ℕ
  pub error_reason : Option Text
  pub timestamp : Option Text

abbrev pub agent_capacity : ℕ
agent_capacity = 512

abbrev pub conduit_capacity : ℕ
conduit_capacity = 256

-- `try_send` has no new state if the channel is full, `recv` has none as long as it is empty.
pub record Mpsc : Type 1 where
  pub Channel : Type 0
  pub new : ℕ → Channel
  pub try_send : TelemetryRecord → Channel → Option Channel
  pub recv : Channel → Option (TelemetryRecord × Channel)
  pub contents : Channel → List TelemetryRecord
  pub capacity : Channel → ℕ

pub record IsMpsc (mpsc : Mpsc) : Type 0 where
  pub contents-new : (n : ℕ) → mpsc.contents (mpsc.new n) ≡ []
  pub capacity-new : (n : ℕ) → mpsc.capacity (mpsc.new n) ≡ n
  pub sent :
      (r : TelemetryRecord) (c d : mpsc.Channel)
      → mpsc.try_send r c ≡ some d
      → (mpsc.contents d ≡ mpsc.contents c ++ r ∷ [])
        × (mpsc.capacity d ≡ mpsc.capacity c)
        × (length (mpsc.contents c) < mpsc.capacity c)
  pub full :
      (r : TelemetryRecord) (c : mpsc.Channel)
      → mpsc.try_send r c ≡ none
      → mpsc.capacity c ≤ length (mpsc.contents c)
  pub received :
      (r : TelemetryRecord) (c d : mpsc.Channel)
      → mpsc.recv c ≡ some (r, d)
      → (mpsc.contents c ≡ r ∷ mpsc.contents d) × (mpsc.capacity d ≡ mpsc.capacity c)
  pub waits : (c : mpsc.Channel) → mpsc.recv c ≡ none → mpsc.contents c ≡ []

-- A record is emitted somewhere, or the task of `start` goes on.
pub data Event : Type 0 where
  emitted : TelemetryRecord → Event
  turn : Event

module _ (mpsc : Mpsc) where
  -- The channel, and the records that were handed to `post_record`.
  pub record Telemetry : Type 0 where
    pub channel : mpsc.Channel
    pub posted : List TelemetryRecord

  abbrev pub start : ℕ → Telemetry
  start capacity = record { channel = mpsc.new capacity; posted = [] }

  unfoldable pub emit : TelemetryRecord → mpsc.Channel → mpsc.Channel
  emit r channel = elim (mpsc.try_send r channel) [ some sent ↦ sent | none ↦ channel ]

  -- One turn of the loop of `start`; whether the post succeeds only decides what is logged.
  abbrev handed : Telemetry → Option (TelemetryRecord × mpsc.Channel) → Telemetry
  handed t none = t
  handed t (some (r, channel)) = record { channel = channel; posted = t.posted ++ r ∷ [] }

  unfoldable pub post_next : Telemetry → Telemetry
  post_next t = handed t (mpsc.recv t.channel)

  abbrev pub handle : Telemetry → Event → Telemetry
  handle t (emitted r) = record t { channel = emit r t.channel }
  handle t turn = post_next t

  unfoldable pub run : Telemetry → List Event → Telemetry
  run t [] = t
  run t (event ∷ events) = run (handle t event) events
