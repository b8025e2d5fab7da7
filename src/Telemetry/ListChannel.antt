-- ===== src/Telemetry/ListChannel.antt =====
-- A channel that behaves as `IsMpsc` says: a list with a bound.
use meshlite.Base.{
  ℕ, ◌≡◌, refl, Option, none, some, List, [], ◌∷◌, ◌++◌, arith, length, ltb, if◌then◌else◌,
}
use meshlite.Telemetry.{TelemetryRecord, Mpsc, IsMpsc}

abbrev Queue : Type 0
Queue = ℕ × List TelemetryRecord

abbrev try_send : TelemetryRecord → Queue → Option Queue
try_send r (n, rs) = if ltb (length rs) n then some (n, rs ++ r ∷ []) else none

abbrev recv : Queue → Option (TelemetryRecord × Queue)
recv (n, []) = none
recv (n, r ∷ rs) = some (r, (n, rs))

abbrev pub list_channel : Mpsc
list_channel = record {
  Channel = Queue;
  new = λ n. (n, []);
  try_send = try_send;
  recv = recv;
  contents = λ q. q.1;
  capacity = λ q. q.0;
}

received :
    (r : TelemetryRecord) (c d : Queue) → recv c ≡ some (r, d) → (c.1 ≡ r ∷ d.1) × (d.0 ≡ c.0)
received r (n, []) d h = cc
received r (n, x ∷ rs) d h = (ground arith, ground arith)

waits : (c : Queue) → recv c ≡ none → c.1 ≡ []
waits (n, []) h = refl
waits (n, x ∷ rs) h = cc

pub list_channel-IsMpsc : IsMpsc list_channel
list_channel-IsMpsc = record {
  contents-new = λ n. refl;
  capacity-new = λ n. refl;
  sent = λ r c d h. (ground arith, ground arith, ground arith);
  full = λ r c h. ground arith;
  received = received;
  waits = waits;
}
