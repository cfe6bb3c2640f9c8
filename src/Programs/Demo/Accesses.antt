-- ===== src/Programs/Demo/Accesses.antt =====
-- What changes the state of the demo program: the two endpoints that write, and the messages that its
-- handler is called with. The other two endpoints only read.
use kafka_resilience.Base.{String, List, [], ◌∷◌}
use kafka_resilience.Message.Envelope.{Envelope}
use kafka_resilience.World.{World, Environment}
use kafka_resilience.Tracker.{Tracker}
use kafka_resilience.Programs.{Outbox, Sending}
use kafka_resilience.Programs.Demo.{DemoHandler, demo_handle}
use kafka_resilience.Programs.Demo.Web.{
  Request, ProduceRequest, FailRequest, handle_produce, handle_fail,
}

-- A message is handled in the state of the tracker's process at that time.
pub data Access : Type 0 where
  produce : Request ProduceRequest → Access
  fail : Request FailRequest → Access
  handled : Envelope → World → Access

module _ (env : Environment) (t : Tracker) (sending : Sending) (topic : String) where
  abbrev pub access : Access → DemoHandler × Outbox → DemoHandler × Outbox
  access (produce r) (h, o) =
      ((handle_produce sending topic r h o).1, (handle_produce sending topic r h o).2)
  access (fail r) (h, o) = ((handle_fail r h).1, o)
  access (handled msg w) (h, o) = ((demo_handle env t msg w h).1, o)

  -- The accesses one after the other, the first one first.
  unfoldable pub run : List Access → DemoHandler × Outbox → DemoHandler × Outbox
  run [] s = s
  run (a ∷ accesses) s = run accesses (access a s)
