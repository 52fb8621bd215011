-- ===== src/Outbox/Pipeline/Deployed.antt =====
-- Relays and consumers in many processes, any of which may die, from the rows to the handler.
use autospace_parking.Prelude.{List}
use autospace_parking.Outbox.Services as Producer
use autospace_parking.Outbox.Relay.Restored as Relay
use autospace_parking.Outbox.Worker as Worker
use autospace_parking.Outbox.Worker.Processes as Processes
use autospace_parking.Outbox.Publisher.Topic as Topic
use autospace_parking.Outbox.Consumer.Ports.{Services}
