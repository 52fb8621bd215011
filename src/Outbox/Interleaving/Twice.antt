-- ===== src/Outbox/Interleaving/Twice.antt =====
-- Two relays that select before either has sent an event. The rows are locked only in the transaction
-- of the query, which ends before the first event is sent.
use autospace_parking.Prelude.{List}
use autospace_parking.Outbox.Services.{Services}
