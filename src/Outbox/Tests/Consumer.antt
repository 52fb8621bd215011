-- ===== src/Outbox/Tests/Consumer.antt =====
-- Messages of the consumer on a ledger in memory.
use autospace_parking.Prelude.{
  ◌≡◌, refl, inl, inr, String, Option, none, some, List, [], ◌∷◌, ◌++◌, ◌==◌, if◌then◌else◌,
  Option-cases,
}
use autospace_parking.Js.Exec.{Exec, Thrown, error, resolved, rejected}
use autospace_parking.Js.Json.{Json, obj, str, get, end, field, Object}
use autospace_parking.Outbox.Consumer.Ports.{ConsumedEvent, Services, IsLawful}
use autospace_parking.Outbox.Consumer.{
  Environment, process, consume, read, unless_consumed, handle_new,
}
use autospace_parking.Outbox.Consumer.Ledger.{Holds, Consumption, process-Consumption}
use autospace_parking.Outbox.Consumer.Once.{
  Reliable, consume_all, HandledOnce, consume_all-HandledOnce,
}

pub record Memory : Type 0 where
  pub rows : String → Option ConsumedEvent
  pub calls : List Json

abbrev pub insert : ConsumedEvent → Exec Memory (Unit {0})
insert row w = elim (w.rows row.event_id) [
  | some taken ↦ (rejected (error "QueryFailedError" "duplicate key"), w)
  | none ↦ (resolved tt, record w { rows = λ j. if j == row.event_id then some row else w.rows j })
]

-- Messages are given as the values that they hold.
abbrev pub memory : Services
memory = record {
  World = Memory;
  Body = Json;
  parse = resolved;
  find_one_by = λ id w. (resolved (w.rows id), w);
  insert = insert;
  handler = λ event w. (resolved tt, record w { calls = w.calls ++ event ∷ [] });
  ledger = λ w. w.rows;
  handled = λ w. w.calls;
}

pub insert_absent :
    (row : ConsumedEvent) (w : Memory) → w.rows row.event_id ≡ none → (insert row w).0 ≡ resolved tt
insert_absent row w absent = rw (insert, absent)

insert_taken :
    (row : ConsumedEvent) (w : Memory) (taken : ConsumedEvent)
    → w.rows row.event_id ≡ some taken
    → (insert row w).0 ≡ rejected (error "QueryFailedError" "duplicate key")
insert_taken row w taken found = rw (insert, found)

insert-resolved :
    (row : ConsumedEvent) (w : Memory)
    → (insert row w).0 ≡ resolved tt
    → (w.rows row.event_id ≡ none)
      × ((j : String)
          → (insert row w).1.rows j ≡ (if j == row.event_id then some row else w.rows j))
insert-resolved row w h = elim (Option-cases (w.rows row.event_id)) [
  | inl absent ↦ (absent, λ j. rw (insert, absent))
  | inr (taken, found) ↦ cc (h, insert_taken row w taken found)
]

insert-rejected :
    (row : ConsumedEvent) (w : Memory) (t : Thrown)
    → (insert row w).0 ≡ rejected t
    → (j : String) → (insert row w).1.rows j ≡ w.rows j
insert-rejected row w t h j = elim (Option-cases (w.rows row.event_id)) [
  | inl absent ↦ cc (h, insert_absent row w absent)
  | inr (taken, found) ↦ rw (insert, found)
]

insert-handled : (row : ConsumedEvent) (w : Memory) → (insert row w).1.calls ≡ w.calls
insert-handled row w = elim (Option-cases (w.rows row.event_id)) [
  | inl absent ↦ rw (insert, absent)
  | inr (taken, found) ↦ rw (insert, found)
]

pub memory-IsLawful : IsLawful memory
memory-IsLawful = record {
  find_one_by-world = λ id w. refl;
  find_one_by-ledger = λ id w r h. cc h;
  insert-resolved = insert-resolved;
  insert-rejected = insert-rejected;
  insert-handled = insert-handled;
  handler-ledger = λ event w j. refl;
  handler-handled = λ event w. refl;
}

pub memory-Reliable : Reliable memory memory-IsLawful
memory-Reliable = record { handler = λ event w. refl; insert = insert_absent }

abbrev pub empty : Memory
empty = record { rows = λ id. none; calls = [] }

abbrev pub settings : Environment
settings = record {
  consumer_group = none;
  brokers = none;
  client_id = none;
  consumer_enabled = some "true";
  consumer_topics = some "listings, bookings";
}

abbrev pub published : Object
published = field "id" (str "e1") (field "type" (str "listing.published") end)

abbrev pub row : ConsumedEvent
row = record {
  event_id = "e1";
  event_type = "listing.published";
  consumer_group = "autospace-api-consumer";
}

pub published-Holds : Holds memory (obj published) published "e1" "listing.published"
unfolding get
published-Holds = record {
  parsed = refl;
  with_id = refl;
  with_type = refl;
  id_nonempty = refl;
  type_nonempty = refl;
}

pub process_run : (process memory settings (some (obj published)) empty).1.rows "e1" ≡ some row
unfolding process read consume unless_consumed handle_new get
process_run = refl

abbrev pub seen : Memory
seen = (process memory settings (some (obj published)) empty).1

process-Consumption_example :
    Consumption memory memory-IsLawful "autospace-api-consumer" "e1" "listing.published"
      (obj published)
      empty
      (process memory settings (some (obj published)) empty)
process-Consumption_example =
    process-Consumption memory memory-IsLawful settings (obj published) published "e1"
      "listing.published" empty published-Holds

-- Two deliveries of one event, and a message with no value between them.
consume_all-HandledOnce_example : HandledOnce memory memory-IsLawful "e1" (
    consume_all memory memory-IsLawful settings
      (some (obj published) ∷ none ∷ some (obj published) ∷ [])
      empty)
consume_all-HandledOnce_example =
    consume_all-HandledOnce memory memory-IsLawful memory-Reliable settings "e1"
      (some (obj published) ∷ none ∷ some (obj published) ∷ []) empty refl
