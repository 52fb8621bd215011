-- ===== src/Outbox/Tests/Publisher.antt =====
-- Sends of the publisher, and its settings.
use autospace_parking.Prelude.{◌≡◌, refl, none, some, List, [], ◌∷◌, All, count_if, eqb}
use autospace_parking.Js.Text.{is_space, items}
use autospace_parking.Js.Text.Laws.{IsItem}
use autospace_parking.Js.Json.{str, get, end, field}
use autospace_parking.Outbox.Entity.{OutboxEvent}
use autospace_parking.Outbox.Publisher.{
  new_publisher, Call, publishes, opens, fails, connected, step, run,
}
use autospace_parking.Outbox.Publisher.Accounting.{asked, accounted, publisher_accounts}
use autospace_parking.Outbox.Publisher.Topic.{
  Environment, client_options, topic_for, client_options-IsItem,
}

abbrev event : OutboxEvent
event = record {
  id = "e1";
  aggregate_type = "listing";
  aggregate_id = "l1";
  event_type = "listing.published";
  event_version = 1;
  payload = end;
  metadata = field "topic" (str "marketplace.listing-events.v1") end;
  occurred_at = 20;
  published_at = none;
  attempts = 0;
  last_error = none;
}

abbrev settings : Environment
settings = record { brokers = some " k1:9092,k2:9092 "; client_id = none; default_topic = none }

options_run : (client_options settings).brokers ≡ "k1:9092" ∷ "k2:9092" ∷ []
unfolding client_options items is_space
options_run = refl

two_brokers-IsItem : All IsItem ("k1:9092" ∷ "k2:9092" ∷ [])
unfolding client_options items is_space
two_brokers-IsItem = client_options-IsItem settings

topic_run : topic_for settings event ≡ "marketplace.listing-events.v1"
unfolding topic_for get
topic_run = refl

-- A send whose connection fails, and two that share the next connection.
abbrev calls : List Call
calls = publishes event ∷ fails ∷ publishes event ∷ publishes event ∷ opens ∷ []

calls_run : run calls new_publisher ≡ record {
  connection = connected;
  attempts = 2;
  waiting = [];
  sent = event ∷ event ∷ [];
  failed = event ∷ [];
}
unfolding run step
calls_run = refl

publisher_accounts_example :
    accounted (λ e. eqb e.attempts 0) (run calls new_publisher)
    ≡ count_if (λ e. eqb e.attempts 0) (asked calls)
publisher_accounts_example = publisher_accounts calls (λ e. eqb e.attempts 0)
