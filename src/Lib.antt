-- ===== src/Lib.antt =====
-- Autospace parking: a verification library of the TypeScript program.
--
-- apps/api/src/common/outbox is a transactional outbox. A use case enqueues an event in the
-- transaction that changes its data (OutboxService); a worker polls (OutboxRelayWorker) and has
-- the relay publish the oldest unpublished events in batches (OutboxRelayService), through a Kafka
-- producer (KafkaOutboxPublisher); a consumer reads messages, and enters each event that it has
-- handled in a ledger so that a redelivery is skipped (KafkaEventConsumer).
--
-- libs/network/src/config/authOptions.ts signs users in through the API and keeps their session in
-- a signed token. libs/util/hooks/location.ts looks places up while the user types;
-- libs/forms/src/searchGarages.tsx is the search form, apps/web/src/app/search/page.tsx fills it
-- in from the page's address, and libs/forms/src/adapters/searchFormAdapter.ts makes the query of
-- it. apps/web/src/app/page.tsx is the home page, whose form leads to that page, and
-- libs/ui/src/components/templates/SearchPage.tsx and organisms/map/SearchPlacesBox.tsx are what
-- the page does while it is used. apps/api/src/common/database/database.options.ts reads the
-- settings of the database, apps/api/src/common/availability/availability-grpc.client.ts asks the
-- service that knows which spaces are free, and libs/ui/src/components/templates/AdminHome.tsx
-- lists garages for review. That service, apps/services/go/availability, is written in Go: it
-- answers the call and keeps holds of spaces, which are confirmed, released or expire, and which a
-- store of keys coordinates. apps/search-service is a second Go service, which so far has
-- settings, health routes and a search that is not implemented.
--
-- Files. `Js` is what the source uses of JavaScript: `Js/Exec` is a promise as a state transformer
-- with an outcome, `Js/Text` and `Js/Number` are texts, `trim`, `split` and `parseInt`, `Js/Json`
-- is JSON values and objects with assignment and spread, `Js/Date` is `toISOString`.
-- `Outbox/Entity` is outbox-event.entity.ts, `Outbox/Services` the database and the broker as
-- parameters with their laws, `Outbox/Memory` an instance of them with two rows, `Outbox/Service`
-- is outbox.service.ts, `Outbox/Relay` outbox-relay.service.ts, `Outbox/Worker`
-- outbox-relay.worker.ts with `Outbox/Worker/Processes` for several processes that each run it,
-- `Outbox/Publisher` kafka-outbox.publisher.ts, and `Outbox/Consumer` kafka-event.consumer.ts with
-- consumed-event.entity.ts. `Outbox/Interleaving` is the relay again, and
-- `Outbox/Consumer/Interleaving` the consumer, cut at each `await`. `Outbox/Publisher/Kafka` is
-- `publish` as the relay meets it, over a KafkaJS producer. `Outbox/Pipeline` puts relay,
-- publisher and consumer together, with JSON.stringify, the broker and the handler as parameters.
-- Of authOptions.ts, `Auth/Token` is `jwt`, `Auth/SignIn` the credentials' `authorize` and the
-- callback `signIn`, `Auth/Session` the callback `session` and the cookie, `Auth/Options` the
-- settings, and `Auth/Shown` the way from credentials to the user whom a session shows. `Html` is
-- a tree of elements and what a browser does with a form, and `Home` page.tsx of the home page,
-- which `Home/Query` and `Home/Request` follow to the query of the search page and the request of
-- its results. `Location` is location.ts, `Search/Form` and `Search/Schema` searchGarages.tsx,
-- `Search/Page` search/page.tsx, `Search/Screen` SearchPage.tsx, with `Search/Screen/Convert` for
-- the form that the adapter reads, `Search/PlaceBox` SearchPlacesBox.tsx, `Search/Adapter`
-- searchFormAdapter.ts, `Search/Results` and `Search/Card` ShowGarages.tsx and
-- SearchGarageCard.tsx, `Search/Panel` the hook of the adapter and the effect of ShowGarages.tsx
-- over time, `Database/Options` database.options.ts, `Database/Source` data-source.ts,
-- `Database/Entities` the decorators of the two entities, `Database/Migrations` the two migrations,
-- `Availability` availability-grpc.client.ts,
-- `Availability/Service` grpcapi/service.go, `Hold` domain/hold.go, `Hold/Table`
-- persistence/holds.go with its specification `Hold/Book`, `Hold/Coordinator`
-- coordination/redis.go, and `Admin/Listings` and `Admin/Dashboard` AdminHome.tsx with
-- `Admin/Card`, GarageAdminCard.tsx. `Api` is apps/api/src with main.ts and its controller,
-- `Api/Modules` outbox.module.ts, availability.module.ts and app.module.ts, and `Layouts` the
-- layouts and health routes of the sites. `Go` is what the Go services share of their settings and
-- of net/http; `SearchService` is apps/search-service (internal/config, internal/httpapi and
-- cmd/server), and `AvailabilityService` internal/config and cmd/server of the availability
-- service. The `Tests` of each part run the definitions on concrete inputs.
--
-- How code corresponds. `await` of a promise is the bind of `Exec`: a rejected promise ends the
-- function with the state it has reached, and `catch` goes on from there. A function that several
-- calls run at once (the worker's `runOnce`, the publisher's `connect`) is cut at its `await` into
-- the part before and the part after, and the event loop is a step relation or a list of calls.
-- Where several processes work on one database (relays, consumers), every `await` is a turn: a
-- process is the point at which it stands, and a step is the turn of one of them, its death, or a
-- call or a message that comes in. The states from which on calls succeed, which may have failed
-- before, are a part of the states that no call leads out of (`IsRestored`).
-- In `Outbox/Worker/Processes` a process is its worker and the point at which the awaited batch
-- stands. Where an object is kept by a hook of React, its identity is the number of the call that
-- set it. Loops over lists are structural recursion, so no fuel is needed; `to_double` doubles a
-- step at most 971 times, which is what a double below 2^1024 needs.
--
-- Not modelled: the logger, Kafka, the database engine, JSON.parse, jsonwebtoken, Apollo's lazy
-- query, NextAuth and fetch beyond the laws stated of them, the debounce and the other helpers
-- that the repository imports and does not hold; the framework that makes the objects of the
-- modules, beyond what it looks up; attributes that only style, and icons; and the generated
-- contracts.
pub mod Prelude
pub mod Js
pub mod Outbox
pub mod Auth
pub mod Database
pub mod Location
pub mod Search
pub mod Admin
pub mod Availability
pub mod Html
pub mod Home
pub mod Hold
pub mod Api
pub mod Go
pub mod SearchService
pub mod AvailabilityService
pub mod Layouts
