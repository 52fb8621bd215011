-- ===== src/Outbox/Services.antt =====
-- What the outbox is built on: the TypeORM repository of `platform_outbox_events`, the publisher
-- that the relay is given, and the clock. None of these is implemented here: they are the fields
-- of `Services`, over one state of the outside world, and `IsLawful` is what is assumed of them.
use mathlib.Core.List.{Memᴰ}
use autospace_parking.Prelude.{
  ℕ, ◌≤◌, String, ◌≡◌, ◌≢◌, ◌⊎◌, Bool, true, false, ◌&&◌, Option, none, some, List, [], ◌∷◌, ◌++◌,
  ◌==◌, if◌then◌else◌, length, All,
}
use mathlib.Core.Option
use autospace_parking.Js.Exec.{Exec, Outcome, Thrown, resolved, rejected}
use autospace_parking.Outbox.Entity.{OutboxEvent, NewEvent, Patch, apply, add_attempts, stored}

pub data OnLocked : Type 0 where
  wait_locked skip_locked : OnLocked

pub data Direction : Type 0 where
  ascending descending : Direction

-- A `createQueryBuilder('event')` chain of the relay.
pub record Query : Type 0 where
  pub pessimistic_write : Bool
  pub on_locked : OnLocked
  pub unpublished_only : Bool
  pub by_occurred_at : Direction
  pub take : ℕ

pub record Services : Type 1 where
  pub World : Type 0
  -- `repository.save(repository.create(…))`
  pub save : NewEvent → Exec World OutboxEvent
  -- `getMany` in a transaction of its own, which has ended when the rows are returned
  pub get_many : Query → Exec World (List OutboxEvent)
  -- `repository.update(id, …)` and `repository.increment({ id }, 'attempts', n)`
  pub update : String → Patch → Exec World (Unit {0})
  pub increment : String → ℕ → Exec World (Unit {0})
  -- `publisher.publish(event)`
  pub publish : OutboxEvent → Exec World (Unit {0})
  -- `new Date()`
  pub now : World → ℕ
  -- Views of the world: the committed row of an id, whether another transaction holds its lock,
  -- and the events that the broker has accepted, in order.
  pub find : World → String → Option OutboxEvent
  pub locked : World → String → Bool
  pub delivered : World → List OutboxEvent

abbrev pub is_resolved {ℓ} : {A : Type ℓ} → Outcome A → Bool
is_resolved (resolved a) = true
is_resolved (rejected e) = false

abbrev pub is_unpublished : OutboxEvent → Bool
is_unpublished e = elim e.published_at [ none ↦ true | some t ↦ false ]

abbrev pub matches : Query → OutboxEvent → Bool
matches q e = if q.unpublished_only then is_unpublished e else true

abbrev pub skips : Query → Bool → Bool
skips q held =
    q.pessimistic_write && (elim q.on_locked [ skip_locked ↦ held | wait_locked ↦ false ])

abbrev NotAfter : Direction → ℕ → ℕ → Type 0
NotAfter ascending s t = s ≤ t
NotAfter descending s t = t ≤ s

abbrev pub Precedes : Query → OutboxEvent → OutboxEvent → Type 0
Precedes q d e = NotAfter q.by_occurred_at d.occurred_at e.occurred_at

abbrev pub IsOrdered : Query → List OutboxEvent → Type 0
IsOrdered q [] = Unit
IsOrdered q (e ∷ es) = All (Precedes q e) es × IsOrdered q es

abbrev pub HasDistinctIds : List OutboxEvent → Type 0
HasDistinctIds [] = Unit
HasDistinctIds (e ∷ es) = All (λ d. e.id ≢ d.id) es × HasDistinctIds es

-- A row that is not selected, if `es` are the selected ones: the limit is reached before it.
abbrev pub IsBeyond : Query → List OutboxEvent → OutboxEvent → Type 0
IsBeyond q es e = (length es ≡ q.take) × All (λ d. Precedes q d e) es

module _ (S : Services) where
  -- The rows that a query selects, by the SQL that it stands for.
  pub record IsSelection (q : Query) (w : S.World) (es : List OutboxEvent) : Type 0 where
    pub rows :
        All
          (λ e.
            (S.find w e.id ≡ some e) × (matches q e ≡ true) × (skips q (S.locked w e.id) ≡ false))
          es
    pub distinct : HasDistinctIds es
    pub ordered : IsOrdered q es
    pub bounded : length es ≤ q.take
    pub complete :
        (j : String) (e : OutboxEvent)
        → S.find w j ≡ some e
        → matches q e ≡ true
        → skips q (S.locked w j) ≡ false
        → Memᴰ e es ⊎ IsBeyond q es e

  -- What the documentation of PostgreSQL, TypeORM and KafkaJS says. A statement that fails is
  -- rolled back; a send that fails may or may not have reached the broker.
  pub record IsLawful : Type 0 where
    pub find-id : (w : S.World) (j : String) (e : OutboxEvent) → S.find w j ≡ some e → e.id ≡ j
    pub get_many-IsSelection :
        (q : Query) (w : S.World) (es : List OutboxEvent)
        → (S.get_many q w).0 ≡ resolved es
        → IsSelection q w es
    pub find-get_many :
        (q : Query) (w : S.World) (j : String) → S.find (S.get_many q w).1 j ≡ S.find w j
    pub locked-get_many :
        (q : Query) (w : S.World) (j : String) → S.locked (S.get_many q w).1 j ≡ S.locked w j
    pub delivered-get_many :
        (q : Query) (w : S.World) → S.delivered (S.get_many q w).1 ≡ S.delivered w
    pub find-save :
        (n : NewEvent) (w : S.World) (e : OutboxEvent)
        → (S.save n w).0 ≡ resolved e
        → (S.find w e.id ≡ none)
          × (e ≡ stored e.id (S.now w) n)
          × ((j : String) → S.find (S.save n w).1 j ≡ (if j == e.id then some e else S.find w j))
    pub find-save_rejected :
        (n : NewEvent) (w : S.World) (t : Thrown)
        → (S.save n w).0 ≡ rejected t
        → (j : String) → S.find (S.save n w).1 j ≡ S.find w j
    pub delivered-save : (n : NewEvent) (w : S.World) → S.delivered (S.save n w).1 ≡ S.delivered w
    pub find-update :
        (id : String) (p : Patch) (w : S.World) (j : String)
        → S.find (S.update id p w).1 j ≡ (
            if is_resolved (S.update id p w).0 && j == id
            then Option.map (apply p) (S.find w j)
            else S.find w j)
    pub find-increment :
        (id : String) (n : ℕ) (w : S.World) (j : String)
        → S.find (S.increment id n w).1 j ≡ (
            if is_resolved (S.increment id n w).0 && j == id
            then Option.map (add_attempts n) (S.find w j)
            else S.find w j)
    pub delivered-update :
        (id : String) (p : Patch) (w : S.World) → S.delivered (S.update id p w).1 ≡ S.delivered w
    pub delivered-increment :
        (id : String) (n : ℕ) (w : S.World) → S.delivered (S.increment id n w).1 ≡ S.delivered w
    pub find-publish :
        (e : OutboxEvent) (w : S.World) (j : String) → S.find (S.publish e w).1 j ≡ S.find w j
    pub delivered-publish :
        (e : OutboxEvent) (w : S.World)
        → (S.publish e w).0 ≡ resolved tt
        → S.delivered (S.publish e w).1 ≡ S.delivered w ++ e ∷ []
    pub delivered-publish_rejected :
        (e : OutboxEvent) (w : S.World)
        → (S.delivered (S.publish e w).1 ≡ S.delivered w)
          ⊎ (S.delivered (S.publish e w).1 ≡ S.delivered w ++ e ∷ [])
