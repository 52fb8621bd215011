-- ===== src/Outbox/Consumer/Restored.antt =====
-- A database and a handler that answer every call from some time on, whatever they did before.
use autospace_parking.Prelude.{
  String, ◌≡◌, refl, ap, ◌∙◌, sym, ◌||◌, not, Option, none, some, List, [], ◌∷◌, Bool-cases, inl,
  inr,
}
use autospace_parking.Js.Exec.{Exec, resolved, lift}
use autospace_parking.Js.Exec.Restricts.{restrict, Restricts, Restricts-bind, Restricts-pure}
use autospace_parking.Js.Text.{truthy}
use autospace_parking.Js.Json.{Json, null, obj}
use autospace_parking.Outbox.Consumer.Ports.{ConsumedEvent, Services, IsLawful}
use autospace_parking.Outbox.Consumer.{
  Environment, group_id, property, handle_new, unless_consumed, consume, read, process,
}
use autospace_parking.Outbox.Consumer.Once.{Reliable, consume_all}

-- The worlds from that time on: no call leads out of them, the look-ups and the handler succeed in
-- them, and so do inserts of new keys.
pub record IsRestored (S : Services) (Up : S.World → Type 0) : Type 0 where
  pub insert : (row : ConsumedEvent) (w : S.World) → Up w → Up (S.insert row w).1
  pub handler : (event : Json) (w : S.World) → Up w → Up (S.handler event w).1
  pub answers :
      (id : String) (w : S.World)
      → Up w
      → (r : Option ConsumedEvent) × ((S.find_one_by id w).0 ≡ resolved r)
  pub handles : (event : Json) (w : S.World) → Up w → (S.handler event w).0 ≡ resolved tt
  pub inserts :
      (row : ConsumedEvent) (w : S.World)
      → Up w
      → S.ledger w row.event_id ≡ none
      → (S.insert row w).0 ≡ resolved tt

module _ (S : Services) (L : IsLawful S) (Up : S.World → Type 0) (R : IsRestored S Up) where
  abbrev pub restored : Services
  restored = record {
    World = (w : S.World) × Up w;
    Body = S.Body;
    parse = S.parse;
    find_one_by = λ id x. ((S.find_one_by id x.0).0, x);
    insert = λ row. restrict (S.insert row) (R.insert row);
    handler = λ event. restrict (S.handler event) (R.handler event);
    ledger = λ x. S.ledger x.0;
    handled = λ x. S.handled x.0;
  }

  pub restored-IsLawful : IsLawful restored
  restored-IsLawful = record {
    find_one_by-world = λ id x. refl;
    find_one_by-ledger = λ id x r h. L.find_one_by-ledger id x.0 r h;
    insert-resolved = λ row x h. L.insert-resolved row x.0 h;
    insert-rejected = λ row x t h. L.insert-rejected row x.0 t h;
    insert-handled = λ row x. L.insert-handled row x.0;
    handler-ledger = λ event x j. L.handler-ledger event x.0 j;
    handler-handled = λ event x. L.handler-handled event x.0;
  }

  pub restored-Reliable : Reliable restored restored-IsLawful
  restored-Reliable = record {
    handler = λ event x. R.handles event x.0 x.1;
    insert = λ row x absent. R.inserts row x.0 x.1 absent;
  }

  find_one_by-Restricts : (id : String) → Restricts Up (S.find_one_by id) (restored.find_one_by id)
  find_one_by-Restricts id = record { at = λ x. (refl, sym (L.find_one_by-world id x.0)) }

  insert-Restricts : (row : ConsumedEvent) → Restricts Up (S.insert row) (restored.insert row)
  insert-Restricts row = record { at = λ x. (refl, refl) }

  handler-Restricts : (event : Json) → Restricts Up (S.handler event) (restored.handler event)
  handler-Restricts event = record { at = λ x. (refl, refl) }

  handle_new-Restricts :
      (group : String) (event : Json) (id type : String)
      → Restricts Up (handle_new S group event id type) (handle_new restored group event id type)
  unfolding handle_new
  handle_new-Restricts group event id type =
      let row : ConsumedEvent = record {
        event_id = id;
        event_type = type;
        consumer_group = group;
      } in
      Restricts-bind (S.handler event) (restored.handler event) (λ _. S.insert row)
        (λ _. restored.insert row) (handler-Restricts event) λ _. insert-Restricts row

  unless_consumed-Restricts :
      (r : Option ConsumedEvent) (m : Exec S.World (Unit {0})) (n : Exec restored.World (Unit {0}))
      → Restricts Up m n
      → Restricts Up (unless_consumed S r m) (unless_consumed restored r n)
  unfolding unless_consumed
  unless_consumed-Restricts (some row) m n same = Restricts-pure tt
  unless_consumed-Restricts none m n same = same

  consume-Restricts :
      (group : String) (event : Json) (id type : Option String)
      → Restricts Up (consume S group event id type) (consume restored group event id type)
  unfolding consume
  consume-Restricts group event none type = record { at = λ x. (refl, refl) }
  consume-Restricts group event (some id) none = record { at = λ x. (refl, refl) }
  consume-Restricts group event (some id) (some type) =
      elim (Bool-cases (not (truthy id) || not (truthy type))) [
        | inl empty ↦ record { at = λ x. rw empty (refl, refl) }
        | inr texts ↦
            let go =
              Restricts-bind (S.find_one_by id) (restored.find_one_by id)
                (λ r. unless_consumed S r (handle_new S group event id type))
                (λ r. unless_consumed restored r (handle_new restored group event id type))
                (find_one_by-Restricts id)
                λ r.
                  unless_consumed-Restricts r (handle_new S group event id type)
                    (handle_new restored group event id type)
                    (handle_new-Restricts group event id type) in
            record { at = λ x. rw texts (go.at x) }
      ]

  read-Restricts :
      (env : Environment) (event : Json) → Restricts Up (read S env event) (read restored env event)
  unfolding read property
  read-Restricts env null = record { at = λ x. (refl, refl) }
  read-Restricts env (obj o) = record { at = (consume-Restricts (group_id env) (obj o) _ _).at }
  read-Restricts env event = record { at = (consume-Restricts (group_id env) event _ _).at }

  process-Restricts :
      (env : Environment) (m : Option S.Body)
      → Restricts Up (process S env m) (process restored env m)
  unfolding process
  process-Restricts env none = record { at = λ x. (refl, refl) }
  process-Restricts env (some b) =
      Restricts-bind (lift (S.parse b)) (lift (S.parse b)) (λ event. read S env event)
        (λ event. read restored env event) (record { at = λ x. (refl, refl) })
        λ event. read-Restricts env event

  pub consume_all-restored :
      (env : Environment) (ms : List (Option S.Body)) (x : restored.World)
      → (consume_all restored restored-IsLawful env ms x).0 ≡ consume_all S L env ms x.0
  unfolding consume_all
  consume_all-restored env [] x = refl
  consume_all-restored env (m ∷ ms) x =
      consume_all-restored env ms (process restored env m x).1
      ∙ ap (consume_all S L env ms) ((process-Restricts env m).at x).1
