-- ===== src/Database/Options.antt =====
-- database.options.ts: `databaseOptions` and `parsePositiveInteger`.
use autospace_parking.Prelude.{
  ℕ, ◌<◌, String, ◌<>◌, ◌≡◌, refl, sym, ap, subst, ◌∙◌, Option-cases, ◌⊎◌, inl, inr, Bool, true,
  false, not, ◌||◌, Option, none, some, List, [], ◌∷◌, ◌==◌, if◌then◌else◌, arith, Bool-cases, eqb,
}
use autospace_parking.Js.Exec.{Outcome, Thrown, error, resolved, rejected}
use autospace_parking.Js.Text.{truthy, truthy?, or_default}
use autospace_parking.Js.Number.{
  Number, nan, infinite, integer, is_integer, is_at_most_zero, parse_int,
}

-- The `DATABASE_…` variables.
pub record Environment : Type 0 where
  pub url : Option String
  pub logging : Option String
  pub application_name : Option String
  pub ssl : Option String
  pub ssl_reject_unauthorized : Option String
  pub pool_max : Option String
  pub connection_timeout_ms : Option String
  pub idle_timeout_ms : Option String

-- Connections are plain, or encrypted with the server's certificate checked or not.
pub data Ssl : Type 0 where
  off : Ssl
  on : Bool → Ssl

pub record Extra : Type 0 where
  pub max : Number
  pub connection_timeout_millis : Number
  pub idle_timeout_millis : Number

-- The classes of the entities, and of the migrations.
pub data Entity : Type 0 where
  outbox_event consumed_event : Entity

pub data Migration : Type 0 where
  create_platform_foundation create_consumed_events : Migration

pub record Options : Type 0 where
  pub type : String
  pub url : String
  pub entities : List Entity
  pub migrations : List Migration
  pub migrations_run : Bool
  pub synchronize : Bool
  pub logging : Bool
  pub application_name : String
  pub ssl : Ssl
  pub extra : Extra

expected_positive : String → Thrown
expected_positive value =
    error "Error" ("Expected a positive integer, received \"" <> (value <> "\""))

unfoldable pub parse_positive_integer : Option String → Number → Outcome Number
unfolding expected_positive
parse_positive_integer none fallback = resolved fallback
parse_positive_integer (some value) fallback =
    let parsed = parse_int value in
    if not (truthy value)
    then resolved fallback
    else if not (is_integer parsed) || is_at_most_zero parsed
    then rejected (expected_positive value)
    else resolved parsed

abbrev and_then {ℓ} : {A B : Type ℓ} → Outcome A → (A → Outcome B) → Outcome B
and_then (resolved a) f = f a
and_then (rejected t) f = rejected t

is_text : String → Option String → Bool
is_text text none = false
is_text text (some s) = s == text

-- The three numbers are parsed in this order; the first that is refused throws.
unfoldable pub extra : Environment → Outcome Extra
extra env = and_then (parse_positive_integer env.pool_max (integer false 20)) λ max.
    and_then (parse_positive_integer env.connection_timeout_ms (integer false 5000)) λ connecting.
      and_then (parse_positive_integer env.idle_timeout_ms (integer false 30000)) λ idle.
        resolved
          (record { max = max; connection_timeout_millis = connecting; idle_timeout_millis = idle })

unfoldable pub ssl_of : Environment → Ssl
unfolding is_text
ssl_of env =
    if is_text "true" env.ssl then on (not (is_text "false" env.ssl_reject_unauthorized)) else off

abbrev pub url_required : Thrown
url_required = error "Error" "DATABASE_URL is required"

with_url : String → Environment → Outcome Options
unfolding is_text ssl_of extra
with_url url env = and_then (extra env) λ extra. resolved (record {
  type = "postgres";
  url = url;
  entities = outbox_event ∷ consumed_event ∷ [];
  migrations = create_platform_foundation ∷ create_consumed_events ∷ [];
  migrations_run = false;
  synchronize = false;
  logging = is_text "true" env.logging;
  application_name = or_default env.application_name "autospace-api";
  ssl = ssl_of env;
  extra = extra;
})

unfoldable pub database_options : Environment → Outcome Options
unfolding with_url
database_options env =
    if truthy? env.url then with_url (or_default env.url "") env else rejected url_required

-- A whole number above 0.
abbrev pub IsPositive : Number → Type 0
IsPositive n = (m : ℕ) × (n ≡ integer false m) × (0 < m)

positive_tests : (n : Number) → IsPositive n → (not (is_integer n) || is_at_most_zero n) ≡ false
positive_tests n (m, same, p) = rw same (ground arith)

number_cases : (n : Number) → IsPositive n ⊎ ((not (is_integer n) || is_at_most_zero n) ≡ true)
number_cases nan = inr refl
number_cases (infinite minus) = inr refl
number_cases (integer true n) = inr refl
number_cases (integer false n) = elim (Bool-cases (eqb n 0)) [
  | inl e ↦ inr e
  | inr e ↦ inl (n, refl, ground arith)
]

resolved_value {ℓ} : {A : Type ℓ} {a b : A} → resolved a ≡ resolved b → a ≡ b
resolved_value h = cc h

and_then_resolved {ℓ} :
    {A B : Type ℓ} (r : Outcome A) (f : A → Outcome B) (b : B)
    → and_then r f ≡ resolved b
    → (a : A) × (r ≡ resolved a) × (f a ≡ resolved b)
and_then_resolved (resolved a) f b h = (a, refl, h)
and_then_resolved (rejected t) f b h = cc h

parse_positive_integer-IsPositive :
    (value : Option String) (fallback n : Number)
    → IsPositive fallback
    → parse_positive_integer value fallback ≡ resolved n
    → IsPositive n
unfolding parse_positive_integer
parse_positive_integer-IsPositive none fallback n p h = subst IsPositive (resolved_value h) p
parse_positive_integer-IsPositive (some value) fallback n p h = elim (Bool-cases (truthy value)) [
  | inr empty ↦ subst IsPositive (ground (arith, empty, h)) p
  | inl given ↦ elim (number_cases (parse_int value)) [
    | inl q ↦
        subst IsPositive
          (resolved_value (sym (rw (given, positive_tests (parse_int value) q) refl) ∙ h)) q
    | inr refused ↦ absurd (ground (arith, given, refused, h))
  ]
]

extra-IsPositive :
    (env : Environment) (x : Extra)
    → extra env ≡ resolved x
    → IsPositive x.max × IsPositive x.connection_timeout_millis × IsPositive x.idle_timeout_millis
unfolding extra
extra-IsPositive env x h =
    let (a, first, h1) =
      and_then_resolved (parse_positive_integer env.pool_max (integer false 20)) _ x h in
    let (b, second, h2) =
      and_then_resolved (parse_positive_integer env.connection_timeout_ms (integer false 5000)) _ x
        h1 in
    let (c, third, h3) =
      and_then_resolved (parse_positive_integer env.idle_timeout_ms (integer false 30000)) _ x h2 in
    subst
      (λ (y : Extra).
        IsPositive y.max
        × IsPositive y.connection_timeout_millis
        × IsPositive y.idle_timeout_millis)
      (resolved_value h3)
      (
        parse_positive_integer-IsPositive env.pool_max _ a (20, refl, omega arith) first,
        parse_positive_integer-IsPositive env.connection_timeout_ms _ b (5000, refl, omega arith)
            second,
        parse_positive_integer-IsPositive env.idle_timeout_ms _ c (30000, refl, omega arith) third,
      )

abbrev pub IsValid : Options → Type 0
IsValid o =
    (truthy o.url ≡ true)
    × IsPositive o.extra.max
    × IsPositive o.extra.connection_timeout_millis
    × IsPositive o.extra.idle_timeout_millis

with_url_lem :
    (url : String) (env : Environment) (o : Options)
    → truthy url ≡ true
    → with_url url env ≡ resolved o
    → (o.url ≡ url) × IsValid o
unfolding with_url
with_url_lem url env o given h =
    let (x, parsed, made) = and_then_resolved (extra env) _ o h in
    let (p, q, r) = extra-IsPositive env x parsed in
    subst (λ (y : Options). (y.url ≡ url) × IsValid y) (resolved_value made)
      (refl, (given, p, q, r))

-- The classes that options list do not depend on the settings.
pub database_options-lists :
    (env : Environment) (o : Options)
    → database_options env ≡ resolved o
    → (o.entities ≡ outbox_event ∷ consumed_event ∷ [])
      × (o.migrations ≡ create_platform_foundation ∷ create_consumed_events ∷ [])
unfolding database_options with_url
database_options-lists env o h = elim (Bool-cases (truthy? env.url)) [
  | inr unset ↦ absurd (ground (arith, unset, h))
  | inl given ↦
      let made : with_url (or_default env.url "") env ≡ resolved o = sym (rw given refl) ∙ h in
      let (x, _, options) = and_then_resolved (extra env) _ o made in
      subst
        (λ (p : Options).
          (p.entities ≡ outbox_event ∷ consumed_event ∷ [])
          × (p.migrations ≡ create_platform_foundation ∷ create_consumed_events ∷ []))
        (resolved_value options) (refl, refl)
]

-- Options are only made of a database address that is not empty, and then the limit of the pool
-- and both timeouts are whole numbers above 0.
pub database_options_lem :
    (env : Environment) (o : Options)
    → database_options env ≡ resolved o
    → (env.url ≡ some o.url) × IsValid o
unfolding database_options
database_options_lem env o h = elim (Option-cases env.url) [
  | inl unset ↦ absurd (ground (arith, unset, h))
  | inr (url, set) ↦ elim (Bool-cases (truthy url)) [
    | inr empty ↦ absurd (ground (arith, set, empty, h))
    | inl given ↦
        let (same, valid) = with_url_lem url env o given (ground (arith, set, given, h)) in
        (set ∙ ap some (sym same), valid)
  ]
]
