-- ===== src/AvailabilityService/Served.antt =====
-- When the availability service serves HTTP at all.
use autospace_parking.Prelude.{
  String, ◌<>◌, ◌≡◌, refl, sym, subst, ap, ◌⊎◌, inl, inr, Bool, true, false, ◌==◌, eq_iff, Option,
  List, [], ◌∷◌, Bool-cases,
}
use autospace_parking.Go.Env.{ℤ, is_positive, ok, Result-cases, Environment}
use autospace_parking.AvailabilityService.Config.{Config, from_env, from_env_positive}
use autospace_parking.AvailabilityService.Main.{
  Action, serves_http, First, signalled, failed, Happens, healthcheck, Database, opened,
  open_database, wait, serve, with_database, run, main,
}

-- The addresses at which HTTP is served.
abbrev pub served : List Action → List String
served [] = []
served (serves_http address ∷ actions) = address ∷ served actions
served (_ ∷ actions) = served actions

served-wait :
    (has_database : Bool) (cfg : Config) (h : Happens) (first : First)
    → served (wait has_database cfg h first).0 ≡ []
unfolding wait
served-wait true cfg h signalled = elim (Bool-cases (h.shut_down cfg.shutdown_timeout)) [
  | inl e ↦ rw e refl
  | inr e ↦ rw e refl
]
served-wait false cfg h signalled = elim (Bool-cases (h.shut_down cfg.shutdown_timeout)) [
  | inl e ↦ rw e refl
  | inr e ↦ rw e refl
]
served-wait true cfg h (failed true) = refl
served-wait true cfg h (failed false) = refl
served-wait false cfg h (failed true) = refl
served-wait false cfg h (failed false) = refl

-- The database answered, if there is one.
abbrev pub Reachable : Config → Happens → Type 0
Reachable cfg h =
    (cfg.database_url ≡ "")
    ⊎ ((h.opens cfg.database_url ≡ true) × (h.pings cfg.database_url ≡ true))

-- HTTP is not served, or it is served at the port of the settings, with its conditions.
abbrev pub Serving : Config → Happens → List Action → Type 0
Serving cfg h actions =
    (served actions ≡ [])
    ⊎ ((served actions ≡ (":" <> cfg.port) ∷ [])
        × (h.listens (":" <> cfg.grpc_port) ≡ true)
        × Reachable cfg h)

serve-Serving :
    (has_database : Bool) (cfg : Config) (h : Happens)
    → Reachable cfg h
    → Serving cfg h (serve has_database cfg h).0
unfolding serve
serve-Serving has_database cfg h there = elim (Bool-cases (h.listens (":" <> cfg.grpc_port))) [
  | inl free ↦ inr (
    rw free
        (ap (λ (s : List String). (":" <> cfg.port) ∷ s) (served-wait has_database cfg h h.first)),
    free,
    there,
  )
  | inr taken ↦ inl (rw taken refl)
]

with_database-Serving :
    (cfg : Config) (h : Happens)
    → Serving cfg h (with_database (open_database cfg.database_url h) cfg h).0
unfolding with_database open_database
with_database-Serving cfg h = elim (Bool-cases (cfg.database_url == "")) [
  | inl none_set ↦
      rw none_set (serve-Serving false cfg h (inl ((eq_iff cfg.database_url "").0 none_set)))
  | inr set ↦ elim (Bool-cases (h.opens cfg.database_url)) [
    | inr e ↦ inl (rw (set, e) refl)
    | inl o ↦ elim (Bool-cases (h.pings cfg.database_url)) [
      | inr e ↦ inl (rw (set, o, e) refl)
      | inl p ↦
          let same : open_database cfg.database_url h ≡ opened = rw (set, o, p) refl in
          subst (λ (d : Database). Serving cfg h (with_database d cfg h).0) (sym same)
            (serve-Serving true cfg h (inr (o, p)))
    ]
  ]
]

run-Serving :
    (arguments : List String) (cfg : Config) (h : Happens)
    → Serving cfg h (run arguments (ok cfg) h).0
unfolding run healthcheck
run-Serving [] cfg h = with_database-Serving cfg h
run-Serving (argument ∷ more) cfg h = elim (Bool-cases (argument == "healthcheck")) [
  | inl check ↦ inl (rw check refl)
  | inr other ↦ rw other (with_database-Serving cfg h)
]

-- The availability service serves HTTP at no address, or at one only: then its settings were
-- accepted with a timeout above 0, the address is that of their port, the gRPC listener was
-- opened, and there is no address of a database or the database was opened and answered.
pub served-main :
    (parse_duration : String → Option ℤ) (arguments : List String) (env : Environment) (h : Happens)
    → (served (main parse_duration arguments env h).0 ≡ [])
      ⊎ ((cfg : Config) × (from_env parse_duration env ≡ ok cfg)
          × (is_positive cfg.shutdown_timeout ≡ true)
          × (served (main parse_duration arguments env h).0 ≡ (":" <> cfg.port) ∷ [])
          × (h.listens (":" <> cfg.grpc_port) ≡ true)
          × Reachable cfg h)
unfolding main
served-main parse_duration arguments env h = elim (Result-cases (from_env parse_duration env)) [
  | inr (e, wrong) ↦ inl (rw wrong (unfold run in refl))
  | inl (cfg, made) ↦ elim (run-Serving arguments cfg h) [
    | inl nowhere ↦ inl (rw made nowhere)
    | inr (at, free, there) ↦
        inr (cfg, made, from_env_positive parse_duration env cfg made, rw made at, free, there)
  ]
]
