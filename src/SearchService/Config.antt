-- ===== src/SearchService/Config.antt =====
-- internal/config/config.go: `FromEnv`.
use autospace_parking.Prelude.{
  ℕ, ◌≤◌, String, ◌<>◌, ◌≡◌, refl, inl, inr, Bool, true, false, ◌&&◌, Option, none, some, leb,
  if◌then◌else◌, arith, Bool-cases,
}
use autospace_parking.Go.Env.{
  ℤ, pos, negsuc, is_positive, Result, ok, err, Environment, env_or_default, atoi,
}

-- `time.ParseDuration` in nanoseconds, with `none` for an error; the levels of log/slog with their
-- `UnmarshalText`; and how a time in milliseconds is written as JSON.
pub record Platform : Type 1 where
  pub parse_duration : String → Option ℤ
  pub Level : Type 0
  pub unmarshal_level : String → Result Level
  pub write_time : ℕ → String

module _ (P : Platform) where
  pub record Config : Type 0 where
    pub port : String
    pub log_level : P.Level
    pub shutdown_timeout : ℤ

  abbrev pub is_port : Option ℤ → Bool
  is_port none = false
  is_port (some (pos n)) = leb 1 n && leb n 65535
  is_port (some (negsuc n)) = false

  abbrev pub timeout_error : String
  timeout_error = "SHUTDOWN_TIMEOUT must be a positive duration"

  unfoldable pub with_timeout : String → P.Level → Option ℤ → Result Config
  with_timeout port level none = err timeout_error
  with_timeout port level (some timeout) =
      if is_positive timeout
      then ok (record { port = port; log_level = level; shutdown_timeout = timeout })
      else err timeout_error

  unfoldable pub with_level : String → Result P.Level → Option ℤ → Result Config
  unfolding with_timeout
  with_level port (err e) timeout = err ("LOG_LEVEL: " <> e)
  with_level port (ok level) timeout = with_timeout port level timeout

  unfoldable pub from_env : Environment → Result Config
  unfolding with_level
  from_env env =
      let port = env_or_default env "PORT" "8080" in
      if is_port (atoi port)
      then with_level port (P.unmarshal_level (env_or_default env "LOG_LEVEL" "info"))
          (P.parse_duration (env_or_default env "SHUTDOWN_TIMEOUT" "10s"))
      else err "PORT must be between 1 and 65535"

  -- What holds of each setting.
  pub record IsValid (env : Environment) (cfg : Config) : Type 0 where
    pub port : cfg.port ≡ env_or_default env "PORT" "8080"
    pub number : (n : ℕ) × (atoi cfg.port ≡ some (pos n)) × (1 ≤ n) × (n ≤ 65535)
    pub level : P.unmarshal_level (env_or_default env "LOG_LEVEL" "info") ≡ ok cfg.log_level
    pub timeout :
        (P.parse_duration (env_or_default env "SHUTDOWN_TIMEOUT" "10s") ≡ some cfg.shutdown_timeout)
        × (is_positive cfg.shutdown_timeout ≡ true)

  is_port-cases :
      (o : Option ℤ) → is_port o ≡ true → (n : ℕ) × (o ≡ some (pos n)) × (1 ≤ n) × (n ≤ 65535)
  is_port-cases none h = cc h
  is_port-cases (some (pos n)) h = (n, refl, ground arith, ground arith)
  is_port-cases (some (negsuc n)) h = cc h

  made_of :
      (port : String) (level : Result P.Level) (timeout : Option ℤ) (cfg : Config)
      → with_level port level timeout ≡ ok cfg
      → (cfg.port ≡ port)
        × (level ≡ ok cfg.log_level)
        × (timeout ≡ some cfg.shutdown_timeout)
        × (is_positive cfg.shutdown_timeout ≡ true)
  unfolding with_level with_timeout
  made_of port (err e) timeout cfg h = cc h
  made_of port (ok level) none cfg h = cc h
  made_of port (ok level) (some timeout) cfg h = ground arith

  -- If the settings of the search service are accepted, its port is the one of the environment or
  -- 8080 and a number from 1 to 65535, its level is the one that the text of the environment or
  -- "info" stands for, and its timeout is that of the environment or of "10s", and is above 0.
  pub from_env-IsValid :
      (env : Environment) (cfg : Config) → from_env env ≡ ok cfg → IsValid env cfg
  unfolding from_env
  from_env-IsValid env cfg h =
      elim (Bool-cases (is_port (atoi (env_or_default env "PORT" "8080")))) [
        | inr bad ↦ absurd (ground (arith, bad, h))
        | inl good ↦
            let (port, level, timeout, positive) = made_of _ _ _ cfg (rw good at h) in
            record {
              port = port;
              number = rw port (is_port-cases _ good);
              level = level;
              timeout = (timeout, positive);
            }
      ]
