-- ===== src/Config.antt =====
-- internal/config/config.go. Durations are texts, which main.go parses. A count that is negative is 0 here.
use microgate.Base.Int.{ℤ}
use microgate.Base.{
  ℕ, Bool, ◌⊎◌, inl, inr, List, [], ◌∷◌, ◌++◌, GoString, if◌then◌else◌, ltb, length, lit, str_eq,
}

pub record Route : Type 0 where
  pub path : GoString
  pub backend : GoString
  pub backends : List GoString
  pub strategy : GoString

unfoldable pub get_backends : Route → List GoString
get_backends r =
    if ltb 0 (length r.backends)
    then r.backends
    else if str_eq r.backend []
    then []
    else r.backend ∷ []

pub record RateLimitConfig (F : Type 0) : Type 0 where
  pub max_tokens : F
  pub refill_rate : F

pub record AuthConfig : Type 0 where
  pub api_keys : List GoString
  pub jwt_secret : GoString

-- The timeout is in seconds.
pub record CircuitBreakerConfig : Type 0 where
  pub threshold : ℕ
  pub timeout : ℕ

pub record ProcessConfig : Type 0 where
  pub id : GoString
  pub command : GoString
  pub args : List GoString
  pub port : ℤ
  pub auto_start : Bool

pub record AnalyticsConfig : Type 0 where
  pub enabled : Bool
  pub bucket_interval : GoString
  pub retention : GoString
  pub analyzer_interval : GoString

pub record AdaptiveRateLimitConfig (F : Type 0) : Type 0 where
  pub enabled : Bool
  pub multiplier : F
  pub min_limit : F
  pub max_limit : F
  pub learning_period : GoString

pub record WeightedLbConfig : Type 0 where
  pub enabled : Bool
  pub rebalance_interval : GoString

pub record DashboardConfig : Type 0 where
  pub enabled : Bool
  pub log_capacity : ℕ
  pub sse_buffer : ℕ

-- `port` and `health_interval` are the only fields of `ServerConfig` and `HealthCheckConfig`.
pub record Config (F : Type 0) : Type 0 where
  pub port : ℤ
  pub routes : List Route
  pub rate_limit : RateLimitConfig F
  pub auth : AuthConfig
  pub circuit_breaker : CircuitBreakerConfig
  pub health_interval : ℕ
  pub dashboard : DashboardConfig
  pub processes : List ProcessConfig
  pub analytics : AnalyticsConfig
  pub adaptive_rate_limit : AdaptiveRateLimitConfig F
  pub weighted_lb : WeightedLbConfig

module _ {F : Type 0} where
  parsed : GoString ⊎ Config F → GoString ⊎ Config F
  parsed (inl err) = inl (lit "failed to parse config file: " ++ err)
  parsed (inr cfg) = inr cfg

  parse_file : (GoString → GoString ⊎ Config F) → GoString ⊎ GoString → GoString ⊎ Config F
  unfolding parsed
  parse_file unmarshal (inl err) = inl (lit "failed to read config file: " ++ err)
  parse_file unmarshal (inr data') = parsed (unmarshal data')

  -- `read_file` and `unmarshal` stand for os.ReadFile and yaml.Unmarshal: a text of an error, or what is read.
  unfoldable pub load_config :
      (GoString → GoString ⊎ GoString)
      → (GoString → GoString ⊎ Config F)
      → GoString
      → GoString ⊎ Config F
  unfolding parse_file
  load_config read_file unmarshal filename = parse_file unmarshal (read_file filename)
