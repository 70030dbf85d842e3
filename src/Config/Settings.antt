-- ===== src/Config/Settings.antt =====
-- pkg/config/config.go: the configuration, its default and the zero value of its type.
use mcp_xlsm_server.Prelude.{ℕ, ◌*◌, ◌^◌, Bool, true, false, List, [], ◌∷◌, String, ℤ, pos}

-- A `time.Duration`, in nanoseconds.
abbrev pub Duration : Type 0
Duration = ℤ

abbrev pub seconds : ℕ → Duration
seconds n = pos (n * 10 ^ 9)

pub record ServerConfig : Type 0 where
  pub host : String
  pub port : ℤ
  pub max_file_size : String
  pub max_concurrent_reqs : ℤ
  pub request_timeout : Duration
  pub shutdown_grace_period : Duration

pub record PerformanceConfig : Type 0 where
  pub worker_pool_size : ℤ
  pub buffer_size : String
  pub stream_threshold : String

pub record ToolLimits : Type 0 where
  pub rate : String
  pub timeout : Duration
  pub max_memory : String

pub record LimitsConfig : Type 0 where
  pub analyze_file : ToolLimits
  pub build_navigation : ToolLimits
  pub query_data : ToolLimits

pub record CacheConfig : Type 0 where
  pub max_memory : String
  pub default_ttl : Duration
  pub hot_data_ttl : Duration
  pub eviction_policy : String
  pub cleanup_interval : Duration

pub record PrometheusConfig : Type 0 where
  pub enabled : Bool
  pub port : ℤ
  pub namespace : String

-- The rate is a floating-point number, given by its decimal text.
pub record TracingConfig : Type 0 where
  pub enabled : Bool
  pub sampling_rate : String
  pub exporter : String

pub record LoggingConfig : Type 0 where
  pub level : String
  pub format : String
  pub output : String
  pub error_file : String

pub record MonitoringConfig : Type 0 where
  pub prometheus : PrometheusConfig
  pub metrics : List String
  pub tracing : TracingConfig
  pub logging : LoggingConfig

pub record HealthcheckConfig : Type 0 where
  pub endpoint : String
  pub interval : Duration
  pub threshold : ℤ

pub record Config : Type 0 where
  pub server : ServerConfig
  pub performance : PerformanceConfig
  pub limits : LimitsConfig
  pub cache : CacheConfig
  pub monitoring : MonitoringConfig
  pub healthcheck : HealthcheckConfig

abbrev pub tool_limits : String → ℕ → String → ToolLimits
tool_limits rate n memory = record { rate = rate; timeout = seconds n; max_memory = memory }

abbrev pub default_config : Config
default_config = record {
  server = record {
    host = "0.0.0.0";
    port = pos 3000;
    max_file_size = "500MB";
    max_concurrent_reqs = pos 10;
    request_timeout = seconds 30;
    shutdown_grace_period = seconds 10;
  };
  performance = record {
    worker_pool_size = pos 8;
    buffer_size = "64KB";
    stream_threshold = "10MB";
  };
  limits = record {
    analyze_file = tool_limits "10/min" 30 "2GB";
    build_navigation = tool_limits "30/min" 20 "1GB";
    query_data = tool_limits "100/min" 10 "500MB";
  };
  cache = record {
    max_memory = "100MB";
    default_ttl = seconds 300;
    hot_data_ttl = seconds 600;
    eviction_policy = "lru";
    cleanup_interval = seconds 60;
  };
  monitoring = record {
    prometheus = record { enabled = true; port = pos 9090; namespace = "mcp_xlsm" };
    metrics =
        "request_duration_seconds" ∷ "token_usage_total" ∷ "cache_hit_ratio" ∷ "memory_usage_bytes"
        ∷ "index_rebuild_total" ∷ [];
    tracing = record { enabled = true; sampling_rate = "0.1"; exporter = "jaeger" };
    logging = record {
      level = "info";
      format = "json";
      output = "stdout";
      error_file = "/var/log/mcp-xlsm/error.log";
    };
  };
  healthcheck = record { endpoint = "/health"; interval = seconds 10; threshold = pos 3 };
}

-- `var cfg Config`
abbrev pub zero_limits : ToolLimits
zero_limits = record { rate = ""; timeout = pos 0; max_memory = "" }

abbrev pub zero_config : Config
zero_config = record {
  server = record {
    host = "";
    port = pos 0;
    max_file_size = "";
    max_concurrent_reqs = pos 0;
    request_timeout = pos 0;
    shutdown_grace_period = pos 0;
  };
  performance = record { worker_pool_size = pos 0; buffer_size = ""; stream_threshold = "" };
  limits = record {
    analyze_file = zero_limits;
    build_navigation = zero_limits;
    query_data = zero_limits;
  };
  cache = record {
    max_memory = "";
    default_ttl = pos 0;
    hot_data_ttl = pos 0;
    eviction_policy = "";
    cleanup_interval = pos 0;
  };
  monitoring = record {
    prometheus = record { enabled = false; port = pos 0; namespace = "" };
    metrics = [];
    tracing = record { enabled = false; sampling_rate = "0"; exporter = "" };
    logging = record { level = ""; format = ""; output = ""; error_file = "" };
  };
  healthcheck = record { endpoint = ""; interval = pos 0; threshold = pos 0 };
}
