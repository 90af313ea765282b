-- ===== src/Logger/Tests.antt =====
-- Small runs of cmd/logger/logger.go.
use consensus_proxy.Base.{ℕ, String, Bool, [], ◌∷◌, str_eq, ◌≡◌, none, some}
use consensus_proxy.Logger.{level_info, json_handler, stdout, LogConfig, new_logger, init}
use consensus_proxy.Logger.Laws.{LogCall, log_all, records, log_all-init}

abbrev opens : String → Bool
opens s = str_eq s "proxy.log"

abbrev to_file : LogConfig
to_file = record { level = "warn"; format = "text"; output = "proxy.log" }

-- A message that is below the level of the configuration.
abbrev hello : LogCall
hello = record { level = level_info; at = 7; message = "hello"; args = [] }

abbrev rfc3339 : ℕ → String
rfc3339 t = "1970-01-01T00:00:00Z"

init_example :
    (log_all opens rfc3339 (hello ∷ []) (
      init opens (some to_file) (
        log_all opens rfc3339
          (hello ∷ [])
          (record { default_logger = none; written = [] })))).written
    ≡ records opens rfc3339 (new_logger opens (some to_file)) (hello ∷ []) (
        records opens rfc3339
          (record { level = level_info; format = json_handler; output = stdout; attrs = [] })
          (hello ∷ [])
          [])
init_example = log_all-init opens rfc3339 (hello ∷ []) (hello ∷ []) to_file
