-- ===== src/Logger/Laws.antt =====
-- cmd/logger/logger.go: what the default logger writes, and which logger a configuration gives.
use consensus_proxy.Base.{
  ℕ, String, Bool, true, List, [], ◌∷◌, eq_iff, if◌then◌else◌, ◌≡◌, refl, ap, ◌∙◌, ◌⊎◌, inl, inr,
  arith, Bool-cases, none, some,
}
use consensus_proxy.Config.{Config}
use consensus_proxy.Config.Validation.{validate, among, valid_levels, valid_formats}
use consensus_proxy.Config.Validation.Laws.{validate_iff}
use consensus_proxy.Logger.{
  Level, level_debug, level_info, level_warn, level_error, Format, json_handler, text_handler,
  stdout, file, stderr, Attr, LogConfig, Logger, Logging, Written, new_logger,
  new_from_config_struct, level_of, output_of, format_of, record_of, enabled, log, default, or_new,
  init, log_default,
}

abbrev pub level_text : Level → String
level_text level_debug = "debug"
level_text level_info = "info"
level_text level_warn = "warn"
level_text level_error = "error"

abbrev pub format_text : Format → String
format_text json_handler = "json"
format_text text_handler = "text"

level_of-text : (s : String) → among s valid_levels ≡ true → level_text (level_of s) ≡ s
unfolding level_of
level_of-text s k =
    ground (arith, eq_iff s "debug", eq_iff s "info", eq_iff s "warn", eq_iff s "error")

format_of-text : (s : String) → among s valid_formats ≡ true → format_text (format_of s) ≡ s
unfolding format_of
format_of-text s k = ground (arith, eq_iff s "json", eq_iff s "text")

output_of-cases :
    (opens : String → Bool) (s : String)
    → ((output_of opens s ≡ file s) × (opens s ≡ true))
      ⊎ (output_of opens s ≡ stdout)
      ⊎ ((output_of opens s ≡ stderr) × (s ≡ "stderr"))
unfolding output_of
output_of-cases opens s = ground (arith, eq_iff s "stdout", eq_iff s "stderr")

-- A call of one of the four functions.
pub record LogCall : Type 0 where
  pub level : Level
  pub at : ℕ
  pub message : String
  pub args : List Attr

module _ (opens : String → Bool) (rfc3339 : ℕ → String) where
  abbrev pub log_all : List LogCall → Logging → Logging
  log_all [] st = st
  log_all (c ∷ cs) st = log_all cs (log_default opens rfc3339 c.level c.at c.message c.args st)

  -- The records of the calls, the latest first.
  abbrev pub records : Logger → List LogCall → List Written → List Written
  records l [] out = out
  records l (c ∷ cs) out =
      records l cs
        (if enabled l c.level then record_of rfc3339 c.at l c.level c.message c.args ∷ out else out)

  log_default-written :
      (c : LogCall) (st : Logging)
      → let l = or_new opens st.default_logger in
        let st' = log_default opens rfc3339 c.level c.at c.message c.args st in
        (st'.default_logger ≡ some l) × (st'.written ≡ records l (c ∷ []) st.written)
  unfolding log_default default log
  log_default-written c st = elim (Bool-cases (enabled (or_new opens st.default_logger) c.level)) [
    | inl e ↦ rw e (refl, refl)
    | inr e ↦ rw e (refl, refl)
  ]

  log_all-written :
      (cs : List LogCall) (st : Logging)
      → (log_all cs st).written ≡ records (or_new opens st.default_logger) cs st.written
  log_all-written [] st = refl
  log_all-written (c ∷ cs) st =
      let (kept, out) = log_default-written c st in
      log_all-written cs (log_default opens rfc3339 c.level c.at c.message c.args st)
      ∙ ap
          (λ o.
            records (or_new opens o) cs
              (log_default opens rfc3339 c.level c.at c.message c.args st).written)
          kept
      ∙ ap (records (or_new opens st.default_logger) cs) out

  -- What is logged before the default logger is initialised goes to the one that the first call
  -- creates, in JSON, to the standard output and from the level `info` on. What is logged later
  -- goes to the one of the configuration. Of both, exactly the records of an enabled level are
  -- written, in order.
  pub log_all-init :
      (before after : List LogCall) (config : LogConfig)
      → (log_all after (
          init opens
            (some config)
            (log_all before (record { default_logger = none; written = [] })))).written
        ≡ records (new_logger opens (some config)) after (
            records
              (record { level = level_info; format = json_handler; output = stdout; attrs = [] })
              before
              [])
  unfolding new_logger
  log_all-init before after config =
      log_all-written after
        (init opens (some config) (log_all before (record { default_logger = none; written = [] })))
      ∙ ap (records (new_logger opens (some config)) after)
          (log_all-written before (record { default_logger = none; written = [] }))

-- A configuration that is accepted gives a logger of the level and the format that it names, and of
-- the output that it names: a standard stream or a file that opens, or else the standard output.
pub new_logger-validate :
    (opens : String → Bool) (c : Config)
    → validate c ≡ none
    → let l = new_from_config_struct opens c.logger.level c.logger.format c.logger.output in
      (level_text l.level ≡ c.logger.level)
      × (format_text l.format ≡ c.logger.format)
      × (((l.output ≡ file c.logger.output) × (opens c.logger.output ≡ true))
          ⊎ (l.output ≡ stdout)
          ⊎ ((l.output ≡ stderr) × (c.logger.output ≡ "stderr")))
unfolding new_logger
new_logger-validate opens c h =
    let (levels, formats) = ((validate_iff c).0 h).logger in
    (
      level_of-text c.logger.level levels,
      format_of-text c.logger.format formats,
      output_of-cases opens c.logger.output,
    )
