-- ===== src/Tests/Registries.antt =====
-- Runs of the registry.
use ngin_log.Base.{
  Bool, true, false, List, [], ◌∷◌, some, none, if◌then◌else◌, bytes_eq_iff, bytes_eq_refl, Bytes,
  ap, ◌∙◌, ◌≡◌, ◌↔◌, refl, arith,
}
use ngin_log.Level.{debug, info, warn, codes}
use ngin_log.Logger.{Logger}
use ngin_log.Registry.{
  LoggerRule, Registry, empty_registry, logger_name_matches_prefix, search_rules,
  compute_effective_config, find, get, get_or_create, set_default_runtime_min, set_default_sinks,
  upsert_rule, remove_rule, upsert, configure, apply_config_updates,
}
use ngin_log.Registry.Prefix.{Covers, logger_name_matches_prefix_iff}
use ngin_log.Registry.Best.{
  In, IsBest, DistinctRules, search_rules-IsBest, compute_effective_config-order,
}
use ngin_log.Registry.Config.{find-configure_all, Synced, updates-Synced, get_or_create-get}
use ngin_log.Registry.Operations.{
  Operation, default_runtime_min_, default_sinks_, upsert_, remove_, get_or_create_, operate_all,
  IsConfigured, operate_all-IsConfigured, always, operate, upsert_is,
}
use ngin_log.Registry.Failing.{attempt_all, HasLevel, attempt_all-HasLevel}
use ngin_log.Tests.{a_logger}

abbrev net : LoggerRule
net = record { prefix = codes "Net"; runtime_min = some warn; sinks = none }

abbrev http : LoggerRule
http = record { prefix = codes "Net.Http"; runtime_min = some debug; sinks = some (some 3 ∷ []) }

-- Defaults and two rules, and one logger.
abbrev two_rules : Registry
two_rules = record {
  loggers = (codes "Net", a_logger) ∷ [];
  default_sinks = some 1 ∷ [];
  default_runtime_min = info;
  rules = net ∷ http ∷ [];
}

abbrev other_order : Registry
other_order = record two_rules { rules = http ∷ net ∷ [] }

logger_name_matches_prefix_iff_example :
    (logger_name_matches_prefix (codes "Net.Http") (codes "Net") ≡ true)
    ↔ Covers (codes "Net") (codes "Net.Http")
logger_name_matches_prefix_iff_example =
    logger_name_matches_prefix_iff (codes "Net.Http") (codes "Net")

search_rules-IsBest_example :
    IsBest
      (codes "Net.Http.Client")
      (net ∷ http ∷ [])
      (search_rules (codes "Net.Http.Client") none (net ∷ http ∷ []))
search_rules-IsBest_example = search_rules-IsBest (codes "Net.Http.Client") (net ∷ http ∷ [])

both_orders : (r : LoggerRule) → In r (net ∷ http ∷ []) ↔ In r (http ∷ net ∷ [])
both_orders r = ground arith

two_rules-DistinctRules : DistinctRules (net ∷ http ∷ [])
two_rules-DistinctRules =
    ((ground (arith, bytes_eq_iff (codes "Net") (codes "Net.Http")), tt), (tt, tt))

compute_effective_config-order_example :
    compute_effective_config two_rules (codes "Net.Http")
    ≡ compute_effective_config other_order (codes "Net.Http")
compute_effective_config-order_example =
    compute_effective_config-order two_rules other_order (codes "Net.Http") refl refl
      two_rules-DistinctRules both_orders

abbrev never : Bytes → Bool
never name = false

synced :
    Synced (set_default_runtime_min always two_rules debug)
    × Synced (set_default_sinks always two_rules [])
    × Synced (upsert_rule always two_rules http)
    × Synced (remove_rule always two_rules (codes "Net"))
synced = updates-Synced always two_rules debug [] http (codes "Net") (λ name. refl)

found : get two_rules (codes "Net") ≡ some a_logger
unfolding get find
found = rw (bytes_eq_refl (codes "Net")) refl

-- A level, two rules, of which one goes again, and a logger that the other covers.
abbrev some_operations : List Operation
some_operations =
    default_runtime_min_ debug
    ∷ upsert_ net
    ∷ upsert_ http
    ∷ remove_ (codes "Net.Http")
    ∷ default_sinks_ (some 4 ∷ [])
    ∷ []

abbrev prepared : Registry
prepared = operate_all some_operations empty_registry

abbrev then_created : List Operation
then_created =
    default_runtime_min_ debug
    ∷ upsert_ net
    ∷ upsert_ http
    ∷ remove_ (codes "Net.Http")
    ∷ default_sinks_ (some 4 ∷ [])
    ∷ get_or_create_ (codes "Net.Http")
    ∷ []

abbrev the_logger : Logger
the_logger = (get_or_create always prepared (codes "Net.Http") info).0

created : get (operate_all then_created empty_registry) (codes "Net.Http") ≡ some the_logger
unfolding operate_all
created =
    (get_or_create-get always always prepared (codes "Net.Http") (codes "Net.Http") info info).0
    ∙ ap (λ b. if b then some the_logger else get prepared (codes "Net.Http"))
        (bytes_eq_refl (codes "Net.Http"))

operate_all-IsConfigured_example :
    IsConfigured (operate_all then_created empty_registry) (codes "Net.Http") the_logger
operate_all-IsConfigured_example =
    operate_all-IsConfigured then_created (codes "Net.Http") the_logger created

-- A registry in which no snapshot is allocated, neither for its new logger nor for an earlier update; and then
-- an update that allocates them.
abbrev before_creation : Registry
before_creation = set_default_sinks never (upsert_rule always empty_registry net) (some 4 ∷ [])

abbrev some_attempts : List (Operation × (Bytes → Bool))
some_attempts =
    (upsert_ net, always)
    ∷ (default_sinks_ (some 4 ∷ []), never)
    ∷ (get_or_create_ (codes "Net.Db"), never)
    ∷ []

abbrev poor_logger : Logger
poor_logger = (get_or_create never before_creation (codes "Net.Db") info).0

poor_created : get (attempt_all some_attempts empty_registry) (codes "Net.Db") ≡ some poor_logger
unfolding operate
poor_created =
    (get_or_create-get never never before_creation (codes "Net.Db") (codes "Net.Db") info info).0
    ∙ ap (λ b. if b then some poor_logger else get before_creation (codes "Net.Db"))
        (bytes_eq_refl (codes "Net.Db"))

abbrev with_http : Registry
with_http =
    let g = attempt_all some_attempts empty_registry in record g { rules = upsert http g.rules }

abbrev rich_logger : Logger
rich_logger = configure true (compute_effective_config with_http (codes "Net.Db")) poor_logger

rich_updated :
    get (operate always (upsert_ http) (attempt_all some_attempts empty_registry)) (codes "Net.Db")
    ≡ some rich_logger
unfolding operate get upsert_rule apply_config_updates compute_effective_config
rich_updated =
    find-configure_all always with_http (attempt_all some_attempts empty_registry).loggers
      (codes "Net.Db") poor_logger poor_created

attempt_all-HasLevel_example :
    HasLevel (attempt_all some_attempts empty_registry) (codes "Net.Db") poor_logger
    × IsConfigured
        (operate always (upsert_ http) (attempt_all some_attempts empty_registry))
        (codes "Net.Db")
        rich_logger
attempt_all-HasLevel_example =
    attempt_all-HasLevel some_attempts (upsert_ http) (codes "Net.Db") poor_logger rich_logger
      poor_created upsert_is rich_updated
