-- ===== src/Registry.antt =====
-- include/NGIN/Log/LoggerRegistry.hpp: named loggers, defaults, and rules by name prefix. Each
-- operation runs under the registry's lock and is one step here. The loggers are kept in a list of
-- names and loggers, in the order of creation; a caller's pointer to a logger is its name.
-- `allocated` says of each logger whether the allocation of its next sink snapshot succeeds.
pub mod Prefix
pub mod Best
pub mod Config
pub mod Rules
pub mod Names
pub mod Operations
pub mod Failing
use ngin_log.Base.{
  ℕ, zero, suc, ◌+◌, Bool, true, false, not, ◌&&◌, ◌||◌, List, [], ◌∷◌, ◌++◌, map, Option, none,
  some, Bytes, ltb, leb, ◌==◌, if◌then◌else◌, length, bytes_eq, get_elem?,
}
use ngin_log.Level.{LogLevel, info, to_uint8}
use ngin_log.Logger.{Logger, make_logger, set_runtime_min, set_sinks}

abbrev pub SinkSet : Type 0
SinkSet = List (Option ℕ)

pub record LoggerConfig : Type 0 where
  pub runtime_min : LogLevel
  pub sinks : SinkSet

pub record LoggerRule : Type 0 where
  pub prefix : Bytes
  pub runtime_min : Option LogLevel
  pub sinks : Option SinkSet

pub record Registry : Type 0 where
  pub loggers : List (Bytes × Logger)
  pub default_sinks : SinkSet
  pub default_runtime_min : LogLevel
  pub rules : List LoggerRule

abbrev pub empty_registry : Registry
empty_registry = record { loggers = []; default_sinks = []; default_runtime_min = info; rules = [] }

-- `std::string_view::starts_with`.
unfoldable pub starts_with : Bytes → Bytes → Bool
starts_with name [] = true
starts_with [] (p ∷ ps) = false
starts_with (c ∷ cs) (p ∷ ps) = c == p && starts_with cs ps

abbrev is_byte : ℕ → Option ℕ → Bool
is_byte b none = false
is_byte b (some c) = c == b

-- `LoggerNameMatchesPrefix`.
unfoldable pub logger_name_matches_prefix : Bytes → Bytes → Bool
logger_name_matches_prefix name [] = true
logger_name_matches_prefix name (p ∷ ps) =
    if bytes_eq name (p ∷ ps)
    then true
    else (ltb (length (p ∷ ps)) (length name)
        && starts_with name (p ∷ ps)
        && is_byte b'.' (get_elem? name (length (p ∷ ps))))

-- One round of the search for the rule with the longest prefix.
unfoldable pub better : Bytes → Option LoggerRule → LoggerRule → Option LoggerRule
better name best rule =
    if logger_name_matches_prefix name rule.prefix
    then elim best [
      | none ↦ some rule
      | some b ↦ if ltb (length b.prefix) (length rule.prefix) then some rule else some b
    ]
    else best

unfoldable pub search_rules : Bytes → Option LoggerRule → List LoggerRule → Option LoggerRule
unfolding better
search_rules name best [] = best
search_rules name best (rule ∷ rules) = search_rules name (better name best rule) rules

abbrev pub or_default : {A : Type 0} → Option A → A → A
or_default none d = d
or_default (some a) d = a

-- The rule's settings over the defaults.
unfoldable pub with_rule : LoggerConfig → Option LoggerRule → LoggerConfig
with_rule config none = config
with_rule config (some rule) = record {
  runtime_min = or_default rule.runtime_min config.runtime_min;
  sinks = or_default rule.sinks config.sinks;
}

-- `ComputeEffectiveConfigLocked`.
unfoldable pub compute_effective_config : Registry → Bytes → LoggerConfig
unfolding search_rules with_rule
compute_effective_config g name =
    with_rule (record { runtime_min = g.default_runtime_min; sinks = g.default_sinks })
      (search_rules name none g.rules)

abbrev pub get_effective_config : Registry → Bytes → LoggerConfig
get_effective_config = compute_effective_config

abbrev pub get_default_sinks : Registry → SinkSet
get_default_sinks g = g.default_sinks

abbrev pub get_default_runtime_min : Registry → LogLevel
get_default_runtime_min g = g.default_runtime_min

-- `SetRuntimeMin` and `SetSinks` on one logger.
abbrev pub configure : Bool → LoggerConfig → Logger → Logger
configure allocated config l =
    set_sinks allocated (set_runtime_min l config.runtime_min) config.sinks

unfoldable pub configure_all :
    (Bytes → Bool) → Registry → List (Bytes × Logger) → List (Bytes × Logger)
configure_all allocated g [] = []
configure_all allocated g ((name, l) ∷ rest) =
    (name, configure (allocated name) (compute_effective_config g name) l)
    ∷ configure_all allocated g rest

-- `ApplyConfigUpdatesLocked`.
unfoldable pub apply_config_updates : (Bytes → Bool) → Registry → Registry
unfolding configure_all
apply_config_updates allocated g = record g { loggers = configure_all allocated g g.loggers }

unfoldable pub find : Bytes → List (Bytes × Logger) → Option Logger
find name [] = none
find name ((n, l) ∷ rest) = if bytes_eq n name then some l else find name rest

-- `Get`.
unfoldable pub get : Registry → Bytes → Option Logger
unfolding find
get g name = find name g.loggers

abbrev pub level_eq : LogLevel → LogLevel → Bool
level_eq a b = to_uint8 a == to_uint8 b

-- The level of a new logger.
unfoldable pub requested_min : Registry → LoggerConfig → LogLevel → LogLevel
requested_min g config runtime_min =
    if level_eq config.runtime_min g.default_runtime_min && not (level_eq runtime_min info)
    then runtime_min
    else config.runtime_min

-- `GetOrCreate`; the second search under the unique lock finds what the first one did.
unfoldable pub get_or_create : (Bytes → Bool) → Registry → Bytes → LogLevel → Logger × Registry
unfolding find requested_min
get_or_create allocated g name runtime_min = elim (find name g.loggers) [
  | some l ↦ (l, g)
  | none ↦
      let config = compute_effective_config g name in
      let l = make_logger (allocated name) name (requested_min g config runtime_min) config.sinks in
      (l, record g { loggers = g.loggers ++ (name, l) ∷ [] })
]

unfoldable pub set_default_runtime_min : (Bytes → Bool) → Registry → LogLevel → Registry
unfolding apply_config_updates
set_default_runtime_min allocated g runtime_min =
    apply_config_updates allocated (record g { default_runtime_min = runtime_min })

unfoldable pub set_default_sinks : (Bytes → Bool) → Registry → SinkSet → Registry
unfolding apply_config_updates
set_default_sinks allocated g sinks =
    apply_config_updates allocated (record g { default_sinks = sinks })

-- The loop of `UpsertRule` and the `push_back` behind it.
unfoldable pub upsert : LoggerRule → List LoggerRule → List LoggerRule
upsert rule [] = rule ∷ []
upsert rule (existing ∷ rules) =
    if bytes_eq existing.prefix rule.prefix then rule ∷ rules else existing ∷ upsert rule rules

unfoldable pub upsert_rule : (Bytes → Bool) → Registry → LoggerRule → Registry
unfolding upsert apply_config_updates
upsert_rule allocated g rule =
    apply_config_updates allocated (record g { rules = upsert rule g.rules })

-- The erase of `RemoveRule`.
unfoldable pub erase_prefix : Bytes → List LoggerRule → List LoggerRule
erase_prefix prefix [] = []
erase_prefix prefix (rule ∷ rules) =
    let rest = erase_prefix prefix rules in
    if bytes_eq rule.prefix prefix then rest else rule ∷ rest

unfoldable pub remove_rule : (Bytes → Bool) → Registry → Bytes → Registry
unfolding erase_prefix apply_config_updates
remove_rule allocated g prefix =
    apply_config_updates allocated (record g { rules = erase_prefix prefix g.rules })

unfoldable pub update : Bytes → (Logger → Logger) → List (Bytes × Logger) → List (Bytes × Logger)
update name f [] = []
update name f ((n, l) ∷ rest) =
    if bytes_eq n name then (n, f l) ∷ rest else (n, l) ∷ update name f rest

unfoldable pub set_logger_runtime_min : Registry → Bytes → LogLevel → Registry
unfolding update
set_logger_runtime_min g name level = record g {
  loggers = update name (λ l. set_runtime_min l level) g.loggers;
}

unfoldable pub replace_logger_sinks : (Bytes → Bool) → Registry → Bytes → SinkSet → Registry
unfolding update
replace_logger_sinks allocated g name sinks = record g {
  loggers = update name (λ l. set_sinks (allocated name) l sinks) g.loggers;
}

-- `<` of strings, by bytes.
unfoldable pub bytes_lt : Bytes → Bytes → Bool
bytes_lt xs [] = false
bytes_lt [] (y ∷ ys) = true
bytes_lt (x ∷ xs) (y ∷ ys) = ltb x y || x == y && bytes_lt xs ys

unfoldable pub insert_name : Bytes → List Bytes → List Bytes
insert_name n [] = n ∷ []
insert_name n (m ∷ ms) = if bytes_lt m n then m ∷ insert_name n ms else n ∷ m ∷ ms

unfoldable pub sort_names : List Bytes → List Bytes
sort_names [] = []
sort_names (n ∷ ns) = insert_name n (sort_names ns)

unfoldable pub names_of : List (Bytes × Logger) → List Bytes
names_of [] = []
names_of ((n, _) ∷ rest) = n ∷ names_of rest

-- `GetLoggerNames`, its `std::sort` as an insertion sort.
unfoldable pub get_logger_names : Registry → List Bytes
unfolding sort_names insert_name names_of
get_logger_names g = sort_names (names_of g.loggers)
