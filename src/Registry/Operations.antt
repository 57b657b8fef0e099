-- ===== src/Registry/Operations.antt =====
-- Any use of a registry of include/NGIN/Log/LoggerRegistry.hpp from its construction on.
use ngin_log.Base.{
  Bool, true, List, [], ◌∷◌, Option, none, some, Bytes, All, arith, bytes_eq, bytes_eq_iff, ◌≡◌,
  refl, subst, inl, inr, Bool-cases,
}
use ngin_log.Level.{LogLevel, info, to_uint8}
use ngin_log.Logger.{Logger}
use ngin_log.Registry.{
  SinkSet, LoggerRule, Registry, empty_registry, or_default, with_rule, search_rules,
  compute_effective_config, find, get, get_or_create, set_default_runtime_min, set_default_sinks,
  upsert_rule, remove_rule,
}
use ngin_log.Registry.Best.{IsBest, search_rules-IsBest}
use ngin_log.Registry.Config.{Follows, Synced, updates-Synced, get_or_create-Synced}

-- The operations on the registry, `GetOrCreate` without a requested level among them.
pub data Operation : Type 0 where
  default_runtime_min_ : LogLevel → Operation
  default_sinks_ : SinkSet → Operation
  upsert_ : LoggerRule → Operation
  remove_ : Bytes → Operation
  get_or_create_ : Bytes → Operation

-- No allocation fails.
abbrev pub always : Bytes → Bool
always name = true

-- An operation, with the loggers' names for which a snapshot of sinks can be allocated.
unfoldable pub operate : (Bytes → Bool) → Operation → Registry → Registry
operate allocated (default_runtime_min_ m) g = set_default_runtime_min allocated g m
operate allocated (default_sinks_ sinks) g = set_default_sinks allocated g sinks
operate allocated (upsert_ rule) g = upsert_rule allocated g rule
operate allocated (remove_ prefix) g = remove_rule allocated g prefix
operate allocated (get_or_create_ name) g = (get_or_create allocated g name info).1

unfoldable pub operate_all : List Operation → Registry → Registry
unfolding operate
operate_all [] g = g
operate_all (o ∷ os) g = operate_all os (operate always o g)

-- The operations that bring the registry's loggers up to date.
pub data IsUpdate : Operation → Type 0 where
  default_runtime_min_is : {m : LogLevel} → IsUpdate (default_runtime_min_ m)
  default_sinks_is : {sinks : SinkSet} → IsUpdate (default_sinks_ sinks)
  upsert_is : {rule : LoggerRule} → IsUpdate (upsert_ rule)
  remove_is : {prefix : Bytes} → IsUpdate (remove_ prefix)

abbrev no_rule : LoggerRule
no_rule = record { prefix = []; runtime_min = none; sinks = none }

-- Whatever failed before, an update that can allocate all snapshots brings each logger in line.
pub update-Synced : (o : Operation) (g : Registry) → IsUpdate o → Synced (operate always o g)
unfolding operate
update-Synced (default_runtime_min_ m) g u =
    (updates-Synced always g m [] no_rule [] (λ name. refl)).0
update-Synced (default_sinks_ sinks) g u =
    (updates-Synced always g info sinks no_rule [] (λ name. refl)).1
update-Synced (upsert_ rule) g u = (updates-Synced always g info [] rule [] (λ name. refl)).2
update-Synced (remove_ prefix) g u =
    (updates-Synced always g info [] no_rule prefix (λ name. refl)).3
update-Synced (get_or_create_ name) g u = elim u [ ]

operate-Synced : (o : Operation) (g : Registry) → Synced g → Synced (operate always o g)
unfolding operate
operate-Synced (default_runtime_min_ m) g h =
    update-Synced (default_runtime_min_ m) g default_runtime_min_is
operate-Synced (default_sinks_ sinks) g h = update-Synced (default_sinks_ sinks) g default_sinks_is
operate-Synced (upsert_ rule) g h = update-Synced (upsert_ rule) g upsert_is
operate-Synced (remove_ prefix) g h = update-Synced (remove_ prefix) g remove_is
operate-Synced (get_or_create_ name) g h = get_or_create-Synced always g name refl h

operate_all-Synced : (os : List Operation) (g : Registry) → Synced g → Synced (operate_all os g)
unfolding operate_all
operate_all-Synced [] g h = h
operate_all-Synced (o ∷ os) g h = operate_all-Synced os (operate always o g) (operate-Synced o g h)

-- What holds of each logger under its name holds of the one that is found.
pub find-All :
    (P : Bytes → Logger → Type 0) (ls : List (Bytes × Logger)) (name : Bytes) (l : Logger)
    → All (λ (e : Bytes × Logger). P e.0 e.1) ls
    → find name ls ≡ some l
    → P name l
unfolding find
find-All P [] name l h e = cc
find-All P ((n, x) ∷ rest) name l (h, hs) e = elim (Bool-cases (bytes_eq n name)) [
  | inl q ↦
      let same : x ≡ l = ground arith in
      subst (λ m. P m l) ((bytes_eq_iff n name).0 q) (subst (P n) same h)
  | inr q ↦ find-All P rest name l hs (ground arith)
]

-- The level and the sinks that a best rule gives over the defaults.
abbrev pub level_of : Option LoggerRule → LogLevel → LogLevel
level_of none m = m
level_of (some rule) m = or_default rule.runtime_min m

abbrev pub sinks_of : Option LoggerRule → SinkSet → SinkSet
sinks_of none sinks = sinks
sinks_of (some rule) sinks = or_default rule.sinks sinks

-- A logger has the level and the sinks of the best rule for its name, and the registry's defaults where
-- no rule covers it or the rule says nothing.
pub record IsConfigured (g : Registry) (name : Bytes) (l : Logger) : Type 0 where
  pub best : Option LoggerRule
  pub is_best : IsBest name g.rules best
  pub level : l.runtime_min ≡ to_uint8 (level_of best g.default_runtime_min)
  pub sinks : l.active_sinks ≡ some (sinks_of best g.default_sinks)

pub IsConfigured-by :
    (g : Registry) (name : Bytes) (l : Logger) (best : Option LoggerRule)
    → IsBest name g.rules best
    → let config =
        with_rule (record { runtime_min = g.default_runtime_min; sinks = g.default_sinks }) best in
      (l.runtime_min ≡ to_uint8 config.runtime_min) × (l.active_sinks ≡ some config.sinks)
      → IsConfigured g name l
unfolding with_rule
IsConfigured-by g name l none b (p, q) = record { best = none; is_best = b; level = p; sinks = q }
IsConfigured-by g name l (some rule) b (p, q) = record {
  best = some rule;
  is_best = b;
  level = p;
  sinks = q;
}

-- A new registry is put to any use: defaults are set, rules are put in, replaced and removed, and loggers
-- are created without a requested level, in any order. Where no allocation fails, every logger that the
-- registry then holds under a name has the level and the sinks of the best rule for that name among the
-- rules as they then are, and the defaults as they then are where there is no such rule or the rule leaves
-- them open.
pub operate_all-IsConfigured :
    (os : List Operation) (name : Bytes) (l : Logger)
    → let g = operate_all os empty_registry in get g name ≡ some l → IsConfigured g name l
unfolding get compute_effective_config
operate_all-IsConfigured os name l e =
    let g = operate_all os empty_registry in
    IsConfigured-by g name l (search_rules name none g.rules) (search_rules-IsBest name g.rules)
      (find-All (Follows g) g.loggers name l (operate_all-Synced os empty_registry tt) e)
