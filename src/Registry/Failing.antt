-- ===== src/Registry/Failing.antt =====
-- Any use of a registry of include/NGIN/Log/LoggerRegistry.hpp on a host that may refuse any logger the
-- memory for a snapshot of its sinks.
use ngin_log.Base.{
  Bool, true, false, Bool-cases, List, [], ◌∷◌, none, some, Bytes, All, All-append, ◌≡◌, Option,
  Option-cases, refl, inl, inr,
}
use ngin_log.Level.{info, to_uint8}
use ngin_log.Logger.{Logger, make_logger, publish_sink_snapshot}
use ngin_log.Registry.{
  LoggerRule, LoggerConfig, configure, Registry, empty_registry, configure_all,
  apply_config_updates, with_rule, search_rules, compute_effective_config, find, get, get_or_create,
  set_default_runtime_min, set_default_sinks, upsert, upsert_rule, erase_prefix, remove_rule,
}
use ngin_log.Registry.Best.{IsBest, search_rules-IsBest}
use ngin_log.Registry.Config.{
  Follows, new_logger, get_or_create_new, get_or_create_found, requested_min-info,
}
use ngin_log.Registry.Operations.{
  Operation, default_runtime_min_, default_sinks_, upsert_, remove_, get_or_create_, always,
  operate, IsUpdate, update-Synced, level_of, IsConfigured, IsConfigured-by, find-All,
}

abbrev pub attempt_all : List (Operation × (Bytes → Bool)) → Registry → Registry
attempt_all [] g = g
attempt_all ((o, allocated) ∷ os) g = attempt_all os (operate allocated o g)

-- A logger has the level of the best rule for its name, and the registry's default where no rule covers
-- it or the rule says nothing.
pub record HasLevel (g : Registry) (name : Bytes) (l : Logger) : Type 0 where
  pub best : Option LoggerRule
  pub is_best : IsBest name g.rules best
  pub level : l.runtime_min ≡ to_uint8 (level_of best g.default_runtime_min)

abbrev IsLeveled : Registry → Bytes → Logger → Type 0
IsLeveled g name l = l.runtime_min ≡ to_uint8 (compute_effective_config g name).runtime_min

abbrev AreLeveled : Registry → Type 0
AreLeveled g = All (λ (e : Bytes × Logger). IsLeveled g e.0 e.1) g.loggers

level_kept :
    (allocated : Bool) (config : LoggerConfig) (l : Logger)
    → (configure allocated config l).runtime_min ≡ to_uint8 config.runtime_min
unfolding publish_sink_snapshot
level_kept true config l = refl
level_kept false config l = refl

new_logger-IsLeveled :
    (allocated : Bytes → Bool) (g : Registry) (name : Bytes)
    → IsLeveled g name (new_logger allocated g name info)
unfolding make_logger publish_sink_snapshot
new_logger-IsLeveled allocated g name =
    let level = requested_min-info g (compute_effective_config g name) in
    elim (Bool-cases (allocated name)) [ inl a ↦ rw (a, level) refl | inr a ↦ rw (a, level) refl ]

configure_all-IsLeveled :
    (allocated : Bytes → Bool) (g : Registry) (ls : List (Bytes × Logger))
    → All (λ (e : Bytes × Logger). IsLeveled g e.0 e.1) (configure_all allocated g ls)
unfolding configure_all
configure_all-IsLeveled allocated g [] = tt
configure_all-IsLeveled allocated g ((name, l) ∷ rest) =
    (level_kept (allocated name) _ l, configure_all-IsLeveled allocated g rest)

get_or_create-AreLeveled :
    (allocated : Bytes → Bool) (g : Registry) (name : Bytes)
    → AreLeveled g
    → AreLeveled (get_or_create allocated g name info).1
unfolding compute_effective_config
get_or_create-AreLeveled allocated g name h = elim (Option-cases (find name g.loggers)) [
  | inl e ↦ rw (get_or_create_new allocated g name info e) (
      All-append (λ (e : Bytes × Logger). IsLeveled g e.0 e.1) g.loggers _ h
        (new_logger-IsLeveled allocated g name, tt))
  | inr (l, e) ↦ rw (get_or_create_found allocated g name info l e) h
]

operate-AreLeveled :
    (allocated : Bytes → Bool) (o : Operation) (g : Registry)
    → AreLeveled g
    → AreLeveled (operate allocated o g)
unfolding operate set_default_runtime_min set_default_sinks upsert_rule remove_rule
    apply_config_updates compute_effective_config
operate-AreLeveled allocated (default_runtime_min_ m) g h =
    configure_all-IsLeveled allocated (record g { default_runtime_min = m }) g.loggers
operate-AreLeveled allocated (default_sinks_ sinks) g h =
    configure_all-IsLeveled allocated (record g { default_sinks = sinks }) g.loggers
operate-AreLeveled allocated (upsert_ rule) g h =
    configure_all-IsLeveled allocated (record g { rules = upsert rule g.rules }) g.loggers
operate-AreLeveled allocated (remove_ prefix) g h =
    configure_all-IsLeveled allocated (record g { rules = erase_prefix prefix g.rules }) g.loggers
operate-AreLeveled allocated (get_or_create_ name) g h = get_or_create-AreLeveled allocated g name h

attempt_all-AreLeveled :
    (os : List (Operation × (Bytes → Bool))) (g : Registry)
    → AreLeveled g
    → AreLeveled (attempt_all os g)
attempt_all-AreLeveled [] g h = h
attempt_all-AreLeveled ((o, allocated) ∷ os) g h =
    attempt_all-AreLeveled os (operate allocated o g) (operate-AreLeveled allocated o g h)

HasLevel-by :
    (g : Registry) (name : Bytes) (l : Logger) (best : Option LoggerRule)
    → IsBest name g.rules best
    → let config =
        with_rule (record { runtime_min = g.default_runtime_min; sinks = g.default_sinks }) best in
      l.runtime_min ≡ to_uint8 config.runtime_min → HasLevel g name l
unfolding with_rule
HasLevel-by g name l none b p = record { best = none; is_best = b; level = p }
HasLevel-by g name l (some rule) b p = record { best = some rule; is_best = b; level = p }

-- A new registry is put to any use: defaults are set, rules are put in, replaced and removed, and loggers
-- are created without a requested level, in any order; and at each of these the snapshots of any loggers'
-- sinks may find no memory, while other allocations succeed. Each logger that the registry then holds has the
-- level of the best rule for its name all the same. And after one further update of the defaults or the rules
-- whose snapshots are all allocated, each logger has the level and also the sinks of the best rule for its name.
pub attempt_all-HasLevel :
    (os : List (Operation × (Bytes → Bool))) (o : Operation) (name : Bytes) (l l' : Logger)
    → get (attempt_all os empty_registry) name ≡ some l
    → IsUpdate o
    → get (operate always o (attempt_all os empty_registry)) name ≡ some l'
    → HasLevel (attempt_all os empty_registry) name l
      × IsConfigured (operate always o (attempt_all os empty_registry)) name l'
unfolding get compute_effective_config
attempt_all-HasLevel os o name l l' e u e' =
    let g = attempt_all os empty_registry in
    let h = operate always o g in
    (
      HasLevel-by g name l (search_rules name none g.rules) (search_rules-IsBest name g.rules)
          (find-All (IsLeveled g) g.loggers name l (attempt_all-AreLeveled os empty_registry tt) e),
      IsConfigured-by h name l' (search_rules name none h.rules) (search_rules-IsBest name h.rules)
          (find-All (Follows h) h.loggers name l' (update-Synced o g u) e'),
    )
