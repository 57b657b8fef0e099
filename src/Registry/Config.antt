-- ===== src/Registry/Config.antt =====
-- The registry's loggers after its updates: lookup, creation, rules and effective configuration.
use ngin_log.Base.{
  Bool, true, false, List, [], ◌∷◌, ◌++◌, none, some, Bytes, All, All-append, arith, if◌then◌else◌,
  bytes_eq, bytes_eq_iff, bytes_eq_refl, ◌≡◌, ◌∙◌, subst, inl, inr, refl, ap, Bool-cases,
  Option-cases,
}
use ngin_log.Level.{LogLevel, info, to_uint8}
use ngin_log.Logger.{Logger, count_error, make_logger, set_runtime_min, publish_sink_snapshot}
use ngin_log.Registry.{
  LoggerRule, LoggerConfig, Registry, SinkSet, compute_effective_config, configure, configure_all,
  apply_config_updates, find, get, get_or_create, requested_min, set_default_runtime_min,
  set_default_sinks, upsert, upsert_rule, erase_prefix, remove_rule,
}

-- The logger has the level and the sinks of its effective configuration.
abbrev pub Follows : Registry → Bytes → Logger → Type 0
Follows g name l =
    (l.runtime_min ≡ to_uint8 (compute_effective_config g name).runtime_min)
    × (l.active_sinks ≡ some (compute_effective_config g name).sinks)

abbrev pub Synced : Registry → Type 0
Synced g = All (λ (e : Bytes × Logger). Follows g e.0 e.1) g.loggers

configure_all-Follows :
    (allocated : Bytes → Bool) (g : Registry) (ls : List (Bytes × Logger))
    → ((name : Bytes) → allocated name ≡ true)
    → All (λ (e : Bytes × Logger). Follows g e.0 e.1) (configure_all allocated g ls)
unfolding configure_all publish_sink_snapshot
configure_all-Follows allocated g [] h = tt
configure_all-Follows allocated g ((name, l) ∷ rest) h =
    (rw (h name) (refl, refl), configure_all-Follows allocated g rest h)

-- Where every snapshot can be allocated, each of the four updates of defaults and rules leaves every
-- logger with the level and the sinks of its effective configuration in the new registry.
pub updates-Synced :
    (allocated : Bytes → Bool) (g : Registry) (m : LogLevel) (sinks : SinkSet) (rule : LoggerRule)
    (prefix : Bytes)
    → ((name : Bytes) → allocated name ≡ true)
    → Synced (set_default_runtime_min allocated g m)
      × Synced (set_default_sinks allocated g sinks)
      × Synced (upsert_rule allocated g rule)
      × Synced (remove_rule allocated g prefix)
unfolding set_default_runtime_min set_default_sinks upsert_rule remove_rule apply_config_updates
    compute_effective_config
updates-Synced allocated g m sinks rule prefix h = (
  configure_all-Follows allocated (record g { default_runtime_min = m }) g.loggers h,
  configure_all-Follows allocated (record g { default_sinks = sinks }) g.loggers h,
  configure_all-Follows allocated (record g { rules = upsert rule g.rules }) g.loggers h,
  configure_all-Follows allocated (record g { rules = erase_prefix prefix g.rules }) g.loggers h,
)

pub find-configure_all :
    (allocated : Bytes → Bool) (g : Registry) (ls : List (Bytes × Logger)) (name : Bytes)
    (l : Logger)
    → find name ls ≡ some l
    → find name (configure_all allocated g ls)
      ≡ some (configure (allocated name) (compute_effective_config g name) l)
unfolding find configure_all
find-configure_all allocated g [] name l h = cc
find-configure_all allocated g ((n, x) ∷ rest) name l h = elim (Bool-cases (bytes_eq n name)) [
  | inl e ↦ let p = (bytes_eq_iff n name).0 e in ground (arith, p)
  | inr e ↦ let r = find-configure_all allocated g rest name l (ground arith) in rw e r
]

-- Where `UpsertRule` finds no memory for a logger's snapshot, it still sets the logger's level, leaves its
-- sinks and counts one error.
pub upsert_rule-failed :
    (allocated : Bytes → Bool) (g : Registry) (rule : LoggerRule) (name : Bytes) (l : Logger)
    → get g name ≡ some l
    → allocated name ≡ false
    → get (upsert_rule allocated g rule) name
      ≡ some (
          count_error (
            set_runtime_min l
              (compute_effective_config (upsert_rule allocated g rule) name).runtime_min))
unfolding get upsert_rule apply_config_updates compute_effective_config publish_sink_snapshot
upsert_rule-failed allocated g rule name l h a =
    find-configure_all allocated (record g { rules = upsert rule g.rules }) g.loggers name l h
    ∙ ap
        (λ b. some (
          configure b (compute_effective_config (record g { rules = upsert rule g.rules }) name) l))
        a

find-append_new :
    (name : Bytes) (l : Logger) (ls : List (Bytes × Logger))
    → find name ls ≡ none
    → find name (ls ++ (name, l) ∷ []) ≡ some l
unfolding find
find-append_new name l [] h = rw (bytes_eq_refl name) refl
find-append_new name l ((n, x) ∷ rest) h = elim (Bool-cases (bytes_eq n name)) [
  | inl e ↦ ground (arith, e)
  | inr e ↦ let r = find-append_new name l rest (ground arith) in rw e r
]

find-append_other :
    (name n : Bytes) (l : Logger) (ls : List (Bytes × Logger))
    → bytes_eq n name ≡ false
    → find name (ls ++ (n, l) ∷ []) ≡ find name ls
unfolding find
find-append_other name n l [] h = rw h refl
find-append_other name n l ((m, x) ∷ rest) h = elim (Bool-cases (bytes_eq m name)) [
  | inl e ↦ rw e refl
  | inr e ↦ rw e (find-append_other name n l rest h)
]

-- The logger that `GetOrCreate` makes.
abbrev pub new_logger : (Bytes → Bool) → Registry → Bytes → LogLevel → Logger
new_logger allocated g name m =
    make_logger (allocated name) name (requested_min g (compute_effective_config g name) m)
      (compute_effective_config g name).sinks

pub get_or_create_new :
    (allocated : Bytes → Bool) (g : Registry) (name : Bytes) (m : LogLevel)
    → find name g.loggers ≡ none
    → get_or_create allocated g name m ≡ (
      new_logger allocated g name m,
      record g { loggers = g.loggers ++ (name, new_logger allocated g name m) ∷ [] },
    )
unfolding get_or_create
get_or_create_new allocated g name m e = rw (e, get_or_create) refl

pub get_or_create_found :
    (allocated : Bytes → Bool) (g : Registry) (name : Bytes) (m : LogLevel) (l : Logger)
    → find name g.loggers ≡ some l
    → get_or_create allocated g name m ≡ (l, g)
unfolding get_or_create
get_or_create_found allocated g name m l e = rw (e, get_or_create) refl

find-new :
    (name n : Bytes) (l : Logger) (ls : List (Bytes × Logger))
    → find name ls ≡ none
    → find n (ls ++ (name, l) ∷ []) ≡ (if bytes_eq name n then some l else find n ls)
find-new name n l ls h = elim (Bool-cases (bytes_eq name n)) [
  | inl e ↦ rw e (
      subst (λ k. find k (ls ++ (name, l) ∷ []) ≡ some l) ((bytes_eq_iff name n).0 e)
        (find-append_new name l ls h))
  | inr e ↦ rw e (find-append_other n name l ls e)
]

find-found :
    (name n : Bytes) (l : Logger) (ls : List (Bytes × Logger))
    → find name ls ≡ some l
    → find n ls ≡ (if bytes_eq name n then some l else find n ls)
find-found name n l ls h = elim (Bool-cases (bytes_eq name n)) [
  | inl e ↦ rw e (subst (λ k. find k ls ≡ some l) ((bytes_eq_iff name n).0 e) h)
  | inr e ↦ rw e refl
]

-- After `GetOrCreate` the registry holds the returned logger under the name, and the lookup of every
-- other name is what it was. A second call, with any level, returns that logger and changes nothing.
pub get_or_create-get :
    (allocated again : Bytes → Bool) (g : Registry) (name n : Bytes) (m m' : LogLevel)
    → (get (get_or_create allocated g name m).1 n
        ≡ (if bytes_eq name n then some (get_or_create allocated g name m).0 else get g n))
      × (get_or_create again (get_or_create allocated g name m).1 name m'
          ≡ get_or_create allocated g name m)
unfolding get
get_or_create-get allocated again g name n m m' = elim (Option-cases (find name g.loggers)) [
  | inl e ↦
      let l = new_logger allocated g name m in
      rw (get_or_create_new allocated g name m e) (
        find-new name n l g.loggers e,
        get_or_create_found again (record g { loggers = g.loggers ++ (name, l) ∷ [] }) name m' l
            (find-append_new name l g.loggers e),
      )
  | inr (l, e) ↦
      rw (get_or_create_found allocated g name m l e)
        (find-found name n l g.loggers e, get_or_create_found again g name m' l e)
]

pub requested_min-info :
    (g : Registry) (config : LoggerConfig) → requested_min g config info ≡ config.runtime_min
unfolding requested_min
requested_min-info g config = ground arith

new_logger-Follows :
    (allocated : Bytes → Bool) (g : Registry) (name : Bytes)
    → allocated name ≡ true
    → Follows g name (new_logger allocated g name info)
unfolding make_logger publish_sink_snapshot
new_logger-Follows allocated g name a =
    rw (a, requested_min-info g (compute_effective_config g name)) (refl, refl)

-- Where the allocation succeeds, `GetOrCreate` without a requested level keeps all loggers of the
-- registry at their effective configurations.
pub get_or_create-Synced :
    (allocated : Bytes → Bool) (g : Registry) (name : Bytes)
    → allocated name ≡ true
    → Synced g
    → Synced (get_or_create allocated g name info).1
unfolding compute_effective_config
get_or_create-Synced allocated g name a h = elim (Option-cases (find name g.loggers)) [
  | inl e ↦ rw (get_or_create_new allocated g name info e) (
      All-append (λ (e : Bytes × Logger). Follows g e.0 e.1) g.loggers _ h
        (new_logger-Follows allocated g name a, tt))
  | inr (l, e) ↦ rw (get_or_create_found allocated g name info l e) h
]
