-- ===== src/Registry/Rules.antt =====
-- The rules as a table from prefixes to rules.
use ngin_log.Base.{
  Bool, false, List, [], ◌∷◌, Option, none, some, Bytes, All, arith, if◌then◌else◌, bytes_eq,
  bytes_eq_iff, ◌≡◌, subst, inl, inr, refl, Bool-cases,
}
use ngin_log.Registry.{
  LoggerRule, Registry, upsert, erase_prefix, upsert_rule, remove_rule, apply_config_updates,
}
use ngin_log.Registry.Best.{DistinctRules}

-- The rule with the given prefix.
abbrev pub lookup : Bytes → List LoggerRule → Option LoggerRule
lookup p [] = none
lookup p (r ∷ rs) = if bytes_eq r.prefix p then some r else lookup p rs

lookup-upsert :
    (r : LoggerRule) (rs : List LoggerRule) (p : Bytes)
    → lookup p (upsert r rs) ≡ (if bytes_eq r.prefix p then some r else lookup p rs)
unfolding upsert
lookup-upsert r [] p = refl
lookup-upsert r (x ∷ rs) p = ground (
  arith,
  lookup-upsert r rs p,
  bytes_eq_iff x.prefix r.prefix,
  bytes_eq_iff x.prefix p,
  bytes_eq_iff r.prefix p,
)

lookup-erase_prefix :
    (q : Bytes) (rs : List LoggerRule) (p : Bytes)
    → lookup p (erase_prefix q rs) ≡ (if bytes_eq q p then none else lookup p rs)
unfolding erase_prefix
lookup-erase_prefix q [] p = ground arith
lookup-erase_prefix q (x ∷ rs) p = ground (
  arith,
  lookup-erase_prefix q rs p,
  bytes_eq_iff x.prefix q,
  bytes_eq_iff x.prefix p,
  bytes_eq_iff q p,
)

All-upsert :
    (P : LoggerRule → Type 0) (r : LoggerRule) (rs : List LoggerRule)
    → P r
    → All P rs
    → All P (upsert r rs)
unfolding upsert
All-upsert P r [] p h = (p, tt)
All-upsert P r (x ∷ rs) p h = elim (Bool-cases (bytes_eq x.prefix r.prefix)) [
  | inl e ↦ rw e (p, h.1)
  | inr e ↦ rw e (h.0, All-upsert P r rs p h.1)
]

All-erase_prefix :
    (P : LoggerRule → Type 0) (q : Bytes) (rs : List LoggerRule)
    → All P rs
    → All P (erase_prefix q rs)
unfolding erase_prefix
All-erase_prefix P q [] h = tt
All-erase_prefix P q (x ∷ rs) h = elim (Bool-cases (bytes_eq x.prefix q)) [
  | inl e ↦ rw e (All-erase_prefix P q rs h.1)
  | inr e ↦ rw e (h.0, All-erase_prefix P q rs h.1)
]

upsert-DistinctRules :
    (r : LoggerRule) (rs : List LoggerRule) → DistinctRules rs → DistinctRules (upsert r rs)
unfolding upsert
upsert-DistinctRules r [] d = (tt, tt)
upsert-DistinctRules r (x ∷ rs) d = elim (Bool-cases (bytes_eq x.prefix r.prefix)) [
  | inl e ↦
      let q = (bytes_eq_iff x.prefix r.prefix).0 e in
      rw e (subst (λ p. All (λ (y : LoggerRule). bytes_eq p y.prefix ≡ false) rs) q d.0, d.1)
  | inr e ↦ rw e (
    All-upsert (λ y. bytes_eq x.prefix y.prefix ≡ false) r rs e d.0,
    upsert-DistinctRules r rs d.1,
  )
]

erase_prefix-DistinctRules :
    (q : Bytes) (rs : List LoggerRule) → DistinctRules rs → DistinctRules (erase_prefix q rs)
unfolding erase_prefix
erase_prefix-DistinctRules q [] d = tt
erase_prefix-DistinctRules q (x ∷ rs) d = elim (Bool-cases (bytes_eq x.prefix q)) [
  | inl e ↦ rw e (erase_prefix-DistinctRules q rs d.1)
  | inr e ↦ rw e (
    All-erase_prefix (λ y. bytes_eq x.prefix y.prefix ≡ false) q rs d.0,
    erase_prefix-DistinctRules q rs d.1,
  )
]

-- Upserting a rule sets the entry of its prefix and no other, and erasing a prefix clears its entry
-- and no other.
pub lookup-rules :
    (rs : List LoggerRule) (r : LoggerRule) (q p : Bytes)
    → (lookup p (upsert r rs) ≡ (if bytes_eq r.prefix p then some r else lookup p rs))
      × (lookup p (erase_prefix q rs) ≡ (if bytes_eq q p then none else lookup p rs))
lookup-rules rs r q p = (lookup-upsert r rs p, lookup-erase_prefix q rs p)

-- From rules of distinct prefixes, `UpsertRule` and `RemoveRule` make rules of distinct prefixes.
pub rules-DistinctRules :
    (allocated : Bytes → Bool) (g : Registry) (r : LoggerRule) (q : Bytes)
    → DistinctRules g.rules
    → DistinctRules (upsert_rule allocated g r).rules
      × DistinctRules (remove_rule allocated g q).rules
unfolding upsert_rule remove_rule apply_config_updates
rules-DistinctRules allocated g r q d =
    (upsert-DistinctRules r g.rules d, erase_prefix-DistinctRules q g.rules d)
