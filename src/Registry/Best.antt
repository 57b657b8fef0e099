-- ===== src/Registry/Best.antt =====
-- The rule that applies to a name: the longest prefix wins, and the order of the rules does not
-- matter.
use ngin_log.Base.{
  ◌≤◌, true, false, List, [], ◌∷◌, ◌++◌, Option, none, some, Bytes, All, All-append, All-map, arith,
  ltb, length, take, take-append_length, take_all, bytes_eq, bytes_eq_iff, ◌≡◌, ◌⊎◌, ◌↔◌, inl, inr,
  refl, sym, ap, subst, ◌∙◌, Bool-cases,
}
use mathlib.Core.List.{append_assoc, append-nil}
use ngin_log.Registry.{
  LoggerRule, Registry, logger_name_matches_prefix, better, search_rules, with_rule,
  compute_effective_config,
}
use ngin_log.Registry.Prefix.{Covers, logger_name_matches_prefix_iff}

abbrev pub In : LoggerRule → List LoggerRule → Type 0
In r [] = ⊥
In r (x ∷ xs) = (r ≡ x) ⊎ In r xs

-- No two rules have the same prefix.
abbrev pub DistinctRules : List LoggerRule → Type 0
DistinctRules [] = Unit {0}
DistinctRules (x ∷ xs) = All (λ r. bytes_eq x.prefix r.prefix ≡ false) xs × DistinctRules xs

abbrev pub Matches : Bytes → LoggerRule → Type 0
Matches name r = logger_name_matches_prefix name r.prefix ≡ true

abbrev pub Misses : Bytes → LoggerRule → Type 0
Misses name r = logger_name_matches_prefix name r.prefix ≡ false

-- No rule matches, or the result is a rule of the list that matches, and none that matches has a
-- longer prefix.
abbrev pub IsBest : Bytes → List LoggerRule → Option LoggerRule → Type 0
IsBest name rules none = All (Misses name) rules
IsBest name rules (some b) =
    In b rules
    × Matches name b
    × All (λ r. Misses name r ⊎ (length r.prefix ≤ length b.prefix)) rules

In-append_left : (r : LoggerRule) (xs ys : List LoggerRule) → In r xs → In r (xs ++ ys)
In-append_left r [] ys h = absurd h
In-append_left r (x ∷ xs) ys (inl e) = inl e
In-append_left r (x ∷ xs) ys (inr h) = inr (In-append_left r xs ys h)

In-append_last : (r : LoggerRule) (xs : List LoggerRule) → In r (xs ++ r ∷ [])
In-append_last r [] = inl refl
In-append_last r (x ∷ xs) = inr (In-append_last r xs)

better-IsBest :
    (name : Bytes) (seen : List LoggerRule) (best : Option LoggerRule) (r : LoggerRule)
    → IsBest name seen best
    → IsBest name (seen ++ r ∷ []) (better name best r)
unfolding better
better-IsBest name seen none r h = elim (Bool-cases (logger_name_matches_prefix name r.prefix)) [
  | inl e ↦
      rw (e, better)
        (
          In-append_last r seen,
          e,
          All-append _ seen (r ∷ []) (All-map _ _ seen (λ x m. inl m) h) (inr (omega arith), tt),
        )
  | inr e ↦ rw (e, better) (All-append (Misses name) seen (r ∷ []) h (e, tt))
]
better-IsBest name seen (some b) r h =
    elim (Bool-cases (logger_name_matches_prefix name r.prefix)) [
      | inl e ↦ elim (Bool-cases (ltb (length b.prefix) (length r.prefix))) [
        | inl longer ↦
            rw (e, better, longer)
              (
                In-append_last r seen,
                e,
                All-append _ seen (r ∷ [])
                    (All-map _ (λ x. Misses name x ⊎ (length x.prefix ≤ length r.prefix)) seen
                      (λ x m. ground arith) h.2)
                    (inr (omega arith), tt),
              )
        | inr shorter ↦
            rw (e, better, shorter)
              (
                In-append_left b seen (r ∷ []) h.0,
                h.1,
                All-append _ seen (r ∷ []) h.2 (inr (ground arith), tt),
              )
      ]
      | inr e ↦
          rw (e, better)
            (In-append_left b seen (r ∷ []) h.0, h.1, All-append _ seen (r ∷ []) h.2 (inl e, tt))
    ]

search_rules-from :
    (name : Bytes) (rules seen : List LoggerRule) (best : Option LoggerRule)
    → IsBest name seen best
    → IsBest name (seen ++ rules) (search_rules name best rules)
unfolding search_rules
search_rules-from name [] seen best h = rw (append-nil seen) h
search_rules-from name (r ∷ rules) seen best h =
    subst (λ l. IsBest name l (search_rules name (better name best r) rules))
      (append_assoc seen (r ∷ []) rules)
      (search_rules-from name rules (seen ++ r ∷ []) (better name best r)
        (better-IsBest name seen best r h))

-- The search finds a rule of the list that matches the name such that no rule that matches has a
-- longer prefix, and finds none only where no rule matches.
pub search_rules-IsBest :
    (name : Bytes) (rules : List LoggerRule) → IsBest name rules (search_rules name none rules)
search_rules-IsBest name rules = search_rules-from name rules [] none tt

All-In :
    (P : LoggerRule → Type 0) (r : LoggerRule) (xs : List LoggerRule) → All P xs → In r xs → P r
All-In P r [] h i = absurd i
All-In P r (x ∷ xs) h (inl e) = subst P (sym e) h.0
All-In P r (x ∷ xs) h (inr i) = All-In P r xs h.1 i

-- A prefix that matches is the start of the name.
take-matches : (name prefix : Bytes) → Covers prefix name → take (length prefix) name ≡ prefix
take-matches name prefix (inl e) = rw e
take-matches name prefix (inr (inl e)) = rw e (take_all (length prefix) prefix (omega arith))
take-matches name prefix (inr (inr (rest, e))) =
    rw e (take-append_length prefix (b'.' ∷ rest) (length prefix) refl)

clash :
    (a b x : LoggerRule) (xs : List LoggerRule)
    → All (λ r. bytes_eq x.prefix r.prefix ≡ false) xs
    → a ≡ x
    → In b xs
    → a.prefix ≡ b.prefix
    → ⊥
clash a b x xs d p j e =
    let differs = All-In (λ r. bytes_eq x.prefix r.prefix ≡ false) b xs d j in
    let same : x.prefix ≡ b.prefix = sym (ap (λ (r : LoggerRule). r.prefix) p) ∙ e in
    ground (arith, differs, same, bytes_eq_iff x.prefix b.prefix)

distinct_rule :
    (a b : LoggerRule) (xs : List LoggerRule)
    → DistinctRules xs
    → In a xs
    → In b xs
    → a.prefix ≡ b.prefix
    → a ≡ b
distinct_rule a b [] d i j e = absurd i
distinct_rule a b (x ∷ xs) d (inl p) (inl q) e = p ∙ sym q
distinct_rule a b (x ∷ xs) d (inl p) (inr j) e = absurd (clash a b x xs d.0 p j e)
distinct_rule a b (x ∷ xs) d (inr i) (inl q) e = absurd (clash b a x xs d.0 q i (sym e))
distinct_rule a b (x ∷ xs) d (inr i) (inr j) e = distinct_rule a b xs d.1 i j e

best_unique :
    (name : Bytes) (xs ys : List LoggerRule) (a b : Option LoggerRule)
    → DistinctRules xs
    → ((r : LoggerRule) → In r xs ↔ In r ys)
    → IsBest name xs a
    → IsBest name ys b
    → a ≡ b
best_unique name xs ys none none d same h k = refl
best_unique name xs ys none (some b) d same h k =
    let m = All-In (Misses name) b xs h ((same b).1 k.0) in absurd (ground (arith, m, k.1))
best_unique name xs ys (some a) none d same h k =
    let m = All-In (Misses name) a ys k ((same a).0 h.0) in absurd (ground (arith, m, h.1))
best_unique name xs ys (some a) (some b) d same h k =
    let i = All-In _ b xs h.2 ((same b).1 k.0) in
    let j = All-In _ a ys k.2 ((same a).0 h.0) in
    let l : length a.prefix ≡ length b.prefix = ground (arith, i, j, h.1, k.1) in
    let p = take-matches name a.prefix ((logger_name_matches_prefix_iff name a.prefix).0 h.1) in
    let q = take-matches name b.prefix ((logger_name_matches_prefix_iff name b.prefix).0 k.1) in
    ap some (distinct_rule a b xs d h.0 ((same b).1 k.0) (sym p ∙ ap (λ n. take n name) l ∙ q))

-- Two registries with the same defaults and the same rules, in whatever order, give every name the
-- same configuration, if no two rules of the first have the same prefix.
pub compute_effective_config-order :
    (g h : Registry) (name : Bytes)
    → g.default_runtime_min ≡ h.default_runtime_min
    → g.default_sinks ≡ h.default_sinks
    → DistinctRules g.rules
    → ((r : LoggerRule) → In r g.rules ↔ In r h.rules)
    → compute_effective_config g name ≡ compute_effective_config h name
unfolding compute_effective_config
compute_effective_config-order g h name p q d same = λ i.
    with_rule (record { runtime_min = p i; sinks = q i })
      (best_unique name g.rules h.rules (search_rules name none g.rules)
        (search_rules name none h.rules) d same (search_rules-IsBest name g.rules)
        (search_rules-IsBest name h.rules) i)
