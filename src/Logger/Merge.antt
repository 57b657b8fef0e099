-- ===== src/Logger/Merge.antt =====
-- The merged attributes of a record: one for each key, no more than eight, and the last value of a
-- key wins.
use ngin_log.Base.{
  suc, ◌≤◌, true, false, List, [], ◌∷◌, ◌++◌, Option, none, some, Bytes, arith, leb, length,
  length-append, if◌then◌else◌, bytes_eq, bytes_eq_iff, ◌≡◌, ◌⊎◌, inl, inr, refl, sym, ap, ◌∙◌,
  Bool-cases, Option-cases,
}
use ngin_log.Types.{max_attributes, LogAttribute}
use ngin_log.Logger.{replace}

abbrev Attributes : Type 0
Attributes = List (LogAttribute Bytes)

-- The attribute of a key.
pub lookup : Bytes → Attributes → Option (LogAttribute Bytes)
lookup k [] = none
lookup k (x ∷ xs) = if bytes_eq x.key k then some x else lookup k xs

-- The last attribute of a key, from the one that an earlier list had.
pub last_from : Option (LogAttribute Bytes) → Bytes → Attributes → Option (LogAttribute Bytes)
last_from found k [] = found
last_from found k (x ∷ xs) = last_from (if bytes_eq x.key k then some x else found) k xs

abbrev pub last : Bytes → Attributes → Option (LogAttribute Bytes)
last = last_from none

-- No two attributes have the same key.
abbrev pub Distinct : Attributes → Type 0
Distinct [] = Unit {0}
Distinct (x ∷ xs) = (lookup x.key xs ≡ none) × Distinct xs

-- Where `replace` stops: at the first element, or inside the rest.
replace-cons :
    (a x : LogAttribute Bytes) (xs ys : Attributes)
    → replace a (x ∷ xs) ≡ some ys
    → ((bytes_eq x.key a.key ≡ true) × (ys ≡ a ∷ xs))
      ⊎ ((bytes_eq x.key a.key ≡ false)
          × (zs : Attributes) × (replace a xs ≡ some zs)
          × (ys ≡ x ∷ zs))
unfolding replace
replace-cons a x xs ys e = elim (Bool-cases (bytes_eq x.key a.key)) [
  | inl same ↦ inl (same, ground (arith, same))
  | inr other ↦ elim (Option-cases (replace a xs)) [
    | inl missing ↦ absurd (ground (arith, other, missing))
    | inr (zs, found) ↦ inr (other, zs, found, ground (arith, other, found))
  ]
]

lookup-replace :
    (a : LogAttribute Bytes) (k : Bytes) (xs ys : Attributes)
    → replace a xs ≡ some ys
    → lookup k ys ≡ (if bytes_eq a.key k then some a else lookup k xs)
unfolding replace lookup
lookup-replace a k [] ys e = cc
lookup-replace a k (x ∷ xs) ys e = elim (replace-cons a x xs ys e) [
  | inl (same, q) ↦
      ground (arith, bytes_eq_iff x.key k, bytes_eq_iff a.key k, bytes_eq_iff x.key a.key)
  | inr (other, zs, found, q) ↦ ground (
    arith,
    lookup-replace a k xs zs found,
    bytes_eq_iff x.key k,
    bytes_eq_iff a.key k,
    bytes_eq_iff x.key a.key,
  )
]

replace-none :
    (a : LogAttribute Bytes) (xs : Attributes) → replace a xs ≡ none → lookup a.key xs ≡ none
unfolding replace lookup
replace-none a [] e = refl
replace-none a (x ∷ xs) e = ground (arith, replace-none a xs)

length-replace :
    (a : LogAttribute Bytes) (xs ys : Attributes) → replace a xs ≡ some ys → length ys ≡ length xs
unfolding replace
length-replace a [] ys e = cc
length-replace a (x ∷ xs) ys e = elim (replace-cons a x xs ys e) [
  | inl (same, q) ↦ rw q
  | inr (other, zs, found, q) ↦ rw q (ap suc (length-replace a xs zs found))
]

lookup-append :
    (a : LogAttribute Bytes) (k : Bytes) (xs : Attributes)
    → lookup a.key xs ≡ none
    → lookup k (xs ++ a ∷ []) ≡ (if bytes_eq a.key k then some a else lookup k xs)
unfolding lookup
lookup-append a k [] e = refl
lookup-append a k (x ∷ xs) e = ground (
  arith,
  lookup-append a k xs,
  bytes_eq_iff x.key k,
  bytes_eq_iff a.key k,
  bytes_eq_iff x.key a.key,
)

Distinct-replace :
    (a : LogAttribute Bytes) (xs ys : Attributes)
    → Distinct xs
    → replace a xs ≡ some ys
    → Distinct ys
unfolding replace
Distinct-replace a [] ys d e = absurd (cc)
Distinct-replace a (x ∷ xs) ys d e = elim (replace-cons a x xs ys e) [
  | inl (same, q) ↦ rw q (rw (sym ((bytes_eq_iff x.key a.key).0 same)) d.0, d.1)
  | inr (other, zs, found, q) ↦ rw q (
    lookup-replace a x.key xs zs found
        ∙ ground (arith, d.0, bytes_eq_iff a.key x.key, bytes_eq_iff x.key a.key),
    Distinct-replace a xs zs d.1 found,
  )
]

Distinct-append :
    (a : LogAttribute Bytes) (xs : Attributes)
    → Distinct xs
    → lookup a.key xs ≡ none
    → Distinct (xs ++ a ∷ [])
unfolding lookup
Distinct-append a [] d e = (refl, tt)
Distinct-append a (x ∷ xs) d e = (
  ground (arith, lookup-append a x.key xs, bytes_eq_iff a.key x.key, bytes_eq_iff x.key a.key),
  Distinct-append a xs d.1 (ground arith),
)

last_from-append :
    (found : Option (LogAttribute Bytes)) (k : Bytes) (xs : Attributes) (a : LogAttribute Bytes)
    → last_from found k (xs ++ a ∷ []) ≡ (if bytes_eq a.key k then some a else last_from found k xs)
unfolding last_from
last_from-append found k [] a = refl
last_from-append found k (x ∷ xs) a =
    last_from-append (if bytes_eq x.key k then some x else found) k xs a

-- What a list of merged attributes makes of those that were offered, in order: at most eight, no
-- key twice, and each key has the attribute offered last for it, but for keys that are left out of
-- a full list.
pub record IsMergeOf (offered merged : List (LogAttribute Bytes)) : Type 0 where
  pub bounded : length merged ≤ max_attributes
  pub distinct : Distinct merged
  pub last_wins :
      (k : Bytes)
      → (lookup k merged ≡ last k offered)
        ⊎ ((lookup k merged ≡ none) × (length merged ≡ max_attributes))

-- One more attribute, by what `replace` finds.
pub offered_replaced :
    (offered xs ys : Attributes) (a : LogAttribute Bytes)
    → IsMergeOf offered xs
    → replace a xs ≡ some ys
    → IsMergeOf (offered ++ a ∷ []) ys
offered_replaced offered xs ys a g e = record {
  bounded = omega (arith, length-replace a xs ys e, g.bounded);
  distinct = Distinct-replace a xs ys g.distinct e;
  last_wins = λ k. ground (
    arith,
    g.last_wins k,
    lookup-replace a k xs ys e,
    last_from-append none k offered a,
    length-replace a xs ys e,
  );
}

pub offered_full :
    (offered xs : Attributes) (a : LogAttribute Bytes)
    → IsMergeOf offered xs
    → replace a xs ≡ none
    → leb max_attributes (length xs) ≡ true
    → IsMergeOf (offered ++ a ∷ []) xs
offered_full offered xs a g e full = record {
  bounded = g.bounded;
  distinct = g.distinct;
  last_wins = λ k. ground (
    arith,
    g.bounded,
    g.last_wins k,
    replace-none a xs e,
    bytes_eq_iff a.key k,
    last_from-append none k offered a,
  );
}

pub offered_added :
    (offered xs : Attributes) (a : LogAttribute Bytes)
    → IsMergeOf offered xs
    → replace a xs ≡ none
    → leb max_attributes (length xs) ≡ false
    → IsMergeOf (offered ++ a ∷ []) (xs ++ a ∷ [])
offered_added offered xs a g e room = record {
  bounded = ground (arith, length-append xs (a ∷ []));
  distinct = Distinct-append a xs g.distinct (replace-none a xs e);
  last_wins = λ k. ground (
    arith,
    g.last_wins k,
    lookup-append a k xs (replace-none a xs e),
    last_from-append none k offered a,
  );
}

pub nothing_offered : IsMergeOf [] []
unfolding lookup last_from
nothing_offered = record { bounded = omega arith; distinct = tt; last_wins = λ k. inl refl }
