-- ===== src/Registry/Names.antt =====
-- The names that `GetLoggerNames` returns.
use ngin_log.Base.{
  true, false, List, [], ◌∷◌, some, Bytes, All, arith, bytes_eq, bytes_eq_iff, ◌≡◌, ◌⊎◌, ◌↔◌, inl,
  inr, refl, sym, Bool-cases,
}
use ngin_log.Logger.{Logger}
use ngin_log.Registry.{
  Registry, find, get, bytes_lt, get_logger_names, insert_name, sort_names, names_of,
}

-- No name is followed by a smaller one.
abbrev pub IsSorted : List Bytes → Type 0
IsSorted [] = Unit {0}
IsSorted (n ∷ ns) = All (λ m. bytes_lt m n ≡ false) ns × IsSorted ns

abbrev pub Mem : Bytes → List Bytes → Type 0
Mem n [] = ⊥
Mem n (m ∷ ms) = (n ≡ m) ⊎ Mem n ms

bytes_lt_trans : (a b c : Bytes) → bytes_lt a b ≡ true → bytes_lt b c ≡ true → bytes_lt a c ≡ true
unfolding bytes_lt
bytes_lt_trans a b [] h k = cc
bytes_lt_trans a [] (z ∷ c) h k = cc
bytes_lt_trans [] (y ∷ b) (z ∷ c) h k = refl
bytes_lt_trans (x ∷ a) (y ∷ b) (z ∷ c) h k = ground (arith, bytes_lt_trans a b c)

-- What is smaller is not larger.
bytes_lt_asym : (a b : Bytes) → bytes_lt a b ≡ true → bytes_lt b a ≡ false
unfolding bytes_lt
bytes_lt_asym a [] h = cc
bytes_lt_asym [] (y ∷ b) h = refl
bytes_lt_asym (x ∷ a) (y ∷ b) h = ground (arith, bytes_lt_asym a b)

bytes_le_trans :
    (a b c : Bytes) → bytes_lt b a ≡ false → bytes_lt c b ≡ false → bytes_lt c a ≡ false
unfolding bytes_lt
bytes_le_trans [] b c h k = refl
bytes_le_trans (x ∷ a) [] c h k = cc
bytes_le_trans (x ∷ a) (y ∷ b) [] h k = cc
bytes_le_trans (x ∷ a) (y ∷ b) (z ∷ c) h k = ground (arith, bytes_le_trans a b c)

All-insert_name :
    (P : Bytes → Type 0) (n : Bytes) (ms : List Bytes) → P n → All P ms → All P (insert_name n ms)
unfolding insert_name
All-insert_name P n [] p h = (p, tt)
All-insert_name P n (m ∷ ms) p h = elim (Bool-cases (bytes_lt m n)) [
  | inl e ↦ rw e (h.0, All-insert_name P n ms p h.1)
  | inr e ↦ rw e (p, h)
]

below :
    (m n : Bytes) (ms : List Bytes)
    → bytes_lt m n ≡ false
    → All (λ k. bytes_lt k m ≡ false) ms
    → All (λ k. bytes_lt k n ≡ false) ms
below m n [] e h = tt
below m n (k ∷ ms) e h = (bytes_le_trans n m k e h.0, below m n ms e h.1)

insert_name-IsSorted : (n : Bytes) (ms : List Bytes) → IsSorted ms → IsSorted (insert_name n ms)
unfolding insert_name
insert_name-IsSorted n [] h = (tt, tt)
insert_name-IsSorted n (m ∷ ms) h = elim (Bool-cases (bytes_lt m n)) [
  | inl e ↦ rw e (
    All-insert_name (λ k. bytes_lt k m ≡ false) n ms (bytes_lt_asym m n e) h.0,
    insert_name-IsSorted n ms h.1,
  )
  | inr e ↦ rw e ((e, below m n ms e h.0), h)
]

sort_names-IsSorted : (ns : List Bytes) → IsSorted (sort_names ns)
unfolding sort_names
sort_names-IsSorted [] = tt
sort_names-IsSorted (n ∷ ns) = insert_name-IsSorted n (sort_names ns) (sort_names-IsSorted ns)

Mem-insert_name : (k n : Bytes) (ms : List Bytes) → Mem k (insert_name n ms) ↔ ((k ≡ n) ⊎ Mem k ms)
unfolding insert_name
Mem-insert_name k n [] = (λ h. h, λ h. h)
Mem-insert_name k n (m ∷ ms) = elim (Bool-cases (bytes_lt m n)) [
  | inl e ↦ rw e (ground (arith, Mem-insert_name k n ms))
  | inr e ↦ rw e (λ h. h, λ h. h)
]

Mem-sort_names : (k : Bytes) (ns : List Bytes) → Mem k (sort_names ns) ↔ Mem k ns
unfolding sort_names
Mem-sort_names k [] = (λ h. h, λ h. h)
Mem-sort_names k (n ∷ ns) = ground (arith, Mem-insert_name k n (sort_names ns), Mem-sort_names k ns)

Mem-names_of :
    (k : Bytes) (ls : List (Bytes × Logger))
    → Mem k (names_of ls) ↔ ((l : Logger) × (find k ls ≡ some l))
unfolding names_of find
Mem-names_of k [] = (λ h. absurd h, λ h. ground arith)
Mem-names_of k ((n, l) ∷ rest) = elim (Bool-cases (bytes_eq n k)) [
  | inl e ↦ let p = (bytes_eq_iff n k).0 e in rw e (λ h. (l, refl), λ h. inl (sym p))
  | inr e ↦ rw e (ground (arith, bytes_eq_iff n k, Mem-names_of k rest))
]

-- The names come in ascending order, and a name is among them exactly where `Get` finds a logger.
pub get_logger_names_lem :
    (g : Registry)
    → IsSorted (get_logger_names g)
      × ((name : Bytes) → Mem name (get_logger_names g) ↔ ((l : Logger) × (get g name ≡ some l)))
unfolding get_logger_names get
get_logger_names_lem g = (
  sort_names-IsSorted (names_of g.loggers),
  λ name. ground (arith, Mem-sort_names name (names_of g.loggers), Mem-names_of name g.loggers),
)
