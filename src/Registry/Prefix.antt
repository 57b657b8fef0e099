-- ===== src/Registry/Prefix.antt =====
-- Which loggers a rule's prefix covers.
use ngin_log.Base.{
  true, ◌&&◌, [], ◌∷◌, ◌++◌, Bytes, arith, ltb, length, length-append, bytes_eq, bytes_eq_iff,
  get_elem?, ◌≡◌, ◌⊎◌, ◌↔◌, inl, inr, refl, Bool-cases,
}
use ngin_log.Registry.{starts_with, is_byte, logger_name_matches_prefix}

-- The prefix is empty, or the name, or the name's first segments up to a dot.
abbrev pub Covers : Bytes → Bytes → Type 0
Covers prefix name =
    (prefix ≡ []) ⊎ ((name ≡ prefix) ⊎ ((rest : Bytes) × (name ≡ prefix ++ b'.' ∷ rest)))

starts_with→split :
    (name prefix : Bytes)
    → starts_with name prefix ≡ true
    → is_byte b'.' (get_elem? name (length prefix)) ≡ true
    → (rest : Bytes) × (name ≡ prefix ++ b'.' ∷ rest)
unfolding starts_with
starts_with→split [] [] h d = cc
starts_with→split (c ∷ cs) [] h d = (cs, ground arith)
starts_with→split [] (p ∷ ps) h d = cc
starts_with→split (c ∷ cs) (p ∷ ps) h d =
    let (rest, e) = starts_with→split cs ps (ground arith) d in (rest, ground arith)

split→starts_with : (prefix rest : Bytes) → starts_with (prefix ++ rest) prefix ≡ true
unfolding starts_with
split→starts_with [] rest = refl
split→starts_with (p ∷ ps) rest = ground (arith, split→starts_with ps rest)

split→is_byte :
    (prefix rest : Bytes) → is_byte b'.' (get_elem? (prefix ++ b'.' ∷ rest) (length prefix)) ≡ true
split→is_byte [] rest = refl
split→is_byte (p ∷ ps) rest = split→is_byte ps rest

covers : (name prefix : Bytes) → logger_name_matches_prefix name prefix ≡ true → Covers prefix name
unfolding logger_name_matches_prefix
covers name [] h = inl refl
covers name (p ∷ ps) h = elim (Bool-cases (bytes_eq name (p ∷ ps))) [
  | inl e ↦ inr (inl ((bytes_eq_iff name (p ∷ ps)).0 e))
  | inr e ↦ inr (inr (starts_with→split name (p ∷ ps) (ground arith) (ground arith)))
]

-- A name that goes on behind the prefix passes the last of the tests.
split_matches :
    (name prefix rest : Bytes)
    → name ≡ prefix ++ b'.' ∷ rest
    → (ltb (length prefix) (length name)
        && starts_with name prefix
        && is_byte b'.' (get_elem? name (length prefix)))
      ≡ true
split_matches name prefix rest e =
    rw (e, split→starts_with prefix (b'.' ∷ rest), split→is_byte prefix rest)
      (ground (arith, length-append prefix (b'.' ∷ rest)))

covered : (name prefix : Bytes) → Covers prefix name → logger_name_matches_prefix name prefix ≡ true
unfolding logger_name_matches_prefix
covered name [] h = refl
covered name (p ∷ ps) (inl e) = cc
covered name (p ∷ ps) (inr (inl e)) = ground (arith, bytes_eq_iff name (p ∷ ps))
covered name (p ∷ ps) (inr (inr (rest, e))) = ground (arith, split_matches name (p ∷ ps) rest e)

-- `LoggerNameMatchesPrefix` holds exactly where the prefix is empty, equal to the name, or followed
-- by a dot in the name.
pub logger_name_matches_prefix_iff :
    (name prefix : Bytes) → (logger_name_matches_prefix name prefix ≡ true) ↔ Covers prefix name
logger_name_matches_prefix_iff name prefix = (covers name prefix, covered name prefix)
