-- ===== src/Format/Json/Reader.antt =====
-- A reader of the lines of `JsonRecordFormatter`, written from the grammar of RFC 8259 for one object
-- with the members of a record, in their order and without white space. It is not code of the
-- repository: it shows what another program finds in a line.
use ngin_log.Base.{
  ℕ, zero, suc, ◌+◌, ◌-◌, ◌*◌, Bool, true, false, ◌&&◌, List, [], ◌∷◌, Option, none, some, Bytes,
  leb, ◌==◌, if◌then◌else◌, length,
}
use ngin_log.Base.Int.{ℤ, pos, negsuc}
use ngin_log.Level.{codes}
use ngin_log.Format.Escape.RoundTrip.{json_table, read_quoted}

-- A reader takes what it reads from the front of the bytes.
abbrev pub Reader : Type 0 → Type 0
Reader A = Bytes → Option (A × Bytes)

infixl 5 ◌>>=◌ ◌>>◌
unfoldable pub ◌>>=◌ : {A B : Type 0} → Reader A → (A → Reader B) → Reader B
◌>>=◌ q f s = elim (q s) [ none ↦ none | some (a, rest) ↦ f a rest ]

abbrev pub ◌>>◌ : {A B : Type 0} → Reader A → Reader B → Reader B
q >> f = q >>= λ _. f

unfoldable pub return : {A : Type 0} → A → Reader A
return a s = some (a, s)

-- These bytes.
unfoldable pub literal : Bytes → Reader Bool
literal [] s = some (true, s)
literal (c ∷ cs) [] = none
literal (c ∷ cs) (x ∷ xs) = let rest = literal cs xs in if x == c then rest else none

abbrev pub is_decimal : ℕ → Bool
is_decimal c = leb b'0' c && leb c b'9'

-- The value of the decimal digits up to the first other byte, behind those read before.
unfoldable pub decimal_run : ℕ → Bytes → ℕ × Bytes
decimal_run n [] = (n, [])
decimal_run n (c ∷ cs) =
    let rest = decimal_run (n * 10 + (c - b'0')) cs in if is_decimal c then rest else (n, c ∷ cs)

-- A number without a sign: one digit or more.
unfoldable pub natural : Reader ℕ
unfolding decimal_run
natural [] = none
natural (c ∷ cs) = if is_decimal c then some (decimal_run 0 (c ∷ cs)) else none

-- A text between quotes.
unfoldable pub quoted : Reader Bytes
quoted [] = none
quoted (c ∷ cs) = if c == b'"' then read_quoted json_table cs else none

pub data JsonValue : Type 0 where
  number : ℤ → JsonValue
  flag : Bool → JsonValue
  words : Bytes → JsonValue

-- The number below zero by so much.
abbrev negated : ℕ → ℤ
negated zero = pos 0
negated (suc n) = negsuc n

-- A value, by its first byte.
unfoldable pub value : Reader JsonValue
value [] = none
value (c ∷ cs) =
    if c == b'"'
    then (quoted >>= λ s. return (words s)) (c ∷ cs)
    else if c == b't'
    then (literal (codes "true") >> return (flag true)) (c ∷ cs)
    else if c == b'f'
    then (literal (codes "false") >> return (flag false)) (c ∷ cs)
    else if c == b'-'
    then (natural >>= λ n. return (number (negated n))) cs
    else (natural >>= λ n. return (number (pos n))) (c ∷ cs)

abbrev pub Member : Type 0
Member = Bytes × JsonValue

-- `"key":value`.
unfoldable pub member : Reader Member
unfolding literal quoted value
member = do key ← quoted; literal (codes ":"); v ← value; return (key, v)

-- What stands behind the brace of an object or behind a member: `}`, or a further member, behind a comma
-- unless it is the first. The fuel is one unit for each member and one for the brace.
unfoldable pub members : ℕ → Bool → Reader (List Member)
members zero later s = none
members (suc fuel) later [] = none
members (suc fuel) later (c ∷ cs) =
    let rest : Reader (List Member) =
      member >>= λ m. (members fuel true >>= λ ms. return (m ∷ ms)) in
    if c == b'}'
    then some ([], cs)
    else if later
    then (if c == b',' then rest cs else none)
    else rest (c ∷ cs)

unfoldable pub object : Reader (List Member)
object s = (literal (codes "{") >> members (length s) false) s

pub record JsonLine : Type 0 where
  pub timestamp : ℕ
  pub level : Bytes
  pub logger : Bytes
  pub message : Bytes
  pub source : Bytes
  pub thread_id : ℕ
  pub attributes : List Member
  pub truncated_attributes : ℕ
  pub truncated_bytes : ℕ

-- A whole line.
unfoldable pub json_line : Reader JsonLine
unfolding literal natural quoted object
json_line = do
  literal (codes "{\"timestamp\":")
  timestamp ← natural
  literal (codes ",\"level\":")
  level ← quoted
  literal (codes ",\"logger\":")
  logger ← quoted
  literal (codes ",\"message\":")
  message ← quoted
  literal (codes ",\"source\":")
  source ← quoted
  literal (codes ",\"thread_id\":")
  thread_id ← natural
  literal (codes ",\"attributes\":")
  attributes ← object
  literal (codes ",\"truncated_attributes\":")
  truncated_attributes ← natural
  literal (codes ",\"truncated_bytes\":")
  truncated_bytes ← natural
  literal (codes "}\n")
  return (record {
    timestamp = timestamp;
    level = level;
    logger = logger;
    message = message;
    source = source;
    thread_id = thread_id;
    attributes = attributes;
    truncated_attributes = truncated_attributes;
    truncated_bytes = truncated_bytes;
  })

-- The lines up to the end of the bytes, on fuel, one unit for each line.
unfoldable pub lines : ℕ → Bytes → Option (List JsonLine)
unfolding json_line
lines fuel [] = some []
lines zero (c ∷ cs) = none
lines (suc fuel) (c ∷ cs) = elim (json_line (c ∷ cs)) [
  | none ↦ none
  | some (line, rest) ↦ elim (lines fuel rest) [ none ↦ none | some more ↦ some (line ∷ more) ]
]

-- A whole file. No line is empty, so that a unit for each byte is enough.
abbrev pub json_lines : Bytes → Option (List JsonLine)
json_lines s = lines (length s) s
