-- ===== src/Context.antt =====
-- include/NGIN/Log/Context.hpp: the thread's stack of scoped attributes, and the scope objects
-- that cut it back when they are destroyed. A scope object is a value here; each operation is
-- given the thread's storage and returns it.
pub mod Nesting
pub mod Moves
use ngin_log.Base.{
  ℕ, zero, ◌-◌, Bool, true, false, List, [], ◌∷◌, ◌++◌, Option, none, some, Bytes, if◌then◌else◌,
  length, take, replicate, suc, ltb,
}
use ngin_log.Base.Int.{ℤ, pos, negsuc}
use ngin_log.Base.Digits.{digits}
use ngin_log.Level.{codes}
use ngin_log.Types.{AttributeValue, int64, uint64, double, boolean, text}
use ngin_log.Builder.{
  AttrInput, attribute_value, bool, enumerator, signed, unsigned, floating, string_view, c_string,
  string, duration, error_code, pointer, decimal,
}

-- `ContextValue` owns its text.
abbrev pub ContextValue : Type 0
ContextValue = AttributeValue Bytes

pub record ContextAttribute : Type 0 where
  pub key : Bytes
  pub value : ContextValue

-- `MakeOwnedContextValue`; `none` where it throws, which building the text of an error code may.
unfoldable pub make_owned_context_value : AttrInput → Option ContextValue
make_owned_context_value (attribute_value v) = some v
make_owned_context_value (bool b) = some (boolean b)
make_owned_context_value (enumerator underlying) = make_owned_context_value underlying
make_owned_context_value (signed i) = some (int64 i)
make_owned_context_value (unsigned n) = some (uint64 n)
make_owned_context_value (floating d) = some (double d)
make_owned_context_value (string_view s) = some (text s)
make_owned_context_value (c_string none) = some (text (codes ""))
make_owned_context_value (c_string (some s)) = some (text s)
make_owned_context_value (string s) = some (text s)
make_owned_context_value (duration i) = some (int64 i)
make_owned_context_value (error_code none) = none
make_owned_context_value (error_code (some (category, value, what))) =
    some (text (category ++ (codes ":" ++ (decimal value ++ (codes ":" ++ what)))))
make_owned_context_value (pointer raw) =
    let hex = digits 16 raw in
    some (text (if ltb 17 (length hex) then codes "0x0" else codes "0x" ++ hex))

-- The default-constructed attribute.
abbrev pub blank : ContextAttribute
blank = record { key = []; value = int64 (pos 0) }

abbrev pub Storage : Type 0
Storage = List ContextAttribute

-- `std::vector::resize`: it cuts the vector, or fills it up with default-constructed attributes.
unfoldable pub resize : ℕ → Storage → Storage
resize n storage = take n storage ++ replicate (n - length storage) blank

pub record ScopedLogContext : Type 0 where
  pub start : ℕ
  pub active : Bool

-- `ScopedLogContext()`, from the initialisers of its fields.
abbrev pub default_scope : ScopedLogContext
default_scope = record { start = 0; active = true }

-- The private constructor.
abbrev pub make_scope : ℕ → ScopedLogContext
make_scope start = record { start = start; active = true }

-- `GetLogContextView`.
abbrev pub get_log_context_view : Storage → List ContextAttribute
get_log_context_view storage = storage

-- `PushLogContext`.
unfoldable pub push_log_context : Storage → List ContextAttribute → ScopedLogContext × Storage
push_log_context storage attributes = (make_scope (length storage), storage ++ attributes)

-- `Reset`.
unfoldable pub reset : ScopedLogContext → Storage → ScopedLogContext × Storage
unfolding resize
reset s storage =
    if s.active then (record s { active = false }, resize s.start storage) else (s, storage)

-- The destructor: what it leaves of the storage.
unfoldable pub destroy : ScopedLogContext → Storage → Storage
unfolding reset
destroy s storage = (reset s storage).1

-- The move constructor: the new scope, and the other as it leaves it.
unfoldable pub move_construct : ScopedLogContext → ScopedLogContext × ScopedLogContext
move_construct other =
    (record { start = other.start; active = other.active }, record other { active = false })

-- The move assignment from another object.
unfoldable pub move_assign :
    ScopedLogContext → ScopedLogContext → Storage → ScopedLogContext × ScopedLogContext × Storage
unfolding reset
move_assign this other storage = (
  record { start = other.start; active = other.active },
  record other { active = false },
  (reset this storage).1,
)
