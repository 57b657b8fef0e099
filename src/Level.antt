-- ===== src/Level.antt =====
-- include/NGIN/Log/LogLevel.hpp.
use Prim.Native.Char.{code}
use Prim.Native.String.{String}
use ngin_log.Base.{ℕ, [], ◌∷◌, Bytes}

-- The code points of a text: its bytes, since every literal is ASCII.
abbrev pub codes : String → Bytes
codes String.[] = []
codes (String.◌∷◌ c s) = code c ∷ codes s

pub data LogLevel : Type 0 where
  trace debug info warn error fatal off : LogLevel

-- The value of the enumerator, `static_cast<UInt8>(level)`.
abbrev pub to_uint8 : LogLevel → ℕ
to_uint8 trace = 0
to_uint8 debug = 1
to_uint8 info = 2
to_uint8 warn = 3
to_uint8 error = 4
to_uint8 fatal = 5
to_uint8 off = 6

abbrev pub to_string : LogLevel → Bytes
to_string trace = codes "Trace"
to_string debug = codes "Debug"
to_string info = codes "Info"
to_string warn = codes "Warn"
to_string error = codes "Error"
to_string fatal = codes "Fatal"
to_string off = codes "Off"
