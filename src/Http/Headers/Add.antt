-- ===== src/Http/Headers/Add.antt =====
-- Adding a header of src/protocol/http_parser.c, then finding it with a cursor.
use tinywf.Prelude.{Option, none, some}
use tinywf.Prelude.Bytes.{Bytes}

-- The first value, or the second where there is none.
abbrev pub or_else : Option Bytes → Bytes → Option Bytes
or_else none v = some v
or_else (some w) v = some w
