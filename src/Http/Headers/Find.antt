-- ===== src/Http/Headers/Find.antt =====
-- Setting a header of src/protocol/http_parser.c, then finding it with a cursor.
use tinywf.Prelude.{◌≡◌, refl, true, some, List, [], ◌∷◌, ◌++◌, arith, length}
use tinywf.Prelude.Bytes.{Bytes, case_eq_refl}
use tinywf.Http.{HeaderLine, Parser}
use tinywf.Http.Headers.{colon, crlf, line_matches, find_in, Cursor, check_message_header}
use tinywf.Http.Headers.Text.{LineText, LineText-line_name}

-- Every line of the list is the text of some name and value.
abbrev pub AllLines : List HeaderLine → Type 0
AllLines [] = Unit {0}
AllLines (l ∷ ls) = ((name : Bytes) × (value : Bytes) × LineText l name value) × AllLines ls

abbrev pub added : Bytes → Bytes → HeaderLine
added name value = record {
  name_len = length name;
  value_len = length value;
  buf = name ++ (colon ++ (value ++ crlf));
}

pub added-LineText : (name value : Bytes) → LineText (added name value) name value
added-LineText name value = record { spare = []; named = refl; valued = refl; text = refl }

pub LineText-matches :
    {line : HeaderLine} {name value : Bytes}
    → LineText line name value
    → line_matches name line ≡ true
unfolding line_matches
LineText-matches {line} {name} t =
    rw (LineText-line_name t) (ground (arith, t.named, case_eq_refl name))

-- What the walk returns: the lines behind `seen`, of which the first match has the new value.
record HeaderSet (name value : Bytes) (c : Cursor) (seen out : List HeaderLine) : Type 0 where
  lines : List HeaderLine
  joined : out ≡ seen ++ lines
  found : (find_in name c lines).0 ≡ some value
  texts : AllLines lines

pub check_message_header-header_list :
    (name value : Bytes) (p : Parser)
    → (check_message_header name value p).header_list ≡ p.header_list
unfolding check_message_header
check_message_header-header_list name value p = ground arith
