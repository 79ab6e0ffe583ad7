-- ===== src/Uri/Safe.antt =====
-- Where the copies of `URIParser::parse` of src/common/URIParser.cc stay inside their memory.
use tinywf.Prelude.{◌≡◌, ◌⊎◌, Bool, true, false}
use tinywf.Prelude.Bytes.{Bytes}
use tinywf.Uri.Parsed.{ParsedUri, success, invalid, error_state}

-- The result of the last loop: stored, or an allocation failed and the state says so.
abbrev pub IsSettled : Bool → ParsedUri → Type 0
IsSettled true r = r.state ≡ success
IsSettled false r = (r.state ≡ invalid) ⊎ (r.state ≡ error_state)
