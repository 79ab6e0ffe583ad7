-- ===== src/HttpUtil/ChunkCursor.antt =====
-- HttpChunkCursor of src/util/HttpUtil.cc and src/util/HttpUtil.h. A pointer into the body is the
-- bytes from there on.
pub mod Lines
pub mod Chunks
pub mod Decoded
use tinywf.Prelude.{
  ◌≡◌, ℕ, zero, suc, ◌+◌, ◌%◌, ◌^◌, Bool, true, false, Option, none, some, [], ◌∷◌, ◌++◌, ◌==◌, ltb,
  if◌then◌else◌, get_or, length, drop, take,
}
use tinywf.Prelude.Bytes.{Bytes}
use tinywf.Http.Chunk.{hex_digit, is_hex, skip_spaces, take_sign, skip_prefix, strtol}

-- Behind the digits in front.
unfoldable pub after_digits : Bytes → Bytes
unfolding hex_digit
after_digits [] = []
after_digits (c ∷ cs) =
    let rest = after_digits cs in elim (hex_digit c) [ none ↦ c ∷ cs | some d ↦ rest ]

-- `end` after `strtol(line, &end, 16)`
unfoldable pub strtol_end : Bytes → Bytes
unfolding after_digits
strtol_end line =
    let digits = skip_prefix (take_sign (skip_spaces line)).1 in
    if is_hex (get_or digits 0 0) then after_digits digits else line

-- `strchr(end, '\r')`
unfoldable pub find_return : Bytes → Option Bytes
find_return [] = none
find_return (c ∷ cs) = let rest = find_return cs in if c == b'\r' then some (c ∷ cs) else rest

pub record ChunkCursor : Type 0 where
  body : Option Bytes
  pos : Bytes
  chunked : Bool
  end : Bool

unfoldable pub new_chunk_cursor : Option Bytes → Bool → ChunkCursor
new_chunk_cursor none chunked = record { body = none; pos = []; chunked = false; end = true }
new_chunk_cursor (some body) chunked = record {
  body = some body;
  pos = body;
  chunked = chunked;
  end = false;
}

unfoldable pub finished : ChunkCursor → ChunkCursor
finished c = record c { end = true }

-- A chunk of `size` bytes from the carriage return of its line on; `none` is a pointer past the body.
unfoldable pub chunk_at : ℕ → Bytes → ChunkCursor → Option (Bytes × ChunkCursor)
chunk_at size cur c =
    if ltb (length cur) (size + 4)
    then none
    else some (take size (drop 2 cur), record c { pos = drop (size + 4) cur })

-- What `next` did: it returned false, it stored a chunk and returned true, or it used a pointer
-- that points nowhere.
pub data Next : Type 0 where
  no_chunk : ChunkCursor → Next
  next_chunk : Bytes → ChunkCursor → Next
  stray : Next

unfoldable pub chunk_stored : Option (Bytes × ChunkCursor) → Next
chunk_stored none = stray
chunk_stored (some (chunk, c)) = next_chunk chunk c

unfoldable pub sized_at : ℕ → Option Bytes → ChunkCursor → Next
unfolding chunk_at chunk_stored
sized_at size none c = stray
sized_at size (some cur) c = chunk_stored (chunk_at size cur c)

-- The part of `next` for chunks.
unfoldable pub next_sized : ℕ → ChunkCursor → Next
unfolding finished strtol_end find_return sized_at
next_sized size c =
    if size == 0 then no_chunk (finished c) else sized_at size (find_return (strtol_end c.pos)) c

-- `strtol` without a digit is 0.
unfoldable pub get_or_zero : Option ℕ → ℕ
get_or_zero none = 0
get_or_zero (some n) = n

unfoldable pub get_or_nil : Option Bytes → Bytes
get_or_nil none = []
get_or_nil (some body) = body

unfoldable pub next : ChunkCursor → Next
unfolding finished strtol next_sized get_or_zero get_or_nil
next c =
    if c.end
    then no_chunk c
    else if c.chunked
    then next_sized (get_or_zero (strtol c.pos)) c
    else next_chunk (get_or_nil c.body) (finished c)

unfoldable pub rewind : ChunkCursor → ChunkCursor
rewind c = elim c.body [ none ↦ c | some body ↦ record c { pos = body; end = false } ]

-- The loop of `decode_chunked_body`, on fuel; `decoded` is what it has so far. `none` means that the
-- fuel ran out or that the cursor strayed.
unfoldable pub decode_loop : ℕ → Bytes → ChunkCursor → Option Bytes
unfolding next
decode_loop zero decoded c = none
decode_loop (suc fuel) decoded c = elim (next c) [
  | no_chunk d ↦ some decoded
  | next_chunk chunk d ↦ decode_loop fuel (decoded ++ chunk) d
  | stray ↦ none
]

-- `decode_chunked_body` of a message with this body, or with none; each chunk takes at least a byte.
unfoldable pub decode_chunked_body : Option Bytes → Bool → Option Bytes
unfolding decode_loop new_chunk_cursor
decode_chunked_body none chunked = some []
decode_chunked_body (some body) chunked =
    decode_loop (length body + 2) [] (new_chunk_cursor (some body) chunked)
