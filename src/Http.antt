-- ===== src/Http.antt =====
-- src/protocol/http_parser.h and the state of src/protocol/http_parser.c: the parser's record,
-- its constants, `http_parser_init` and the small accessors.
pub mod Headers
pub mod StartLine
pub mod Name
pub mod Value
pub mod Chunk
pub mod Header
pub mod Append
pub mod Frame
pub mod ChunkFrame
pub mod Valid
pub mod Bounds
pub mod Resume
use tinywf.Prelude.{ℕ, ◌-◌, ◌^◌, Bool, true, false, Option, none, List, [], ◌&&◌, if◌then◌else◌}
use tinywf.Prelude.Bytes.{Bytes}

-- HPS_START_LINE and so on
pub data HeaderState : Type 0 where
  start_line header_name header_value header_complete : HeaderState

-- CPS_CHUNK_DATA and so on
pub data ChunkState : Type 0 where
  chunk_data trailer_part chunk_complete : ChunkState

-- The `int` that the parsing functions return: 1, 0, -1 and -2.
pub data Status : Type 0 where
  more wait nomem malformed : Status

-- `struct __header_line`; `buf` is all of its allocation for text.
pub record HeaderLine : Type 0 where
  pub name_len : ℕ
  pub value_len : ℕ
  pub buf : Bytes

-- `http_parser_t`. `namebuf` is the whole array, `msgbuf` the `msgsize` bytes in use.
pub record Parser : Type 0 where
  pub header_state : HeaderState
  pub chunk_state : ChunkState
  pub header_offset : ℕ
  pub chunk_offset : ℕ
  pub content_length : ℕ
  pub transfer_length : ℕ
  pub version : Option Bytes
  pub method : Option Bytes
  pub uri : Option Bytes
  pub code : Option Bytes
  pub phrase : Option Bytes
  pub header_list : List HeaderLine
  pub namebuf : Bytes
  pub msgbuf : Bytes
  pub msgsize : ℕ
  pub bufsize : ℕ
  pub has_connection : Bool
  pub has_content_length : Bool
  pub has_keep_alive : Bool
  pub expect_continue : Bool
  pub keep_alive : Bool
  pub chunked : Bool
  pub complete : Bool
  pub is_resp : Bool

abbrev pub header_name_max : ℕ
header_name_max = 64

abbrev pub start_line_max : ℕ
start_line_max = 8192

abbrev pub header_value_max : ℕ
header_value_max = 8192

abbrev pub chunk_line_max : ℕ
chunk_line_max = 1024

abbrev pub trailer_line_max : ℕ
trailer_line_max = 8192

abbrev pub msgbuf_init_size : ℕ
msgbuf_init_size = 2048

-- `(size_t)-1`
abbrev pub size_max : ℕ
size_max = 2 ^ 64 - 1

-- What `init` does not name keeps what the memory held.
unfoldable pub init : Bool → Parser → Parser
init is_resp p = record p {
  header_state = start_line;
  header_offset = 0;
  transfer_length = size_max;
  content_length = if is_resp then size_max else 0;
  version = none;
  method = none;
  uri = none;
  code = none;
  phrase = none;
  header_list = [];
  msgbuf = [];
  msgsize = 0;
  bufsize = 0;
  has_connection = false;
  has_content_length = false;
  has_keep_alive = false;
  expect_continue = false;
  keep_alive = true;
  chunked = false;
  complete = false;
  is_resp = is_resp;
}

abbrev pub is_complete : HeaderState → Bool
is_complete header_complete = true
is_complete _ = false

abbrev pub is_chunk_complete : ChunkState → Bool
is_chunk_complete chunk_complete = true
is_chunk_complete _ = false

-- `http_parser_close_message`
unfoldable pub close_message : Parser → Parser
close_message p = record p { complete = true }
