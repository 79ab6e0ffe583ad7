-- ===== src/Message.antt =====
-- `HttpMessage` of src/protocol/HttpMessage.cc: the parser of a message, and the blocks of the body that
-- is to be sent. A block is its bytes; `alloc` is the outcome of a `malloc`.
pub mod Encode
pub mod Append
pub mod Body
pub mod Encoded
pub mod Limit
use tinywf.Prelude.{
  ℕ, zero, suc, ◌+◌, ◌-◌, ◌%◌, ◌^◌, Bool, true, false, not, ◌&&◌, ◌||◌, Option, none, some, List,
  [], ◌∷◌, ◌++◌, ◌==◌, leb, ltb, if◌then◌else◌, is_nil, length, take, replicate,
}
use tinywf.Prelude.Bytes.{Bytes}
use tinywf.Http.{Parser, HeaderLine}

pub record Message : Type 0 where
  pub parser : Parser
  pub size_limit : ℕ
  pub cur_size : ℕ
  pub output_body : List Bytes
  pub output_body_size : ℕ

-- The values of `errno`; `efeedback` is what `feedback` leaves.
pub data Errno : Type 0 where
  ebadmsg eoverflow emsgsize eagain enomem efeedback : Errno

-- `append_output_body` and `append_output_body_nocopy`. The blocks are in memory, so that the sum of their
-- sizes does not wrap.
unfoldable pub append_output_body : Bool → Bytes → Message → Bool × Message
append_output_body alloc buf msg =
    if alloc
    then (
      true,
      record msg {
        output_body = msg.output_body ++ buf ∷ [];
        output_body_size = msg.output_body_size + length buf;
      },
    )
    else (false, msg)

unfoldable pub clear_output_body : Message → Message
clear_output_body msg = record msg { output_body = []; output_body_size = 0 }

-- The loop of `combine_from`, with `room` bytes of the new block left; `none` means that it writes behind
-- the block.
unfoldable pub copy_blocks : ℕ → List Bytes → Option Bytes
copy_blocks room [] = some (replicate room 0)
copy_blocks room (block ∷ blocks) =
    let rest = copy_blocks (room - length block) blocks in
    if leb (length block) room
    then elim rest [ none ↦ none | some text ↦ some (block ++ text) ]
    else none
