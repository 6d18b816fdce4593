-- ===== src/Line.antt =====
-- src/transport/line_transport.cpp and src/transport/stdio_transport.cpp: messages as lines. What
-- the reading thread meets is a list of `Read`; the handlers that are set are flags, and what the
-- transport does outside are its effects. The write of a line succeeds.
pub mod Splitting
pub mod Delivery
use mcp_cpp.Common.{
  ℕ, zero, suc, Bool, true, false, Option, none, some, List, [], ◌∷◌, ◌++◌, map, Text, codes,
  length, if◌then◌else◌, split_byte, has_byte, drop_cr,
}
use mcp_cpp.Errors.{Error, fail_with, internal_error, Result, ok, err}
use mcp_cpp.Json.{JsonLib}
use mcp_cpp.Messages.{Message, Attempt, returns, throws, serialize_message, serialize_batch}
use mcp_cpp.Messages.Frames.{ParsedFrame, parse_frame}

pub record LineTransport : Type 0 where
  pub message_handler : Bool
  pub error_handler : Bool
  pub close_handler : Bool

pub data Effect (J : Type 0) : Type 0 where
  handles : Message J → Effect J
  reports : Error J → Effect J
  closes : Effect J
  writes : Text → Effect J
  -- An exception of the JSON library leaves the reading thread.
  escapes : Effect J

-- One round of the loop of `read_loop`.
pub data Read : Type 0 where
  got : Text → Read
  end_of_file poll_failed read_failed : Read
  -- `disconnect` woke the loop.
  stopped : Read

-- The inner loop of `read_loop` on fuel: the lines that it takes, and the buffer after it.
unfoldable pub take_lines : ℕ → Text → List Text × Text
take_lines zero buffer = ([], buffer)
take_lines (suc fuel) buffer = elim (split_byte b'\n' buffer) [
  | none ↦ ([], buffer)
  | some parts ↦ let rest = take_lines fuel parts.1 in (drop_cr parts.0 ∷ rest.0, rest.1)
]

-- Each line takes a byte of the buffer.
unfoldable pub drain : Text → List Text × Text
drain buffer = take_lines (length buffer) buffer

module _ (L : JsonLib) where
  open L use {Json}

  unfoldable pub emit_error : LineTransport → Error Json → List (Effect Json)
  emit_error t e = if t.error_handler then reports e ∷ [] else []

  unfoldable pub emit_errors : LineTransport → List (Error Json) → List (Effect Json)
  emit_errors t [] = []
  emit_errors t (e ∷ es) = emit_error t e ++ emit_errors t es

  unfoldable pub emit_close : LineTransport → List (Effect Json)
  emit_close t = if t.close_handler then closes ∷ [] else []

  unfoldable pub write_line : Text → List (Effect Json)
  write_line line = writes (line ++ b'\n' ∷ []) ∷ []

  unfoldable pub send_line : LineTransport → Text → List (Effect Json)
  send_line t line =
      if has_byte b'\n' line
      then emit_error t
          (fail_with internal_error (codes "refusing to send message containing raw newline"))
      else write_line line

  unfoldable pub send : LineTransport → Message Json → List (Effect Json)
  send t m = send_line t (serialize_message L m)

  unfoldable pub send_batch : LineTransport → List (Message Json) → List (Effect Json)
  send_batch t ms = send_line t (serialize_batch L ms)

  abbrev pub handle_all : LineTransport → List (Message Json) → List (Effect Json)
  handle_all t ms = if t.message_handler then map handles ms else []

  abbrev pub process_frame :
      LineTransport → Attempt (Result Json (ParsedFrame Json)) → Bool × List (Effect Json)
  process_frame t throws = (false, escapes ∷ [])
  process_frame t (returns (err e)) = (true, emit_error t e)
  process_frame t (returns (ok frame)) =
      (true, emit_errors t frame.item_errors ++ handle_all t frame.messages)

  -- Whether it returns, and its effects.
  unfoldable pub process_line : LineTransport → Text → Bool × List (Effect Json)
  process_line t [] = (true, [])
  process_line t (c ∷ cs) = process_frame t (parse_frame L (c ∷ cs))

  -- The effects in front of what follows, which an exception cuts off.
  abbrev pub then_effects :
      Bool × List (Effect Json) → Bool × List (Effect Json) → Bool × List (Effect Json)
  then_effects (true, effects) next = (next.0, effects ++ next.1)
  then_effects (false, effects) next = (false, effects)

  unfoldable pub process_lines : LineTransport → List Text → Bool × List (Effect Json)
  process_lines t [] = (true, [])
  process_lines t (line ∷ lines) = then_effects (process_line t line) (process_lines t lines)

  abbrev pub fails : LineTransport → Text → Bool × List (Effect Json)
  fails t message = (true, emit_error t (fail_with internal_error message) ++ emit_close t)

  -- `read_loop` from a buffer on; at the end of the list it waits.
  unfoldable pub read_loop : LineTransport → Text → List Read → Bool × List (Effect Json)
  read_loop t buffer [] = (true, [])
  read_loop t buffer (got chunk ∷ reads) =
      let drained = drain (buffer ++ chunk) in
      then_effects (process_lines t drained.0) (read_loop t drained.1 reads)
  read_loop t buffer (end_of_file ∷ reads) = (true, emit_close t)
  read_loop t buffer (poll_failed ∷ reads) = fails t (codes "stdio poll failed")
  read_loop t buffer (read_failed ∷ reads) = fails t (codes "stdio read failed")
  read_loop t buffer (stopped ∷ reads) = (true, [])
