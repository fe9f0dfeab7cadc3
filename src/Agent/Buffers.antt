-- ===== src/Agent/Buffers.antt =====
-- kiosk_agent/core/agent_engine.py: the parts of a streamed answer are put together.
pub mod Assembly
use local_voice_agent.Prelude.{
  ℕ, ◌+◌, String, List, [], ◌∷◌, ◌++◌, ltb, if◌then◌else◌, ◌==◌, nat_eq, string_eq, option_eq,
  concat,
}

-- One entry of `delta.tool_calls`; a missing text is blank.
pub record CallDelta : Type 0 where
  pub index : ℕ
  pub id : String
  pub name : String
  pub arguments : String

-- The `delta` of a chunk; no content is blank.
pub record Chunk : Type 0 where
  pub content : String
  pub calls : List CallDelta

pub record ToolCallBuffer : Type 0 where
  pub id : String
  pub name : String
  pub arguments : String

abbrev pub Buffers : Type 0
Buffers = List (ℕ × ToolCallBuffer)

abbrev pub empty_buffer : ToolCallBuffer
empty_buffer = record { id = ""; name = ""; arguments = "" }

abbrev pub extend : CallDelta → ToolCallBuffer → ToolCallBuffer
extend d b = record {
  id = concat b.id d.id;
  name = concat b.name d.name;
  arguments = concat b.arguments d.arguments;
}

-- `tool_buffers.setdefault(call.index, ToolCallBuffer())`, and the additions to it. The dictionary
-- is kept in the order of the indices, in which the code reads it.
unfoldable pub add_delta : CallDelta → Buffers → Buffers
add_delta d [] = (d.index, extend d empty_buffer) ∷ []
add_delta d ((i, b) ∷ buffers) =
    let rest = add_delta d buffers in
    if d.index == i
    then (i, extend d b) ∷ buffers
    else if ltb d.index i
    then (d.index, extend d empty_buffer) ∷ (i, b) ∷ buffers
    else (i, b) ∷ rest

unfoldable pub add_deltas : List CallDelta → Buffers → Buffers
unfolding add_delta
add_deltas [] buffers = buffers
add_deltas (d ∷ ds) buffers = add_deltas ds (add_delta d buffers)

-- The calls of all chunks
unfoldable pub call_deltas : List Chunk → List CallDelta
call_deltas [] = []
call_deltas (c ∷ cs) = c.calls ++ call_deltas cs

-- `tool_buffers` after the stream
unfoldable pub collect : List Chunk → Buffers
unfolding add_deltas call_deltas
collect chunks = add_deltas (call_deltas chunks) []

-- `"".join(text_parts)`
unfoldable pub text_of : List Chunk → String
text_of [] = ""
text_of (c ∷ cs) = concat c.content (text_of cs)
