-- ===== src/Session/Reader.antt =====
-- `read_line_bounded`. The reader is the list of the buffers that `fill_buf` is going to return; an
-- empty buffer is the end of the input, and where the list ends the call waits.
pub mod Chunks
pub mod Resume
use solo_pool_rs.Prelude.{
  ℕ, Option, none, some, List, [], ◌∷◌, ◌++◌, length, ltb, ◌==◌, if◌then◌else◌,
}
use solo_pool_rs.Prelude.Bytes.{Bytes}

-- `Ok(None)`, `Ok(Some(len))` with the line in the buffer, the error, and waiting for input.
pub data Outcome : Type 0 where
  eof too_long waiting : Outcome
  line : Bytes → Outcome

-- What a call leaves: its outcome, the caller's buffer and the input that is not consumed.
pub record Reading : Type 0 where
  pub outcome : Outcome
  pub buf : Bytes
  pub rest : List Bytes

-- `available.iter().position(|&b| b == b'\n')`: what stands before the newline, and after it.
unfoldable pub split_newline : Bytes → Option (Bytes × Bytes)
split_newline [] = none
split_newline (b ∷ bytes) =
    let later : Option (Bytes × Bytes) = elim (split_newline bytes) [
      | none ↦ none
      | some parts ↦ some (b ∷ parts.0, parts.1)
    ] in
    if b == b'\n' then some ([], bytes) else later

-- `if buf.last() == Some(&b'\r') { buf.pop() }`.
unfoldable pub strip_cr : Bytes → Bytes
strip_cr [] = []
strip_cr (b ∷ []) = if b == b'\r' then [] else b ∷ []
strip_cr (b ∷ c ∷ bytes) = b ∷ strip_cr (c ∷ bytes)

-- `consume(pos + 1)`: a buffer that is used up is not returned again.
unfoldable pub unread : Bytes → List Bytes → List Bytes
unread [] chunks = chunks
unread (b ∷ bytes) chunks = (b ∷ bytes) ∷ chunks

-- The line is complete.
unfoldable pub complete : Bytes → List Bytes → ℕ → Reading
complete stripped rest max =
    if ltb max (length stripped)
    then record { outcome = too_long; buf = stripped; rest = rest }
    else record { outcome = line stripped; buf = stripped; rest = rest }

-- `available.is_empty()`.
unfoldable pub at_end : Bytes → List Bytes → Reading
at_end [] rest = record { outcome = eof; buf = []; rest = rest }
at_end (b ∷ buf) rest = record { outcome = line (b ∷ buf); buf = b ∷ buf; rest = rest }

-- One round of the loop on a buffer that is not empty, by where its newline stands; `later` is what
-- the loop goes on to.
unfoldable pub take_chunk :
    Option (Bytes × Bytes) → Bytes → List Bytes → Bytes → ℕ → Reading → Reading
unfolding strip_cr unread complete
take_chunk (some parts) chunk chunks buf max later =
    complete (strip_cr (buf ++ parts.0)) (unread parts.1 chunks) max
take_chunk none chunk chunks buf max later =
    if ltb max (length (buf ++ chunk))
    then record { outcome = too_long; buf = buf ++ chunk; rest = chunks }
    else later

unfoldable pub read_line_bounded : List Bytes → Bytes → ℕ → Reading
unfolding split_newline take_chunk at_end
read_line_bounded [] buf max = record { outcome = waiting; buf = buf; rest = [] }
read_line_bounded ([] ∷ chunks) buf max = at_end buf ([] ∷ chunks)
read_line_bounded ((b ∷ bytes) ∷ chunks) buf max =
    take_chunk (split_newline (b ∷ bytes)) (b ∷ bytes) chunks buf max
      (read_line_bounded chunks (buf ++ (b ∷ bytes)) max)
