-- ===== src/Tests/Session.antt =====
-- The theorems on the line reader and the extranonces, at concrete buffers and numbers.
use solo_pool_rs.Prelude.{
  ℕ, ◌%◌, ◌==◌, if◌then◌else◌, ◌≡◌, ◌≢◌, refl, some, List, [], ◌∷◌, length, arith,
}
use solo_pool_rs.Prelude.Bytes.{Bytes}
use solo_pool_rs.Validator.{concat}
use solo_pool_rs.Session.Reader.{waiting, line, split_newline, strip_cr, read_line_bounded}
use solo_pool_rs.Session.Reader.Resume.{read_line_resumed}
use solo_pool_rs.Session.Extranonce.Unique.{nth_extranonce, nth_extranonce_distinct}
use solo_pool_rs.Session.Reader.Chunks.{read_line_of_chunks}

-- The line `ab` with its line end, in two buffers, and the start of the next line.
abbrev first_chunk : Bytes
first_chunk = b'a' ∷ b'b' ∷ b'\r' ∷ []

abbrev second_chunk : Bytes
second_chunk = b'\n' ∷ b'c' ∷ []

abbrev both : List Bytes
both = first_chunk ∷ second_chunk ∷ []

first_waits : (read_line_bounded (first_chunk ∷ []) [] 8).outcome ≡ waiting
unfolding read_line_bounded
first_waits = refl

read_line_resumed_example :
    read_line_bounded (second_chunk ∷ []) (read_line_bounded (first_chunk ∷ []) [] 8).buf 8
    ≡ read_line_bounded both [] 8
read_line_resumed_example =
    read_line_resumed (first_chunk ∷ []) (second_chunk ∷ []) [] 8 first_waits

newline_found : split_newline (concat both) ≡ some (first_chunk, b'c' ∷ [])
unfolding split_newline concat
newline_found = refl

read_line_of_chunks_example :
    ((read_line_bounded both [] 8).outcome ≡ line (strip_cr first_chunk))
    × ((read_line_bounded both [] 8).buf ≡ strip_cr first_chunk)
    × (concat (read_line_bounded both [] 8).rest ≡ b'c' ∷ [])
read_line_of_chunks_example =
    read_line_of_chunks both [] first_chunk (b'c' ∷ []) 8 (λ e. absurd (cc), (λ e. absurd (cc), tt))
      newline_found (omega arith)

-- Calls of an SV1 session's size and of one that an SV2 device chose.
abbrev by_turns : ℕ → ℕ
by_turns n = if n % 2 == 0 then 4 else 2

nth_extranonce_distinct_example :
    (nth_extranonce by_turns 300 ≢ nth_extranonce by_turns 301)
    × (length (nth_extranonce by_turns 300) ≡ 4)
    × (length (nth_extranonce by_turns 301) ≡ 2)
nth_extranonce_distinct_example =
    nth_extranonce_distinct by_turns 300 301 (omega arith) (omega arith) (omega arith) (omega arith)
      (omega arith)
