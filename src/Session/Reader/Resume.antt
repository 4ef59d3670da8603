-- ===== src/Session/Reader/Resume.antt =====
-- A read that is given up, and what is read at all.
use solo_pool_rs.Prelude.{
  ℕ, ◌≤◌, ◌≡◌, ◌⊎◌, refl, Option, none, some, List, [], ◌∷◌, ◌++◌, length, ltb, arith, Bool-cases,
  inl, inr,
}
use solo_pool_rs.Prelude.Bytes.{Bytes}
use solo_pool_rs.Session.Reader.{
  too_long, waiting, Reading, split_newline, strip_cr, unread, complete, at_end, take_chunk,
  read_line_bounded,
}

complete-ends :
    (s : Bytes) (rest : List Bytes) (max : ℕ) → ¬ ((complete s rest max).outcome ≡ waiting)
unfolding complete
complete-ends s rest max w = elim (Bool-cases (ltb max (length s))) [
  | inl e ↦ absurd (ground (arith, e, w))
  | inr e ↦ absurd (ground (arith, e, w))
]

at_end-ends : (buf : Bytes) (rest : List Bytes) → ¬ ((at_end buf rest).outcome ≡ waiting)
unfolding at_end
at_end-ends [] rest w = cc
at_end-ends (b ∷ buf) rest w = cc

take_chunk-resumed :
    (parts : Option (Bytes × Bytes)) (chunk : Bytes) (chunks more : List Bytes) (buf : Bytes)
    (max : ℕ) (later later_on : Reading)
    → (later.outcome ≡ waiting → read_line_bounded more later.buf max ≡ later_on)
    → (take_chunk parts chunk chunks buf max later).outcome ≡ waiting
    → read_line_bounded more (take_chunk parts chunk chunks buf max later).buf max
      ≡ take_chunk parts chunk (chunks ++ more) buf max later_on
unfolding take_chunk
take_chunk-resumed (some parts) chunk chunks more buf max later later_on go w =
    absurd (complete-ends (strip_cr (buf ++ parts.0)) (unread parts.1 chunks) max w)
take_chunk-resumed none chunk chunks more buf max later later_on go w =
    elim (Bool-cases (ltb max (length (buf ++ chunk)))) [
      | inl long ↦ absurd (ground (arith, long, w))
      | inr short ↦ rw (take_chunk, short) (go (ground (arith, short, w)))
    ]

-- A call that waits has consumed its input into the buffer, so giving it up loses nothing: calling
-- again with the buffer that it left, when more input is there, gives what one call on the whole
-- input would have given.
pub read_line_resumed :
    (chunks more : List Bytes) (buf : Bytes) (max : ℕ)
    → (read_line_bounded chunks buf max).outcome ≡ waiting
    → read_line_bounded more (read_line_bounded chunks buf max).buf max
      ≡ read_line_bounded (chunks ++ more) buf max
unfolding read_line_bounded
read_line_resumed [] more buf max w = refl
read_line_resumed ([] ∷ chunks) more buf max w = absurd (at_end-ends buf ([] ∷ chunks) w)
read_line_resumed ((b ∷ bytes) ∷ chunks) more buf max w =
    take_chunk-resumed (split_newline (b ∷ bytes)) (b ∷ bytes) chunks more buf max
      (read_line_bounded chunks (buf ++ (b ∷ bytes)) max)
      (read_line_bounded (chunks ++ more) (buf ++ (b ∷ bytes)) max)
      (read_line_resumed chunks more (buf ++ (b ∷ bytes)) max) w

at_end-bounded :
    (buf : Bytes) (rest : List Bytes) (max : ℕ)
    → length buf ≤ max
    → ((at_end buf rest).outcome ≡ too_long) ⊎ (length (at_end buf rest).buf ≤ max)
unfolding at_end
at_end-bounded [] rest max h = inr (omega arith)
at_end-bounded (b ∷ buf) rest max h = inr h

complete-bounded :
    (s : Bytes) (rest : List Bytes) (max : ℕ)
    → ((complete s rest max).outcome ≡ too_long) ⊎ (length (complete s rest max).buf ≤ max)
unfolding complete
complete-bounded s rest max = elim (Bool-cases (ltb max (length s))) [
  | inl long ↦ rw (complete, long) (inl refl)
  | inr short ↦ rw (complete, short) (inr (ground (arith, short)))
]

take_chunk-bounded :
    (parts : Option (Bytes × Bytes)) (chunk : Bytes) (chunks : List Bytes) (buf : Bytes) (max : ℕ)
    (later : Reading)
    → (length (buf ++ chunk) ≤ max → (later.outcome ≡ too_long) ⊎ (length later.buf ≤ max))
    → let r = take_chunk parts chunk chunks buf max later in
      (r.outcome ≡ too_long) ⊎ (length r.buf ≤ max)
unfolding take_chunk
take_chunk-bounded (some parts) chunk chunks buf max later go =
    complete-bounded (strip_cr (buf ++ parts.0)) (unread parts.1 chunks) max
take_chunk-bounded none chunk chunks buf max later go =
    elim (Bool-cases (ltb max (length (buf ++ chunk)))) [
      | inl long ↦ rw (take_chunk, long) (inl refl)
      | inr short ↦ rw (take_chunk, short) (go (ground (arith, short)))
    ]

-- The size limit holds while a line comes in: from a buffer of at most `max` bytes, a call either
-- refuses the line as too long or leaves at most `max` bytes in the buffer, however it ends.
pub read_line_bounded_lem :
    (chunks : List Bytes) (buf : Bytes) (max : ℕ)
    → length buf ≤ max
    → let r = read_line_bounded chunks buf max in (r.outcome ≡ too_long) ⊎ (length r.buf ≤ max)
unfolding read_line_bounded
read_line_bounded_lem [] buf max h = inr h
read_line_bounded_lem ([] ∷ chunks) buf max h = at_end-bounded buf ([] ∷ chunks) max h
read_line_bounded_lem ((b ∷ bytes) ∷ chunks) buf max h =
    take_chunk-bounded (split_newline (b ∷ bytes)) (b ∷ bytes) chunks buf max
      (read_line_bounded chunks (buf ++ (b ∷ bytes)) max)
      (read_line_bounded_lem chunks (buf ++ (b ∷ bytes)) max)
