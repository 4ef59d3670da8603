-- ===== src/Session/Reader/Chunks.antt =====
-- The line that is read does not depend on how the input arrives.
use solo_pool_rs.Prelude.{
  ℕ, ◌≤◌, ◌≡◌, ◌≢◌, ◌∙◌, ap, refl, sym, subst, Option, none, some, List, [], ◌∷◌, ◌++◌,
  append_assoc, length, ltb-false, ◌==◌, arith, Bool-cases, Option-cases, inl, inr, length-append,
}
use solo_pool_rs.Prelude.Bytes.{Bytes}
use solo_pool_rs.Prelude.All.{All}
use solo_pool_rs.Validator.{concat}
use solo_pool_rs.Session.Reader.{
  line, Reading, split_newline, strip_cr, unread, complete, take_chunk, read_line_bounded,
}

length-strip_cr-le : (s : Bytes) → length (strip_cr s) ≤ length s
unfolding strip_cr
length-strip_cr-le [] = omega arith
length-strip_cr-le (b ∷ []) = ground arith
length-strip_cr-le (b ∷ c ∷ s) = omega (arith, length-strip_cr-le (c ∷ s))

concat-unread : (q : Bytes) (chunks : List Bytes) → concat (unread q chunks) ≡ q ++ concat chunks
unfolding concat unread
concat-unread [] chunks = refl
concat-unread (b ∷ q) chunks = refl

prefixed : Bytes → Option (Bytes × Bytes) → Option (Bytes × Bytes)
prefixed xs none = none
prefixed xs (some parts) = some (xs ++ parts.0, parts.1)

-- Where the newline of `xs ++ ys` stands, by where that of `xs` does.
joined : Option (Bytes × Bytes) → Bytes → Bytes → Option (Bytes × Bytes)
joined none xs ys = prefixed xs (split_newline ys)
joined (some parts) xs ys = some (parts.0, parts.1 ++ ys)

split_newline-append : (xs ys : Bytes) → split_newline (xs ++ ys) ≡ joined (split_newline xs) xs ys
unfolding split_newline joined prefixed
split_newline-append [] ys = elim (Option-cases (split_newline ys)) [
  | inl e ↦ rw e refl
  | inr (p, e) ↦ rw e refl
]
split_newline-append (x ∷ xs) ys = elim (Bool-cases (x == b'\n')) [
  | inl here ↦ rw here refl
  | inr later ↦
      rw (later, split_newline-append xs ys)
        (elim (Option-cases (split_newline xs)) [
          | inl e ↦ rw e (elim (Option-cases (split_newline ys)) [
            | inl f ↦ rw f refl
            | inr (q, f) ↦ rw f refl
          ])
          | inr (p, e) ↦ rw e refl
        ])
]

complete_fits :
    (s : Bytes) (rest : List Bytes) (max : ℕ)
    → length s ≤ max
    → complete (strip_cr s) rest max
      ≡ record { outcome = line (strip_cr s); buf = strip_cr s; rest = rest }
unfolding complete
complete_fits s rest max h = ground (arith, length-strip_cr-le s)

-- The reading of a line, with the input after it left.
abbrev Reads : Bytes → Bytes → Reading → Type 0
Reads text after r = (r.outcome ≡ line text) × (r.buf ≡ text) × (concat r.rest ≡ after)

take_chunk-Reads :
    (parts : Option (Bytes × Bytes)) (c : Bytes) (chunks : List Bytes) (buf before after : Bytes)
    (max : ℕ) (later : Reading)
    → joined parts c (concat chunks) ≡ some (before, after)
    → length (buf ++ before) ≤ max
    → ((p : Bytes)
        → before ≡ c ++ p
        → split_newline (concat chunks) ≡ some (p, after)
        → Reads (strip_cr (buf ++ before)) after later)
    → Reads (strip_cr (buf ++ before)) after (take_chunk parts c chunks buf max later)
unfolding take_chunk joined prefixed
take_chunk-Reads (some parts) c chunks buf before after max later found fits go =
    let same : ◌≡◌ {A = Bytes × Bytes} (parts.0, parts.1 ++ concat chunks) (before, after) =
      ground (arith, found) in
    let e : before ≡ parts.0 = sym (ap (λ x. x.0) same) in
    let fitting : length (buf ++ parts.0) ≤ max = subst (λ x. length (buf ++ x) ≤ max) e fits in
    rw (take_chunk, complete_fits (buf ++ parts.0) (unread parts.1 chunks) max fitting, e)
      (refl, refl, concat-unread parts.1 chunks ∙ ap (λ x. x.1) same)
take_chunk-Reads none c chunks buf before after max later found fits go =
    elim (Option-cases (split_newline (concat chunks))) [
      | inl absent ↦ absurd (ground (arith, absent, found))
      | inr (q, present) ↦
          (let same : ◌≡◌ {A = Bytes × Bytes} (c ++ q.0, q.1) (before, after) =
              ground (arith, found, present) in
            let e : before ≡ c ++ q.0 = sym (ap (λ x. x.0) same) in
            let short : length (buf ++ c) ≤ max = omega (
              arith,
              fits,
              ap (λ x. length (buf ++ x)) e,
              length-append buf (c ++ q.0),
              length-append c q.0,
              length-append buf c,
            ) in
            rw (take_chunk, ltb-false max (length (buf ++ c)) short)
              (go q.0 e (present ∙ ap (λ x. some (q.0, x)) (ap (λ x. x.1) same))))
    ]

-- A line that fits, its carriage return counted, is read whole, without its newline and one carriage
-- return before it, and all that follows it is left for the next call, however the input is cut
-- into buffers.
pub read_line_of_chunks :
    (chunks : List Bytes) (buf before after : Bytes) (max : ℕ)
    → All (λ c. c ≢ []) chunks
    → split_newline (concat chunks) ≡ some (before, after)
    → length (buf ++ before) ≤ max
    → Reads (strip_cr (buf ++ before)) after (read_line_bounded chunks buf max)
unfolding read_line_bounded concat split_newline
read_line_of_chunks [] buf before after max full found fits = absurd (ground (arith, found))
read_line_of_chunks ([] ∷ chunks) buf before after max full found fits = absurd (full.0 refl)
read_line_of_chunks ((b ∷ bytes) ∷ chunks) buf before after max full found fits =
    let c : Bytes = b ∷ bytes in
    take_chunk-Reads (split_newline c) c chunks buf before after max
      (read_line_bounded chunks (buf ++ c) max)
      (sym (split_newline-append c (concat chunks)) ∙ found) fits
      (λ p e present.
        let same : (buf ++ c) ++ p ≡ buf ++ before = append_assoc buf c p ∙ ap (◌++◌ buf) (sym e) in
        subst (λ x. Reads (strip_cr x) after (read_line_bounded chunks (buf ++ c) max)) same
          (read_line_of_chunks chunks (buf ++ c) p after max full.1 present
            (subst (λ x. length x ≤ max) (sym same) fits)))
