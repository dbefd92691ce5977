-- ===== src/Probes/Greeting/Stream.antt =====
-- crates/huginn-probes/src/lib.rs: `read_greeting_line` against the bytes that the peer sends,
-- however they are cut into reads.
use huginn_io.Prelude.{
  ℕ, zero, suc, ◌≤◌, ◌≡◌, ◌⊎◌, refl, sym, ap, subst, ◌∙◌, true, false, ◌||◌, List, [], ◌∷◌, ◌++◌,
  arith, length, take, drop, leb, ◌==◌, Bytes, All, Bool-cases, inl, inr, append-nil, append_assoc,
  length-take, take-append-drop,
}
use huginn_io.Probes.Greeting.{
  Read, bytes, broken, Progress, line, has_newline, complete, read_greeting, read_greeting_line,
  max_greeting_bytes,
}

-- The bytes that arrive before the peer closes or a read fails.
abbrev pub stream : List Read → Bytes
stream [] = []
stream (broken e ∷ reads) = []
stream (bytes [] ∷ reads) = []
stream (bytes (b ∷ chunk) ∷ reads) = b ∷ (chunk ++ stream reads)

-- `s` is `p` and then more.
pub record StartsWith (s p : Bytes) : Type 0 where
  pub rest : Bytes
  pub split : s ≡ p ++ rest

take-StartsWith : (n : ℕ) (s t : Bytes) → StartsWith (s ++ t) (take n s)
take-StartsWith n s t = record {
  rest = drop n s ++ t;
  split = ap (λ x. x ++ t) (sym (take-append-drop n s)) ∙ append_assoc (take n s) (drop n s) t;
}

-- What the loop returns: at most 512 bytes, from the start of what was sent.
pub record Bounded (sent l : Bytes) : Type 0 where
  pub size : length l ≤ max_greeting_bytes
  pub start : StartsWith sent l

take-Bounded : (s t : Bytes) → Bounded (s ++ t) (take max_greeting_bytes s)
take-Bounded s t = record {
  size = omega (arith, length-take max_greeting_bytes s);
  start = take-StartsWith max_greeting_bytes s t;
}

line_of : Bytes → Progress → Bytes
line_of d (line l) = l
line_of d _ = d

line-injective : (a b : Bytes) → line a ≡ line b → a ≡ b
unfolding line_of
line-injective a b e = ap (line_of a) e

-- The round in which the peer closes.
closed_lem :
    (collected : Bytes) (reads : List Read) (l : Bytes)
    → read_greeting collected (bytes [] ∷ reads) ≡ line l
    → take max_greeting_bytes collected ≡ l
unfolding read_greeting
closed_lem collected reads l h = line-injective _ l h

-- One round of the loop that has bytes to add.
read_greeting_cons :
    (collected : Bytes) (b : ℕ) (chunk : Bytes) (reads : List Read) (l : Bytes)
    → read_greeting collected (bytes (b ∷ chunk) ∷ reads) ≡ line l
    → let so_far = collected ++ (b ∷ chunk) in
      ((complete so_far ≡ true) × (take max_greeting_bytes so_far ≡ l))
      ⊎ ((complete so_far ≡ false) × (read_greeting so_far reads ≡ line l))
unfolding read_greeting
read_greeting_cons collected b chunk reads l h =
    elim (Bool-cases (complete (collected ++ (b ∷ chunk)))) [
      | inl full ↦ inl (full, line-injective _ l (rw full at h))
      | inr more ↦ inr (more, rw more at h)
    ]

read_greeting-Bounded :
    (collected : Bytes) (reads : List Read) (l : Bytes)
    → read_greeting collected reads ≡ line l
    → Bounded (collected ++ stream reads) l
read_greeting-Bounded collected [] l h = unfold read_greeting in cc
read_greeting-Bounded collected (broken e ∷ reads) l h = unfold read_greeting in cc
read_greeting-Bounded collected (bytes [] ∷ reads) l h =
    subst (Bounded (collected ++ [])) (closed_lem collected reads l h) (take-Bounded collected [])
read_greeting-Bounded collected (bytes (b ∷ chunk) ∷ reads) l h =
    let so_far = collected ++ (b ∷ chunk) in
    let same = append_assoc collected (b ∷ chunk) (stream reads) in
    elim (read_greeting_cons collected b chunk reads l h) [
      | inl (_, e) ↦
          subst (λ s. Bounded s l) same
            (subst (Bounded (so_far ++ stream reads)) e (take-Bounded so_far (stream reads)))
      | inr (_, e) ↦ subst (λ s. Bounded s l) same (read_greeting-Bounded so_far reads l e)
    ]

-- A greeting that was read is at most 512 bytes long and is the beginning of what the peer sent.
pub read_greeting_line-Bounded :
    (reads : List Read) (l : Bytes) → read_greeting_line reads ≡ line l → Bounded (stream reads) l
read_greeting_line-Bounded reads l h = read_greeting-Bounded [] reads l h

-- No line feed in it.
abbrev pub OneLine : Bytes → Type 0
OneLine = All (λ b. (b == b'\n') ≡ false)

StartsWith-cons : (b : ℕ) (s p : Bytes) → StartsWith s p → StartsWith (b ∷ s) (b ∷ p)
StartsWith-cons b s p w = record { rest = w.rest; split = ap (◌∷◌ b) w.split }

-- A cut of at least the beginning's length leaves the beginning.
take_start :
    (n : ℕ) (start rest : Bytes) → length start ≤ n → StartsWith (take n (start ++ rest)) start
take_start n [] rest h = record { rest = take n rest; split = refl }
take_start zero (b ∷ start) rest h = absurd (omega arith)
take_start (suc n) (b ∷ start) rest h =
    StartsWith-cons b (take n (start ++ rest)) start (take_start n start rest (omega arith))

-- Once a line feed or `n` bytes are there, so is all of a beginning of at most `n` bytes that has
-- no line feed.
enough :
    (n : ℕ) (so_far later start rest : Bytes)
    → so_far ++ later ≡ start ++ rest
    → OneLine start
    → length start ≤ n
    → (has_newline so_far || leb n (length so_far)) ≡ true
    → StartsWith (take n so_far) start
unfolding has_newline
enough n so_far later [] rest e o h full = record { rest = take n so_far; split = refl }
enough zero so_far later (c ∷ start) rest e o h full = absurd (omega arith)
enough (suc n) [] later (c ∷ start) rest e o h full = absurd (ground arith)
enough (suc n) (b ∷ so_far) later (c ∷ start) rest e o h full =
    let same : b ≡ c = ground arith in
    let tails : so_far ++ later ≡ start ++ rest = ground arith in
    subst (λ x. StartsWith (b ∷ take n so_far) (x ∷ start)) same
      (StartsWith-cons b (take n so_far) start
        (enough n so_far later start rest tails o.1 (omega arith) (ground arith)))

complete_enough :
    (so_far later start rest : Bytes)
    → so_far ++ later ≡ start ++ rest
    → OneLine start
    → length start ≤ max_greeting_bytes
    → complete so_far ≡ true
    → StartsWith (take max_greeting_bytes so_far) start
unfolding complete
complete_enough so_far later start rest e o h full =
    enough max_greeting_bytes so_far later start rest e o h full

read_greeting_whole :
    (collected : Bytes) (reads : List Read) (start rest l : Bytes)
    → collected ++ stream reads ≡ start ++ rest
    → OneLine start
    → length start ≤ max_greeting_bytes
    → read_greeting collected reads ≡ line l
    → StartsWith l start
read_greeting_whole collected [] start rest l e o h r = unfold read_greeting in cc
read_greeting_whole collected (broken x ∷ reads) start rest l e o h r = unfold read_greeting in cc
read_greeting_whole collected (bytes [] ∷ reads) start rest l e o h r =
    let all : start ++ rest ≡ collected = sym e ∙ append-nil collected in
    subst (λ s. StartsWith s start) (closed_lem collected reads l r)
      (subst (λ s. StartsWith (take max_greeting_bytes s) start) all
        (take_start max_greeting_bytes start rest h))
read_greeting_whole collected (bytes (b ∷ chunk) ∷ reads) start rest l e o h r =
    let so_far = collected ++ (b ∷ chunk) in
    let same = append_assoc collected (b ∷ chunk) (stream reads) ∙ e in
    elim (read_greeting_cons collected b chunk reads l r) [
      | inl (full, k) ↦
          subst (λ s. StartsWith s start) k
            (complete_enough so_far (stream reads) start rest same o h full)
      | inr (_, k) ↦ read_greeting_whole so_far reads start rest l same o h k
    ]

-- If the bytes of the reads begin with a text of at most 512 bytes without a line feed and a
-- greeting is read, then the greeting begins with that text, however the bytes were cut into reads.
pub read_greeting_line_whole :
    (reads : List Read) (start rest l : Bytes)
    → stream reads ≡ start ++ rest
    → OneLine start
    → length start ≤ max_greeting_bytes
    → read_greeting_line reads ≡ line l
    → StartsWith l start
read_greeting_line_whole reads start rest l e o h r =
    read_greeting_whole [] reads start rest l e o h r
