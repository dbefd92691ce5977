-- ===== src/Probes/Greeting/Ends.antt =====
-- crates/huginn-probes/src/lib.rs: when `read_greeting_line` returns a greeting, over what the peer
-- sends.
use huginn_io.Prelude.{
  ◌≤◌, ◌≡◌, ◌↔◌, ◌⊎◌, inl, inr, refl, sym, ap, ◌∙◌, true, false, List, [], ◌∷◌, ◌++◌, arith,
  append-nil, append_assoc, length, length-append, take, Bytes, Bool-cases,
}
use huginn_io.Probes.Greeting.Stream.{stream}
use huginn_io.Probes.Greeting.{
  Read, bytes, broken, line, has_newline, complete, read_greeting, read_greeting_line,
  max_greeting_bytes,
}

-- The peer closes before a read fails.
abbrev pub Closes : List Read → Type 0
Closes [] = ⊥
Closes (broken e ∷ reads) = ⊥
Closes (bytes [] ∷ reads) = Unit
Closes (bytes (b ∷ chunk) ∷ reads) = Closes reads

abbrev pub HasLineFeed : Bytes → Type 0
HasLineFeed [] = ⊥
HasLineFeed (b ∷ bs) = (b ≡ b'\n') ⊎ HasLineFeed bs

has_newline_iff : (s : Bytes) → (has_newline s ≡ true) ↔ HasLineFeed s
unfolding has_newline
has_newline_iff [] = ground arith
has_newline_iff (b ∷ s) = ground (arith, has_newline_iff s)

complete_iff : (s : Bytes) → (complete s ≡ true) ↔ (HasLineFeed s ⊎ (max_greeting_bytes ≤ length s))
unfolding complete
complete_iff s = ground (arith, has_newline_iff s)

-- Before a read fails the peer sends a line feed or 512 bytes, or closes.
abbrev pub Ends : List Read → Type 0
Ends reads =
    HasLineFeed (stream reads) ⊎ (max_greeting_bytes ≤ length (stream reads)) ⊎ Closes reads

has_newline-append : (s t : Bytes) → has_newline s ≡ true → has_newline (s ++ t) ≡ true
unfolding has_newline
has_newline-append [] t h = cc
has_newline-append (b ∷ s) t h = ground (arith, has_newline-append s t)

complete-append : (s t : Bytes) → complete s ≡ true → complete (s ++ t) ≡ true
unfolding complete
complete-append s t h = ground (arith, has_newline-append s t, length-append s t)

Returns : Bytes → List Read → Type 0
Returns collected reads = (l : Bytes) × (read_greeting collected reads ≡ line l)

-- The loop goes on with what it has so far, or it has enough.
Returns-iff :
    (collected : Bytes) (reads : List Read)
    → complete collected ≡ false
    → Returns collected reads ↔ ((complete (collected ++ stream reads) ≡ true) ⊎ Closes reads)
unfolding Returns read_greeting
Returns-iff collected [] h = (
  λ r. absurd (ground (arith, r.1)),
  λ e. elim e [
    | inl full ↦ absurd (ground (arith, h, ap complete (append-nil collected), full))
    | inr closes ↦ absurd closes
  ],
)
Returns-iff collected (broken x ∷ reads) h = (
  λ r. absurd (ground (arith, r.1)),
  λ e. elim e [
    | inl full ↦ absurd (ground (arith, h, ap complete (append-nil collected), full))
    | inr closes ↦ absurd closes
  ],
)
Returns-iff collected (bytes [] ∷ reads) h =
    (λ r. inr tt, λ e. (take max_greeting_bytes collected, refl))
Returns-iff collected (bytes (b ∷ chunk) ∷ reads) h =
    let so_far = collected ++ (b ∷ chunk) in
    let same : so_far ++ stream reads ≡ collected ++ (b ∷ (chunk ++ stream reads)) =
      append_assoc collected (b ∷ chunk) (stream reads) in
    elim (Bool-cases (complete so_far)) [
      | inl full ↦ (
        λ r. inl (ap complete (sym same) ∙ complete-append so_far (stream reads) full),
        λ e. (take max_greeting_bytes so_far, rw full refl),
      )
      | inr more ↦
          let ih = Returns-iff so_far reads more in
          (
            λ r. elim (ih.0 (r.0, rw more at r.1)) [
              | inl x ↦ inl (ap complete (sym same) ∙ x)
              | inr x ↦ inr x
            ],
            λ e.
                let s = ih.1 (elim e [ inl x ↦ inl (ap complete same ∙ x) | inr x ↦ inr x ]) in
                (s.0, rw more s.1),
          )
    ]

-- read_greeting_line returns a greeting exactly if, before a read fails, the peer sends a line feed
-- or 512 bytes or closes the connection, however the bytes are cut into reads.
pub read_greeting_line_iff :
    (reads : List Read) → ((l : Bytes) × (read_greeting_line reads ≡ line l)) ↔ Ends reads
unfolding complete has_newline Returns
read_greeting_line_iff reads =
    let r = Returns-iff [] reads refl in
    let c = complete_iff (stream reads) in
    (
      λ g. elim (r.0 g) [
        | inl x ↦ elim (c.0 x) [ inl f ↦ inl f | inr n ↦ inr (inl n) ]
        | inr x ↦ inr (inr x)
      ],
      λ e. r.1 (elim e [
        | inl f ↦ inl (c.1 (inl f))
        | inr x ↦ elim x [ inl n ↦ inl (c.1 (inr n)) | inr y ↦ inr y ]
      ]),
    )
