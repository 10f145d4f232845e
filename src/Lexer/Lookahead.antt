-- ===== src/Lexer/Lookahead.antt =====
-- The lexer as a stream of tokens: what `lexer_peek`, `lexer_next`, `lexer_expect` and
-- `lexer_match` of src/lexer.c return of the stream, and where they leave it.
use vortech.Prelude.{◌≡◌, refl, ap, inl, inr, Bool-cases, List, [], ◌∷◌, ◌++◌, ◌==◌, if◌then◌else◌}
use vortech.Lexer.Kinds.{TokenKind, kind_code}
use vortech.Lexer.Cursor.{Cursor}
use vortech.Lexer.Scan.{Token, scan}
use vortech.Lexer.Stream.{
  Lexer, Report, expected, lexer_peek, lexer_next, lexer_expect, lexer_match,
}

-- The token that is due, and the text behind it.
abbrev pub Stream : Type 0
Stream = Token × Cursor

abbrev pub stream_at : Cursor → Stream
stream_at s = ((scan s).token, (scan s).after)

abbrev pub pending : Lexer → Stream
pending l = if l.has_peeked then (l.current, l.cursor) else stream_at l.cursor

-- The stream behind the token that is due.
abbrev pub rest : Stream → Stream
rest t = stream_at t.1

append_nil : {A : Type 0} (xs : List A) → xs ≡ xs ++ []
append_nil [] = refl
append_nil (x ∷ xs) = ap (λ ys. x ∷ ys) (append_nil xs)

-- `lexer_peek` returns the token that is due and leaves the stream as it is.
lexer_peek-pending :
    (l : Lexer) → ((lexer_peek l).0 ≡ (pending l).0) × (pending (lexer_peek l).1 ≡ pending l)
unfolding lexer_peek
lexer_peek-pending l = elim (Bool-cases l.has_peeked) [
  | inl kept ↦ rw kept (refl, refl)
  | inr fresh ↦ rw fresh (refl, refl)
]

-- `lexer_next` returns the token that is due, but takes it from the stream only if it had been
-- peeked at; otherwise the stream stays as it is, and the next call returns the same token again.
pub lexer_next-pending :
    (l : Lexer)
    → ((lexer_next l).0 ≡ (pending l).0)
      × (pending (lexer_next l).1 ≡ (if l.has_peeked then rest (pending l) else pending l))
unfolding lexer_next lexer_peek
lexer_next-pending l = elim (Bool-cases l.has_peeked) [
  | inl kept ↦ rw kept (refl, refl)
  | inr fresh ↦ rw fresh (refl, refl)
]

-- What `lexer_expect` reports of the token that is due.
abbrev pub complaint : TokenKind → Token → List Report
complaint kind tok =
    if kind_code tok.kind == kind_code kind then [] else expected kind tok.kind ∷ []

-- `lexer_expect` returns the token that is due and takes it from the stream, whatever its kind; it
-- reports it, after what `lexer_peek` reports, exactly if its kind is not the expected one.
pub lexer_expect-pending :
    (kind : TokenKind) (l : Lexer)
    → ((lexer_expect kind l).0 ≡ (pending l).0)
      × (pending (lexer_expect kind l).1 ≡ rest (pending l))
      × ((lexer_expect kind l).1.reports ≡ (lexer_peek l).1.reports ++ complaint kind (pending l).0)
unfolding lexer_expect lexer_next lexer_peek
lexer_expect-pending kind l = elim (Bool-cases l.has_peeked) [
  | inl kept ↦ elim (Bool-cases (kind_code l.current.kind == kind_code kind)) [
    | inl same ↦ rw (kept, same) (refl, refl, append_nil _)
    | inr other ↦ rw (kept, other) (refl, refl, refl)
  ]
  | inr fresh ↦ elim (Bool-cases (kind_code (scan l.cursor).token.kind == kind_code kind)) [
    | inl same ↦ rw (fresh, same) (refl, refl, append_nil _)
    | inr other ↦ rw (fresh, other) (refl, refl, refl)
  ]
]

-- `lexer_match` says whether the token that is due has the given kind, and takes it from the stream
-- exactly then.
pub lexer_match-pending :
    (kind : TokenKind) (l : Lexer)
    → (let same = kind_code (pending l).0.kind == kind_code kind in
        ((lexer_match kind l).0 ≡ same)
        × (pending (lexer_match kind l).1 ≡ (if same then rest (pending l) else pending l)))
unfolding lexer_match lexer_next lexer_peek
lexer_match-pending kind l = elim (Bool-cases l.has_peeked) [
  | inl kept ↦ elim (Bool-cases (kind_code l.current.kind == kind_code kind)) [
    | inl same ↦ rw (kept, same) (refl, refl)
    | inr other ↦ rw (kept, other) (refl, refl)
  ]
  | inr fresh ↦ elim (Bool-cases (kind_code (scan l.cursor).token.kind == kind_code kind)) [
    | inl same ↦ rw (fresh, same) (refl, refl)
    | inr other ↦ rw (fresh, other) (refl, refl)
  ]
]
