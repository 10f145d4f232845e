-- ===== src/Lexer/Moves.antt =====
-- How the lexer of src/lexer.c moves over the text and keeps its position.
use vortech.Prelude.{
  ℕ, zero, suc, ◌≡◌, ◌≢◌, refl, sym, ◌∙◌, ap, inl, inr, Bool, true, false, not, ◌&&◌, ◌||◌, List,
  [], ◌∷◌, arith, ◌==◌, Bool-cases, if_both, length, Option, none, some,
}
use vortech.Lexer.Cursor.{
  Place, Cursor, advance_place, advance_char, newline, skip_line_comment, skip_block_comment,
  skip_loop, skip_whitespace_and_comments, is_space, peek_char, peek_second, slash, star,
}
use vortech.Lexer.Kinds.{TokenKind}
use vortech.Lexer.Operators.{operator}
use vortech.Lexer.Scan.{
  take_while, make_ident_or_keyword, is_digit, is_word, is_alpha, underscore, is_letter, base_of,
  skip_prefix, Part, fraction, is_sign, sign, exponent, make_number, string_body, make_string,
  operator_at, scan_here, scan, Scanned,
}

-- `Moves cs p ds q`: some bytes of `cs`, none of them 0, have been taken; `ds` is what is left,
-- and `q` is where it begins, if `cs` begins at `p`.
pub data Moves : List ℕ → Place → List ℕ → Place → Type 0 where
  stay : {cs : List ℕ} {p : Place} → Moves cs p cs p
  take :
      {c : ℕ} {cs ds : List ℕ} {p q : Place}
      → c ≢ 0
      → Moves cs (advance_place c p) ds q
      → Moves (c ∷ cs) p ds q

-- A cursor that is reached from another one.
abbrev pub Reaches : Cursor → Cursor → Type 0
Reaches s t = Moves s.0 s.1 t.0 t.1

pub trans :
    {cs ds es : List ℕ} {p q r : Place} → Moves cs p ds q → Moves ds q es r → Moves cs p es r
trans stay n = n
trans (take z m) n = take z (trans m n)

pub advance_char-Reaches : (s : Cursor) → Reaches s (advance_char s)
unfolding advance_char
advance_char-Reaches ([], p) = stay
advance_char-Reaches (c ∷ cs, p) = elim (Bool-cases (c == 0)) [
  | inl end ↦ rw end stay
  | inr more ↦ rw more (take (ground arith) stay)
]

advance_twice-Reaches : (s : Cursor) → Reaches s (advance_char (advance_char s))
advance_twice-Reaches s = trans (advance_char-Reaches s) (advance_char-Reaches (advance_char s))

pub skip_line_comment-Moves : (cs : List ℕ) (p : Place) → Reaches (cs, p) (skip_line_comment cs p)
unfolding skip_line_comment
skip_line_comment-Moves [] p = stay
skip_line_comment-Moves (c ∷ cs) p = elim (Bool-cases (c == newline || c == 0)) [
  | inl end ↦ rw end stay
  | inr more ↦ rw more (take (ground arith) (skip_line_comment-Moves cs (advance_place c p)))
]

pub skip_block_comment-Moves :
    (depth : ℕ) (cs : List ℕ) (p : Place) → Reaches (cs, p) (skip_block_comment depth cs p)
unfolding skip_block_comment
skip_block_comment-Moves zero cs p = stay
skip_block_comment-Moves (suc depth) [] p = stay
skip_block_comment-Moves (suc depth) (c ∷ []) p = elim (Bool-cases (c == 0)) [
  | inl end ↦ rw end stay
  | inr more ↦ rw more (take (ground arith) stay)
]
skip_block_comment-Moves (suc depth) (c ∷ d ∷ cs) p =
    let on = skip_block_comment-Moves (suc depth) (d ∷ cs) (advance_place c p) in
    let q = advance_place d (advance_place c p) in
    let deeper = skip_block_comment-Moves (suc (suc depth)) cs q in
    let out = skip_block_comment-Moves depth cs q in
    elim (Bool-cases (c == 0)) [
      | inl end ↦ rw end stay
      | inr more ↦ elim (Bool-cases (c == slash && d == star)) [
        | inl opens ↦ rw (more, opens) (take (ground arith) (take (ground arith) deeper))
        | inr stays ↦ elim (Bool-cases (c == star && d == slash)) [
          | inl closes ↦ rw (more, stays, closes) (take (ground arith) (take (ground arith) out))
          | inr plain ↦ rw (more, stays, plain) (take (ground arith) on)
        ]
      ]
    ]

skip_loop-Reaches : (n : ℕ) (s : Cursor) → Reaches s (skip_loop n s)
unfolding skip_loop
skip_loop-Reaches zero s = stay
skip_loop-Reaches (suc n) s =
    let inside = advance_char (advance_char s) in
    let line = skip_line_comment s.0 s.1 in
    let block = skip_block_comment 1 inside.0 inside.1 in
    let P : Cursor → Type 0 = λ t. Reaches s t in
    if_both P (is_space (peek_char s.0)) _ _
      (trans (advance_char-Reaches s) (skip_loop-Reaches n (advance_char s)))
      (if_both P (peek_char s.0 == slash && peek_second s.0 == slash) _ _
        (trans (skip_line_comment-Moves s.0 s.1) (skip_loop-Reaches n line))
        (if_both P (peek_char s.0 == slash && peek_second s.0 == star) _ _
          (trans (advance_twice-Reaches s)
            (trans (skip_block_comment-Moves 1 inside.0 inside.1) (skip_loop-Reaches n block)))
          stay))

pub true_ne_false : true ≢ false
true_ne_false e = cc

pub take_while-Moves :
    (test : ℕ → Bool) (cs : List ℕ) (p : Place)
    → test 0 ≡ false
    → Reaches (cs, p) (take_while test cs p).1
unfolding take_while
take_while-Moves test [] p z = stay
take_while-Moves test (c ∷ cs) p z = elim (Bool-cases (test c)) [
  | inl more ↦
      let ne : c ≢ 0 = λ e. true_ne_false (sym more ∙ ap test e ∙ z) in
      rw more (take ne (take_while-Moves test cs (advance_place c p) z))
  | inr end ↦ rw end stay
]

pub skip_whitespace_and_comments-Reaches : (s : Cursor) → Reaches s (skip_whitespace_and_comments s)
unfolding skip_whitespace_and_comments
skip_whitespace_and_comments-Reaches s = skip_loop-Reaches (suc (length s.0)) s

pub make_ident_or_keyword-Reaches : (s : Cursor) → Reaches s (make_ident_or_keyword s).after
unfolding make_ident_or_keyword
make_ident_or_keyword-Reaches s = take_while-Moves is_word s.0 s.1 refl

pub skip_prefix-Reaches : (s : Cursor) → Reaches s (skip_prefix s)
unfolding skip_prefix
skip_prefix-Reaches s =
    if_both (λ t. Reaches s t) (base_of s.0 == 10) _ _ stay (advance_twice-Reaches s)

pub digits-Reaches : (s : Cursor) → Reaches s (take_while is_digit s.0 s.1).1
digits-Reaches s = take_while-Moves is_digit s.0 s.1 refl

pub fraction-Reaches : (part : Part) → Reaches part.2 (fraction part).2
unfolding fraction
fraction-Reaches (buf, is_float, s) =
    let dot = advance_char s in
    let P : Part → Type 0 = λ t. Reaches s t.2 in
    if_both P (peek_char s.0 == 0x2e && not (peek_second s.0 == 0x2e)) _ _
      (trans (advance_char-Reaches s) (digits-Reaches dot)) stay

pub sign-Reaches : (s : Cursor) → Reaches s (sign s)
unfolding sign
sign-Reaches s =
    if_both (λ t. Reaches s t) (is_sign (peek_char s.0)) _ _ (advance_char-Reaches s) stay

pub exponent-Reaches : (part : Part) → Reaches part.2 (exponent part).2
unfolding exponent
exponent-Reaches (buf, is_float, s) =
    let e = advance_char s in
    let P : Part → Type 0 = λ t. Reaches s t.2 in
    if_both P (is_letter 0x45 (peek_char s.0)) _ _
      (trans (advance_char-Reaches s) (trans (sign-Reaches e) (digits-Reaches (sign e)))) stay

pub make_number-Reaches : (s : Cursor) → Reaches s (make_number s).after
unfolding make_number
make_number-Reaches s =
    let start = skip_prefix s in
    let whole = take_while is_digit start.0 start.1 in
    let part : Part = (whole.0, false, whole.1) in
    trans (skip_prefix-Reaches s) (
      trans (digits-Reaches start)
        (trans (fraction-Reaches part) (exponent-Reaches (fraction part))))

pub string_body-Moves : (cs : List ℕ) (p : Place) → Reaches (cs, p) (string_body cs p).1
unfolding string_body
string_body-Moves [] p = stay
string_body-Moves (c ∷ []) p = elim (Bool-cases (c == 0x22 || c == 0)) [
  | inl end ↦ rw end stay
  | inr more ↦ elim (Bool-cases (c == 0x5c)) [
    | inl esc ↦ rw (more, esc) (take (ground arith) stay)
    | inr plain ↦ rw (more, plain) (take (ground arith) stay)
  ]
]
string_body-Moves (c ∷ d ∷ cs) p =
    let escaped = string_body-Moves cs (advance_place d (advance_place c p)) in
    let on = string_body-Moves (d ∷ cs) (advance_place c p) in
    elim (Bool-cases (c == 0x22 || c == 0)) [
      | inl end ↦ rw end stay
      | inr more ↦ elim (Bool-cases (c == 0x5c)) [
        | inl esc ↦ elim (Bool-cases (d == 0)) [
          | inl last ↦ rw (more, esc, last) (take (ground arith) stay)
          | inr goes ↦ rw (more, esc, goes) (take (ground arith) (take (ground arith) escaped))
        ]
        | inr plain ↦ rw (more, plain) (take (ground arith) on)
      ]
    ]

pub make_string-Reaches : (s : Cursor) → Reaches s (make_string s).after
unfolding make_string
make_string-Reaches s =
    let open_quote = advance_char s in
    let body = string_body open_quote.0 open_quote.1 in
    trans (advance_char-Reaches s) (
      trans (string_body-Moves open_quote.0 open_quote.1) (
        if_both (λ t. Reaches body.1 t) (peek_char body.1.0 == 0x22) _ _
          (advance_char-Reaches body.1) stay))

pub operator_at-Reaches :
    (c : ℕ) (s : Cursor) (found : Option (TokenKind × Bool))
    → Reaches s (operator_at c s found).after
unfolding operator_at
operator_at-Reaches c s none = advance_char-Reaches s
operator_at-Reaches c s (some (kind, long)) =
    if_both (λ t. Reaches s t) long _ _ (advance_twice-Reaches s) (advance_char-Reaches s)

scan_here-Reaches : (s : Cursor) → Reaches s (scan_here s).after
unfolding scan_here
scan_here-Reaches s =
    let c = peek_char s.0 in
    let P : Scanned → Type 0 = λ t. Reaches s t.after in
    if_both P (c == 0) _ _ stay (
      if_both P (is_alpha c || c == underscore) _ _ (make_ident_or_keyword-Reaches s) (
        if_both P (is_digit c) _ _ (make_number-Reaches s) (
          if_both P (c == 0x22) _ _ (make_string-Reaches s)
            (operator_at-Reaches c s (operator c (peek_second s.0))))))

-- `lexer_peek` reads a token by taking bytes one after another, none of them the byte 0, and
-- `advance_char` keeps the position of every one of them.
pub scan-Reaches : (s : Cursor) → Reaches s (scan s).after
unfolding scan
scan-Reaches s =
    trans (skip_whitespace_and_comments-Reaches s)
      (scan_here-Reaches (skip_whitespace_and_comments s))
