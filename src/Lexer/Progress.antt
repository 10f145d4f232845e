-- ===== src/Lexer/Progress.antt =====
-- How far the lexer of src/lexer.c goes: white space and comments, and the length of a token.
use vortech.Prelude.{
  ℕ, zero, suc, ◌≤◌, ◌<◌, ◌≡◌, ◌≢◌, refl, sym, ◌∙◌, Bool, true, false, ◌&&◌, ◌||◌, List, [], ◌∷◌,
  arith, ◌==◌, if_both, if_cases, length, Option, none, some,
}
use vortech.Lexer.Cursor.{
  Place, Cursor, advance_place, advance_char, newline, skip_line_comment, skip_block_comment,
  skip_loop, skip_whitespace_and_comments, is_space, peek_char, peek_second, slash, star,
}
use vortech.Lexer.Kinds
use vortech.Lexer.Kinds.{TokenKind}
use vortech.Lexer.Operators.{operator}
use vortech.Lexer.Scan.{
  Part, take_while, make_ident_or_keyword, is_digit, is_word, is_alpha, underscore, base_of,
  skip_prefix, fraction, string_body, make_number, make_string, operator_at, scan_here, scan,
  Scanned,
}
use vortech.Lexer.Moves.{
  Moves, stay, take, trans, true_ne_false, advance_char-Reaches, skip_line_comment-Moves,
  skip_block_comment-Moves, take_while-Moves, digits-Reaches, fraction-Reaches, exponent-Reaches,
  string_body-Moves, skip_whitespace_and_comments-Reaches,
}

length-Moves : {cs ds : List ℕ} {p q : Place} → Moves cs p ds q → length ds ≤ length cs
length-Moves stay = omega arith
length-Moves (take z m) = let le = length-Moves m in omega arith

-- White space or a comment begins here.
abbrev pub is_blank : List ℕ → Bool
is_blank cs =
    is_space (peek_char cs)
    || (peek_char cs == slash && peek_second cs == slash)
    || (peek_char cs == slash && peek_second cs == star)

length-advance_char : (s : Cursor) → peek_char s.0 ≢ 0 → length (advance_char s).0 < length s.0
unfolding advance_char
length-advance_char ([], p) z = elim (z refl) [ ]
length-advance_char (c ∷ cs, p) z =
    if_cases (λ (t : Cursor). length t.0 < suc (length cs)) (c == 0) _ _ (λ end. ground arith)
      (λ more. omega arith)

length-skip_line_comment :
    (cs : List ℕ) (p : Place) → peek_char cs ≡ slash → length (skip_line_comment cs p).0 < length cs
unfolding skip_line_comment
length-skip_line_comment [] p at = ground arith
length-skip_line_comment (c ∷ cs) p at =
    let le = length-Moves (skip_line_comment-Moves cs (advance_place c p)) in
    if_cases (λ (t : Cursor). length t.0 < suc (length cs)) (c == newline || c == 0) _ _
      (λ end. ground arith) (λ more. omega arith)

length-skip_block :
    (s : Cursor)
    → peek_char s.0 ≡ slash
    → (let inside = advance_char (advance_char s) in
        length (skip_block_comment 1 inside.0 inside.1).0 < length s.0)
length-skip_block s at =
    let once = advance_char s in
    let inside = advance_char once in
    let first = length-advance_char s (λ z. ground arith) in
    let second = length-Moves (advance_char-Reaches once) in
    let third = length-Moves (skip_block_comment-Moves 1 inside.0 inside.1) in omega arith

skip_loop-settled : (n : ℕ) (s : Cursor) → length s.0 < n → is_blank (skip_loop n s).0 ≡ false
unfolding skip_loop
skip_loop-settled zero s enough = ground arith
skip_loop-settled (suc n) s enough =
    let inside = advance_char (advance_char s) in
    let line = skip_line_comment s.0 s.1 in
    let block = skip_block_comment 1 inside.0 inside.1 in
    let P : Cursor → Type 0 = λ t. is_blank t.0 ≡ false in
    if_cases P (is_space (peek_char s.0)) _ _
      (λ space.
        let less = length-advance_char s (λ z. ground arith) in
        skip_loop-settled n (advance_char s) (omega arith))
      (λ no_space.
        if_cases P (peek_char s.0 == slash && peek_second s.0 == slash) _ _
          (λ opens.
            let less = length-skip_line_comment s.0 s.1 (ground arith) in
            skip_loop-settled n line (omega arith))
          (λ no_line.
            if_cases P (peek_char s.0 == slash && peek_second s.0 == star) _ _
              (λ opens.
                let less = length-skip_block s (ground arith) in
                skip_loop-settled n block (omega arith))
              (λ no_block. rw (no_space, no_line, no_block) refl)))

-- Skipping white space and comments ends where neither white space nor a comment begins.
pub skip_whitespace_and_comments-settled :
    (s : Cursor) → is_blank (skip_whitespace_and_comments s).0 ≡ false
unfolding skip_whitespace_and_comments
skip_whitespace_and_comments-settled s = skip_loop-settled (suc (length s.0)) s (omega arith)

length-take_while :
    (test : ℕ → Bool) (s : Cursor)
    → test 0 ≡ false
    → test (peek_char s.0) ≡ true
    → length (take_while test s.0 s.1).1.0 < length s.0
unfolding take_while
length-take_while test ([], p) z now = elim (true_ne_false (sym now ∙ z)) [ ]
length-take_while test (c ∷ cs, p) z now =
    let le = length-Moves (take_while-Moves test cs (advance_place c p) z) in rw now (omega arith)

length-make_number :
    (s : Cursor) → is_digit (peek_char s.0) ≡ true → length (make_number s).after.0 < length s.0
unfolding make_number skip_prefix
length-make_number s now =
    let start = skip_prefix s in
    let whole = take_while is_digit start.0 start.1 in
    let part : Part = (whole.0, false, whole.1) in
    let later = length-Moves (trans (fraction-Reaches part) (exponent-Reaches (fraction part))) in
    let P : Cursor → Type 0 = λ t. length (take_while is_digit t.0 t.1).1.0 < length s.0 in
    let taken : P start =
      if_cases P (base_of s.0 == 10) _ _ (λ plain. length-take_while is_digit s refl now)
        (λ prefix.
          let once = advance_char s in
          let first = length-advance_char s (λ z. ground arith) in
          let second =
            length-Moves (trans (advance_char-Reaches once) (digits-Reaches (advance_char once))) in
          omega arith) in
    omega arith

length-make_string : (s : Cursor) → peek_char s.0 ≢ 0 → length (make_string s).after.0 < length s.0
unfolding make_string
length-make_string s z =
    let open_quote = advance_char s in
    let body = string_body open_quote.0 open_quote.1 in
    let first = length-advance_char s z in
    let second = length-Moves (string_body-Moves open_quote.0 open_quote.1) in
    let third = length-Moves (advance_char-Reaches body.1) in
    if_both (λ (t : Cursor). length t.0 < length s.0) (peek_char body.1.0 == 0x22) _ _ (omega arith)
      (omega arith)

length-operator_at :
    (c : ℕ) (s : Cursor) (found : Option (TokenKind × Bool))
    → peek_char s.0 ≢ 0
    → length (operator_at c s found).after.0 < length s.0
unfolding operator_at
length-operator_at c s none z = length-advance_char s z
length-operator_at c s (some (kind, long)) z =
    let first = length-advance_char s z in
    let second = length-Moves (advance_char-Reaches (advance_char s)) in
    if_both (λ (t : Cursor). length t.0 < length s.0) long _ _ (omega arith) (omega arith)

scan_here-forward :
    (s : Cursor) → (scan_here s).token.kind ≢ Kinds.eof → length (scan_here s).after.0 < length s.0
unfolding scan_here make_ident_or_keyword
scan_here-forward s =
    let c = peek_char s.0 in
    let P : Scanned → Type 0 = λ t. t.token.kind ≢ Kinds.eof → length t.after.0 < length s.0 in
    if_cases P (c == 0) _ _ (λ end h. elim (h refl) [ ])
      (λ more.
        if_cases P (is_alpha c || c == underscore) _ _
          (λ word h. length-take_while is_word s refl (ground arith))
          (λ no_word.
            if_cases P (is_digit c) _ _ (λ digit h. length-make_number s digit)
              (λ no_digit.
                if_both P (c == 0x22) _ _ (λ h. length-make_string s (λ z. ground arith))
                  (λ h.
                    length-operator_at c s (operator c (peek_second s.0)) (λ z. ground arith)))))

-- Every token but the end-of-file token takes at least one byte of the text.
pub scan-forward :
    (s : Cursor) → (scan s).token.kind ≢ Kinds.eof → length (scan s).after.0 < length s.0
unfolding scan
scan-forward s h =
    let t = skip_whitespace_and_comments s in
    let le = length-Moves (skip_whitespace_and_comments-Reaches s) in
    let lt = scan_here-forward t h in omega arith
