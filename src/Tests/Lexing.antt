-- ===== src/Tests/Lexing.antt =====
-- The lexer on concrete texts.
use vortech.Prelude.{
  ℕ, ◌<◌, ◌≡◌, ◌≢◌, refl, false, List, [], ◌∷◌, ◌++◌, ◌==◌, if◌then◌else◌, length,
}
use vortech.Prelude.Int.{pos}
use vortech.Lexer.Kinds
use vortech.Lexer.Kinds.{TokenKind, kind_code, codes, lookup_keyword}
use vortech.Lexer.Cursor.{
  Place, advance_char, skip_whitespace_and_comments, skip_loop, skip_line_comment,
  skip_block_comment,
}
use vortech.Lexer.Scan.{
  nothing, int_val, text_val, scan, scan_here, make_number, make_string, make_ident_or_keyword,
  take_while, base_of, skip_prefix, fraction, exponent, strtoll,
}
use vortech.Lexer.Stream.{Lexer, lexer_init, lexer_peek, lexer_next, lexer_expect, lexer_match}
use vortech.Lexer.Moves.{Reaches, scan-Reaches}
use vortech.Lexer.Progress.{is_blank, skip_whitespace_and_comments-settled, scan-forward}
use vortech.Lexer.Words.{IsWordToken, make_ident_or_keyword-IsWordToken}
use vortech.Lexer.Strings.{escape, make_string-escape}
use vortech.Lexer.Lookahead.{
  pending, rest, complaint, lexer_next-pending, lexer_expect-pending, lexer_match-pending,
}

abbrev start : Place
start = record { pos = 0; line = 1; col = 1 }

-- A comment inside a comment, a line comment, and a keyword.
abbrev text : List ℕ
text = codes "/* a /* b */ c */ // d" ++ 10 ∷ codes " fn f"

text_scanned :
    (scan (text, start)).token
    ≡ record { kind = Kinds.fn; loc = record { pos = 24; line = 2; col = 2 }; payload = nothing }
unfolding scan skip_whitespace_and_comments skip_loop skip_line_comment skip_block_comment
    advance_char scan_here make_ident_or_keyword take_while lookup_keyword
text_scanned = refl

-- `0xFF` is the number 0 and then a name.
hex_scanned : (make_number (codes "0xFF", start)).token.payload ≡ int_val (pos 0)
unfolding make_number skip_prefix advance_char take_while base_of fraction exponent strtoll
hex_scanned = refl

scan-Reaches_example : Reaches (text, start) (scan (text, start)).after
scan-Reaches_example = scan-Reaches (text, start)

skip_whitespace_and_comments-settled_example :
    is_blank (skip_whitespace_and_comments (text, start)).0 ≡ false
skip_whitespace_and_comments-settled_example = skip_whitespace_and_comments-settled (text, start)

text_kind : (scan (text, start)).token.kind ≢ Kinds.eof
unfolding scan skip_whitespace_and_comments skip_loop skip_line_comment skip_block_comment
    advance_char scan_here make_ident_or_keyword take_while lookup_keyword
text_kind e = cc

scan-forward_example : length (scan (text, start)).after.0 < length text
scan-forward_example = scan-forward (text, start) text_kind

-- A quote, a line feed, a tab and a carriage return, and what stands behind a byte 0.
make_string-escape_example :
    (let r =
        make_string
          (0x22 ∷ escape ((0x22 ∷ 10 ∷ 9 ∷ 13 ∷ []) ++ 0 ∷ 65 ∷ []) (0x22 ∷ codes ";"), start) in
      (r.token.payload ≡ text_val (0x22 ∷ 10 ∷ 9 ∷ 13 ∷ []))
      × (r.after.0 ≡ codes ";")
      × (r.diags ≡ []))
make_string-escape_example =
    make_string-escape (0x22 ∷ 10 ∷ 9 ∷ 13 ∷ []) (0 ∷ 65 ∷ []) (codes ";") start
      (refl, (refl, (refl, (refl, tt)))) refl

abbrev sample : Lexer
sample = lexer_init text

lexer_next-pending_example :
    ((lexer_next sample).0 ≡ (pending sample).0) × (pending (lexer_next sample).1 ≡ pending sample)
unfolding lexer_init
lexer_next-pending_example = lexer_next-pending sample

lexer_expect-pending_example :
    ((lexer_expect Kinds.semi sample).0 ≡ (pending sample).0)
    × (pending (lexer_expect Kinds.semi sample).1 ≡ rest (pending sample))
    × ((lexer_expect Kinds.semi sample).1.reports
        ≡ (lexer_peek sample).1.reports ++ complaint Kinds.semi (pending sample).0)
lexer_expect-pending_example = lexer_expect-pending Kinds.semi sample

lexer_match-pending_example :
    (let same = kind_code (pending sample).0.kind == kind_code Kinds.fn in
      ((lexer_match Kinds.fn sample).0 ≡ same)
      × (pending (lexer_match Kinds.fn sample).1
          ≡ (if same then rest (pending sample) else pending sample)))
lexer_match-pending_example = lexer_match-pending Kinds.fn sample

make_ident_or_keyword-IsWordToken_example : IsWordToken (codes "sizeof(x)", start)
make_ident_or_keyword-IsWordToken_example =
    make_ident_or_keyword-IsWordToken (codes "sizeof(x)", start)
