-- ===== src/Lexer/Stream.antt =====
-- The lexer with its token of look-ahead: `lexer_init`, `lexer_peek`, `lexer_next`,
-- `lexer_expect` and `lexer_match` of src/lexer.c.
use vortech.Prelude.{ℕ, Bool, true, false, List, [], ◌∷◌, ◌++◌, ◌==◌, if◌then◌else◌}
use vortech.Lexer.Kinds
use vortech.Lexer.Kinds.{TokenKind, kind_code}
use vortech.Lexer.Cursor.{Place, Cursor}
use vortech.Lexer.Scan.{Token, nothing, Diag, scan}

-- What is reported: a diagnostic of the scanner, or a token that is not the expected one.
pub data Report : Type 0 where
  scanned : Diag → Report
  expected : (want got : TokenKind) → Report

pub record Lexer : Type 0 where
  pub cursor : Cursor
  pub current : Token
  pub has_peeked : Bool
  pub reports : List Report

abbrev start_place : Place
start_place = record { pos = 0; line = 1; col = 1 }

unfoldable pub lexer_init : List ℕ → Lexer
lexer_init source = record {
  cursor = (source, start_place);
  current = record {
    kind = Kinds.eof;
    loc = record { pos = 0; line = 0; col = 0 };
    payload = nothing;
  };
  has_peeked = false;
  reports = [];
}

wrap : List Diag → List Report
wrap [] = []
wrap (d ∷ ds) = scanned d ∷ wrap ds

unfoldable pub lexer_peek : Lexer → Token × Lexer
unfolding wrap
lexer_peek l =
    if l.has_peeked
    then (l.current, l)
    else (let r = scan l.cursor in
        (
          r.token,
          record {
            cursor = r.after;
            current = r.token;
            has_peeked = true;
            reports = l.reports ++ wrap r.diags;
          },
        ))

unfoldable pub lexer_next : Lexer → Token × Lexer
unfolding lexer_peek
lexer_next l = if l.has_peeked then (l.current, record l { has_peeked = false }) else lexer_peek l

unfoldable pub lexer_expect : TokenKind → Lexer → Token × Lexer
unfolding lexer_peek lexer_next
lexer_expect kind l =
    let (tok, l1) = lexer_peek l in
    if kind_code tok.kind == kind_code kind
    then (tok, (lexer_next l1).1)
    else (let told = record l1 { reports = l1.reports ++ expected kind tok.kind ∷ [] } in
        (tok, (lexer_next told).1))

unfoldable pub lexer_match : TokenKind → Lexer → Bool × Lexer
unfolding lexer_peek lexer_next
lexer_match kind l =
    let (tok, l1) = lexer_peek l in
    if kind_code tok.kind == kind_code kind then (true, (lexer_next l1).1) else (false, l1)
