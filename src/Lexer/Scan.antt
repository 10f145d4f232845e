-- ===== src/Lexer/Scan.antt =====
-- Recognising one token: `make_ident_or_keyword`, `make_number`, `make_string` and the body of
-- `lexer_peek` of src/lexer.c. A floating-point literal keeps the text that `strtod` is given.
-- What is reported is a list of diagnostics beside the token.
use vortech.Prelude.{
  Option, none, some, ℕ, ◌+◌, ◌-◌, ◌*◌, Bool, true, false, not, ◌&&◌, ◌||◌, List, [], ◌∷◌, ◌++◌,
  ltb, leb, ◌==◌, if◌then◌else◌,
}
use vortech.Prelude.Int.{ℤ, pos}
use vortech.Lexer.Kinds
use vortech.Lexer.Kinds.{TokenKind, lookup_keyword}
use vortech.Lexer.Operators.{operator}
use vortech.Lexer.Cursor.{
  Place, Cursor, peek_char, peek_second, advance_place, advance_char, skip_whitespace_and_comments,
}

pub data Payload : Type 0 where
  nothing : Payload
  int_val : ℤ → Payload
  float_text : List ℕ → Payload
  text_val : List ℕ → Payload

pub record Token : Type 0 where
  pub kind : TokenKind
  pub loc : Place
  pub payload : Payload

pub data Diag : Type 0 where
  unknown_escape unexpected_character : ℕ → Diag
  unterminated_string : Diag

pub record Scanned : Type 0 where
  pub token : Token
  pub after : Cursor
  pub diags : List Diag

-- ctype.h in the C locale.
abbrev pub is_digit : ℕ → Bool
is_digit c = leb 0x30 c && leb c 0x39

abbrev pub is_alpha : ℕ → Bool
is_alpha c = (leb 0x41 c && leb c 0x5a) || (leb 0x61 c && leb c 0x7a)

abbrev pub underscore : ℕ
underscore = 0x5f

abbrev pub is_word : ℕ → Bool
is_word c = is_alpha c || is_digit c || c == underscore

-- `while (test(peek_char(lex))) advance_char(lex)`: the bytes taken and the cursor behind them. The
-- tests fail at the byte 0.
unfoldable pub take_while : (ℕ → Bool) → List ℕ → Place → List ℕ × Cursor
take_while test [] p = ([], ([], p))
take_while test (c ∷ cs) p =
    let more = take_while test cs (advance_place c p) in
    if test c then (c ∷ more.0, more.1) else ([], (c ∷ cs, p))

abbrev word_payload : TokenKind → List ℕ → Payload
word_payload Kinds.ident text = text_val text
word_payload k text = nothing

unfoldable pub make_ident_or_keyword : Cursor → Scanned
unfolding take_while lookup_keyword
make_ident_or_keyword s =
    let taken = take_while is_word s.0 s.1 in
    let kind = lookup_keyword taken.0 in
    record {
      token = record { kind = kind; loc = s.1; payload = word_payload kind taken.0 };
      after = taken.1;
      diags = [];
    }

-- `strtoll` on decimal digits: it reads the digits that are below the base, and saturates.
unfoldable pub strtoll : ℕ → ℕ → List ℕ → ℕ
strtoll base acc [] = acc
strtoll base acc (c ∷ cs) =
    let next = acc * base + (c - 0x30) in
    let on =
      strtoll base (if ltb next 0x8000_0000_0000_0000 then next else 0x7fff_ffff_ffff_ffff) cs in
    if leb 0x30 c && ltb (c - 0x30) base then on else acc

abbrev pub is_letter : ℕ → ℕ → Bool
is_letter upper c = c == upper || c == upper + 0x20

-- The base that a prefix stands for; 10 where there is none.
unfoldable pub base_of : List ℕ → ℕ
base_of cs =
    if peek_char cs == 0x30
    then (if is_letter 0x58 (peek_second cs)
        then 16
        else (if is_letter 0x42 (peek_second cs)
            then 2
            else (if is_letter 0x4f (peek_second cs) then 8 else 10)))
    else 10

unfoldable pub skip_prefix : Cursor → Cursor
unfolding advance_char base_of
skip_prefix s = if base_of s.0 == 10 then s else advance_char (advance_char s)

-- A taken prefix, whether the literal is floating-point, and the cursor.
abbrev pub Part : Type 0
Part = List ℕ × Bool × Cursor

unfoldable pub fraction : Part → Part
unfolding take_while advance_char
fraction (buf, is_float, s) =
    if peek_char s.0 == 0x2e && not (peek_second s.0 == 0x2e)
    then (let dot = advance_char s in
        let ds = take_while is_digit dot.0 dot.1 in (buf ++ 0x2e ∷ ds.0, true, ds.1))
    else (buf, is_float, s)

abbrev pub is_sign : ℕ → Bool
is_sign c = c == 0x2b || c == 0x2d

-- The sign of an exponent, if there is one.
abbrev sign_text : ℕ → List ℕ
sign_text c = if is_sign c then c ∷ [] else []

unfoldable pub sign : Cursor → Cursor
unfolding advance_char
sign s = if is_sign (peek_char s.0) then advance_char s else s

unfoldable pub exponent : Part → Part
unfolding take_while advance_char sign
exponent (buf, is_float, s) =
    if is_letter 0x45 (peek_char s.0)
    then (let e = advance_char s in
        let signed = sign e in
        let ds = take_while is_digit signed.0 signed.1 in
        (buf ++ (peek_char s.0 ∷ sign_text (peek_char e.0)) ++ ds.0, true, ds.1))
    else (buf, is_float, s)

unfoldable pub make_number : Cursor → Scanned
unfolding skip_prefix base_of take_while fraction exponent strtoll
make_number s =
    let start = skip_prefix s in
    let whole = take_while is_digit start.0 start.1 in
    let (buf, is_float, end) = exponent (fraction (whole.0, false, whole.1)) in
    record {
      token =
          if is_float
          then record { kind = Kinds.float_lit; loc = s.1; payload = float_text buf }
          else record {
            kind = Kinds.int_lit;
            loc = s.1;
            payload = int_val (pos (strtoll (base_of s.0) 0 buf));
          };
      after = end;
      diags = [];
    }

-- What an escape stands for, and what is reported.
unfoldable pub unescape : ℕ → ℕ × List Diag
unescape c =
    if c == 0x6e
    then (10, [])
    else (if c == 0x74
        then (9, [])
        else (if c == 0x72
            then (13, [])
            else (if c == 0x5c
                then (0x5c, [])
                else (if c == 0x22
                    then (0x22, [])
                    else (if c == 0x30 then (0, []) else (c, unknown_escape c ∷ []))))))

-- The characters of a string up to the closing quote, the end or a byte 0; the cursor; and what is
-- reported. A backslash before the end stands for a byte 0.
unfoldable pub string_body : List ℕ → Place → List ℕ × Cursor × List Diag
unfolding unescape
string_body [] p = ([], ([], p), [])
string_body (c ∷ []) p =
    if c == 0x22 || c == 0
    then ([], (c ∷ [], p), [])
    else (if c == 0x5c
        then ((unescape 0).0 ∷ [], ([], advance_place c p), (unescape 0).1)
        else (c ∷ [], ([], advance_place c p), []))
string_body (c ∷ d ∷ cs) p =
    let escaped = string_body cs (advance_place d (advance_place c p)) in
    let plain = string_body (d ∷ cs) (advance_place c p) in
    if c == 0x22 || c == 0
    then ([], (c ∷ d ∷ cs, p), [])
    else (if c == 0x5c
        then (if d == 0
            then ((unescape 0).0 ∷ [], (d ∷ cs, advance_place c p), (unescape 0).1)
            else ((unescape d).0 ∷ escaped.0, escaped.1, (unescape d).1 ++ escaped.2))
        else (c ∷ plain.0, plain.1, plain.2))

-- What a reader of a `char *` sees of the bytes that it points to: those in front of the first 0.
unfoldable pub c_string : List ℕ → List ℕ
c_string [] = []
c_string (c ∷ cs) = let rest = c_string cs in if c == 0 then [] else c ∷ rest

unfoldable pub make_string : Cursor → Scanned
unfolding string_body advance_char c_string
make_string s =
    let open_quote = advance_char s in
    let body = string_body open_quote.0 open_quote.1 in
    let closed = peek_char body.1.0 == 0x22 in
    record {
      token = record { kind = Kinds.string_lit; loc = s.1; payload = text_val (c_string body.0) };
      after = if closed then advance_char body.1 else body.1;
      diags = if closed then body.2 else body.2 ++ unterminated_string ∷ [];
    }

-- The operator token: the first character is taken, and the second one if it belongs to it. Any
-- other character is reported and gives an end-of-file token.
unfoldable pub operator_at : ℕ → Cursor → Option (TokenKind × Bool) → Scanned
unfolding advance_char
operator_at c s none = record {
  token = record { kind = Kinds.eof; loc = s.1; payload = nothing };
  after = advance_char s;
  diags = unexpected_character c ∷ [];
}
operator_at c s (some (kind, long)) = record {
  token = record { kind = kind; loc = s.1; payload = nothing };
  after = if long then advance_char (advance_char s) else advance_char s;
  diags = [];
}

unfoldable pub scan_here : Cursor → Scanned
unfolding make_ident_or_keyword make_number make_string operator operator_at
scan_here s =
    let c = peek_char s.0 in
    if c == 0
    then record {
      token = record { kind = Kinds.eof; loc = s.1; payload = nothing };
      after = s;
      diags = [];
    }
    else (if is_alpha c || c == underscore
        then make_ident_or_keyword s
        else (if is_digit c
            then make_number s
            else (if c == 0x22
                then make_string s
                else operator_at c s (operator c (peek_second s.0)))))

-- What `lexer_peek` does where no token is kept.
unfoldable pub scan : Cursor → Scanned
unfolding scan_here skip_whitespace_and_comments
scan s = scan_here (skip_whitespace_and_comments s)
