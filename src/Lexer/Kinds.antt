-- ===== src/Lexer/Kinds.antt =====
-- Token kinds and the keyword table: src/common.h and `keywords` of src/lexer.c.
use Prim.Native.Char.{code}
use vortech.Prelude.{ℕ, String, Bool, true, false, ◌&&◌, List, [], ◌∷◌, ◌==◌, if◌then◌else◌}

pub data TokenKind : Type 0 where
  eof : TokenKind
  fn let_ struct if_ else_ while for return arena alloc true_ false_ print as_ sizeof : TokenKind
  i8 i16 i32 i64 u8 u16 u32 u64 f32 f64 bool void : TokenKind
  plus minus star slash percent amp pipe caret lshift rshift : TokenKind
  eqeq neq lt gt leq geq ampamp pipepipe bang tilde : TokenKind
  eq pluseq minuseq stareq slasheq : TokenKind
  lparen rparen lbrace rbrace lbracket rbracket comma semi colon arrow dot : TokenKind
  int_lit float_lit string_lit ident : TokenKind

abbrev pub codes : String → List ℕ
codes String.[] = []
codes (String.◌∷◌ c s) = code c ∷ codes s

-- `strlen(a) == len && strncmp(a, b, len) == 0`
abbrev pub same_text : List ℕ → List ℕ → Bool
same_text [] [] = true
same_text [] (c ∷ cs) = false
same_text (a ∷ as') [] = false
same_text (a ∷ as') (c ∷ cs) = a == c && same_text as' cs

abbrev pub keywords : List (List ℕ × TokenKind)
keywords =
    (codes "fn", fn)
    ∷ (codes "let", let_)
    ∷ (codes "struct", struct)
    ∷ (codes "if", if_)
    ∷ (codes "else", else_)
    ∷ (codes "while", while)
    ∷ (codes "for", for)
    ∷ (codes "return", return)
    ∷ (codes "arena", arena)
    ∷ (codes "alloc", alloc)
    ∷ (codes "true", true_)
    ∷ (codes "false", false_)
    ∷ (codes "as", as_)
    ∷ (codes "sizeof", sizeof)
    ∷ (codes "i8", i8)
    ∷ (codes "i16", i16)
    ∷ (codes "i32", i32)
    ∷ (codes "i64", i64)
    ∷ (codes "u8", u8)
    ∷ (codes "u16", u16)
    ∷ (codes "u32", u32)
    ∷ (codes "u64", u64)
    ∷ (codes "f32", f32)
    ∷ (codes "f64", f64)
    ∷ (codes "bool", bool)
    ∷ (codes "void", void)
    ∷ []

unfoldable pub find_keyword : List ℕ → List (List ℕ × TokenKind) → TokenKind
find_keyword text [] = ident
find_keyword text ((word, kind) ∷ rest) =
    if same_text word text then kind else find_keyword text rest

unfoldable pub lookup_keyword : List ℕ → TokenKind
unfolding find_keyword
lookup_keyword text = find_keyword text keywords

-- The values of the enumeration, by which the source compares kinds.
abbrev pub kind_code : TokenKind → ℕ
kind_code eof = 0
kind_code fn = 1
kind_code let_ = 2
kind_code struct = 3
kind_code if_ = 4
kind_code else_ = 5
kind_code while = 6
kind_code for = 7
kind_code return = 8
kind_code arena = 9
kind_code alloc = 10
kind_code true_ = 11
kind_code false_ = 12
kind_code print = 13
kind_code as_ = 14
kind_code sizeof = 15
kind_code i8 = 16
kind_code i16 = 17
kind_code i32 = 18
kind_code i64 = 19
kind_code u8 = 20
kind_code u16 = 21
kind_code u32 = 22
kind_code u64 = 23
kind_code f32 = 24
kind_code f64 = 25
kind_code bool = 26
kind_code void = 27
kind_code plus = 28
kind_code minus = 29
kind_code star = 30
kind_code slash = 31
kind_code percent = 32
kind_code amp = 33
kind_code pipe = 34
kind_code caret = 35
kind_code lshift = 36
kind_code rshift = 37
kind_code eqeq = 38
kind_code neq = 39
kind_code lt = 40
kind_code gt = 41
kind_code leq = 42
kind_code geq = 43
kind_code ampamp = 44
kind_code pipepipe = 45
kind_code bang = 46
kind_code tilde = 47
kind_code eq = 48
kind_code pluseq = 49
kind_code minuseq = 50
kind_code stareq = 51
kind_code slasheq = 52
kind_code lparen = 53
kind_code rparen = 54
kind_code lbrace = 55
kind_code rbrace = 56
kind_code lbracket = 57
kind_code rbracket = 58
kind_code comma = 59
kind_code semi = 60
kind_code colon = 61
kind_code arrow = 62
kind_code dot = 63
kind_code int_lit = 64
kind_code float_lit = 65
kind_code string_lit = 66
kind_code ident = 67
