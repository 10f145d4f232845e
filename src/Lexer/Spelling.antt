-- ===== src/Lexer/Spelling.antt =====
-- `token_kind_str` of src/lexer.c, for the kinds of words.
use vortech.Prelude.{ℕ, List}
use vortech.Lexer.Kinds
use vortech.Lexer.Kinds.{TokenKind, codes}

unfoldable pub token_kind_str : TokenKind → List ℕ
token_kind_str Kinds.eof = codes "EOF"
token_kind_str Kinds.fn = codes "fn"
token_kind_str Kinds.let_ = codes "let"
token_kind_str Kinds.struct = codes "struct"
token_kind_str Kinds.if_ = codes "if"
token_kind_str Kinds.else_ = codes "else"
token_kind_str Kinds.while = codes "while"
token_kind_str Kinds.for = codes "for"
token_kind_str Kinds.return = codes "return"
token_kind_str Kinds.arena = codes "arena"
token_kind_str Kinds.alloc = codes "alloc"
token_kind_str Kinds.true_ = codes "true"
token_kind_str Kinds.false_ = codes "false"
token_kind_str Kinds.print = codes "print"
token_kind_str Kinds.as_ = codes "as"
token_kind_str Kinds.sizeof = codes "sizeof"
token_kind_str Kinds.i8 = codes "i8"
token_kind_str Kinds.i16 = codes "i16"
token_kind_str Kinds.i32 = codes "i32"
token_kind_str Kinds.i64 = codes "i64"
token_kind_str Kinds.u8 = codes "u8"
token_kind_str Kinds.u16 = codes "u16"
token_kind_str Kinds.u32 = codes "u32"
token_kind_str Kinds.u64 = codes "u64"
token_kind_str Kinds.f32 = codes "f32"
token_kind_str Kinds.f64 = codes "f64"
token_kind_str Kinds.bool = codes "bool"
token_kind_str Kinds.void = codes "void"
token_kind_str Kinds.plus = codes "+"
token_kind_str Kinds.minus = codes "-"
token_kind_str Kinds.star = codes "*"
token_kind_str Kinds.slash = codes "/"
token_kind_str Kinds.percent = codes "%"
token_kind_str Kinds.amp = codes "&"
token_kind_str Kinds.pipe = codes "|"
token_kind_str Kinds.caret = codes "^"
token_kind_str Kinds.lshift = codes "<<"
token_kind_str Kinds.rshift = codes ">>"
token_kind_str Kinds.eqeq = codes "=="
token_kind_str Kinds.neq = codes "!="
token_kind_str Kinds.lt = codes "<"
token_kind_str Kinds.gt = codes ">"
token_kind_str Kinds.leq = codes "<="
token_kind_str Kinds.geq = codes ">="
token_kind_str Kinds.ampamp = codes "&&"
token_kind_str Kinds.pipepipe = codes "||"
token_kind_str Kinds.bang = codes "!"
token_kind_str Kinds.tilde = codes "~"
token_kind_str Kinds.eq = codes "="
token_kind_str Kinds.pluseq = codes "+="
token_kind_str Kinds.minuseq = codes "-="
token_kind_str Kinds.stareq = codes "*="
token_kind_str Kinds.slasheq = codes "/="
token_kind_str Kinds.lparen = codes "("
token_kind_str Kinds.rparen = codes ")"
token_kind_str Kinds.lbrace = codes "{"
token_kind_str Kinds.rbrace = codes "}"
token_kind_str Kinds.lbracket = codes "["
token_kind_str Kinds.rbracket = codes "]"
token_kind_str Kinds.comma = codes ","
token_kind_str Kinds.semi = codes ";"
token_kind_str Kinds.colon = codes ":"
token_kind_str Kinds.arrow = codes "->"
token_kind_str Kinds.dot = codes "."
token_kind_str Kinds.int_lit = codes "integer literal"
token_kind_str Kinds.float_lit = codes "float literal"
token_kind_str Kinds.string_lit = codes "string literal"
token_kind_str Kinds.ident = codes "identifier"
