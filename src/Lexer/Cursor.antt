-- ===== src/Lexer/Cursor.antt =====
-- Moving over the text: `peek_char`, `advance_char` and `skip_whitespace_and_comments` of
-- src/lexer.c.
use vortech.Prelude.{
  ℕ, zero, suc, ◌+◌, ◌%◌, ◌^◌, Bool, ◌&&◌, ◌||◌, List, [], ◌∷◌, ◌==◌, if◌then◌else◌, length,
}

pub record Place : Type 0 where
  pub pos : ℕ
  pub line : ℕ
  pub col : ℕ

-- What is left of the text, and where it begins.
abbrev pub Cursor : Type 0
Cursor = List ℕ × Place

abbrev pub u32 : ℕ → ℕ
u32 n = n % 2 ^ 32

abbrev pub newline : ℕ
newline = 10

abbrev pub peek_char : List ℕ → ℕ
peek_char [] = 0
peek_char (c ∷ cs) = c

-- `peek_char_at(lex, 1)`
abbrev pub peek_second : List ℕ → ℕ
peek_second [] = 0
peek_second (c ∷ cs) = peek_char cs

-- The position behind the byte `c`.
abbrev pub advance_place : ℕ → Place → Place
advance_place c p =
    if c == newline
    then record { pos = p.pos + 1; line = u32 (p.line + 1); col = 1 }
    else record { pos = p.pos + 1; line = p.line; col = u32 (p.col + 1) }

-- At the byte 0, the end, nothing moves.
unfoldable pub advance_char : Cursor → Cursor
advance_char ([], p) = ([], p)
advance_char (c ∷ cs, p) = if c == 0 then (c ∷ cs, p) else (cs, advance_place c p)

abbrev pub is_space : ℕ → Bool
is_space c = c == b' ' || c == 9 || c == 13 || c == newline

abbrev pub slash : ℕ
slash = 0x2f

abbrev pub star : ℕ
star = 0x2a

unfoldable pub skip_line_comment : List ℕ → Place → Cursor
skip_line_comment [] p = ([], p)
skip_line_comment (c ∷ cs) p =
    let on = skip_line_comment cs (advance_place c p) in
    if c == newline || c == 0 then (c ∷ cs, p) else on

-- The inside of a block comment, with the depth of the nesting.
unfoldable pub skip_block_comment : ℕ → List ℕ → Place → Cursor
skip_block_comment zero cs p = (cs, p)
skip_block_comment (suc depth) [] p = ([], p)
skip_block_comment (suc depth) (c ∷ []) p = if c == 0 then (c ∷ [], p) else ([], advance_place c p)
skip_block_comment (suc depth) (c ∷ d ∷ cs) p =
    let on = skip_block_comment (suc depth) (d ∷ cs) (advance_place c p) in
    let deeper = skip_block_comment (suc (suc depth)) cs (advance_place d (advance_place c p)) in
    let out = skip_block_comment depth cs (advance_place d (advance_place c p)) in
    if c == 0
    then (c ∷ d ∷ cs, p)
    else (if c == slash && d == star then deeper else (if c == star && d == slash then out else on))

-- `for (;;)`, with fuel: a round that goes on takes at least one byte.
unfoldable pub skip_loop : ℕ → Cursor → Cursor
unfolding advance_char skip_line_comment skip_block_comment
skip_loop zero s = s
skip_loop (suc n) s =
    let over_space = skip_loop n (advance_char s) in
    let over_line = skip_loop n (skip_line_comment s.0 s.1) in
    let inside = advance_char (advance_char s) in
    let over_block = skip_loop n (skip_block_comment 1 inside.0 inside.1) in
    if is_space (peek_char s.0)
    then over_space
    else (if peek_char s.0 == slash && peek_second s.0 == slash
        then over_line
        else (if peek_char s.0 == slash && peek_second s.0 == star then over_block else s))

unfoldable pub skip_whitespace_and_comments : Cursor → Cursor
unfolding skip_loop
skip_whitespace_and_comments s = skip_loop (suc (length s.0)) s
