-- ===== src/Lexer/Operators.antt =====
-- The operators and punctuation: the switch of `lexer_peek` of src/lexer.c.
use vortech.Prelude.{Option, none, some, ℕ, Bool, true, false, ◌==◌, if◌then◌else◌}
use vortech.Lexer.Kinds
use vortech.Lexer.Kinds.{TokenKind}

-- A kind, and whether the second character belongs to it.
abbrev choose : ℕ → ℕ → TokenKind → TokenKind → TokenKind × Bool
choose d expected long short = if d == expected then (long, true) else (short, false)

abbrev single : TokenKind → TokenKind × Bool
single k = (k, false)

-- The switch over the first character `c`, with the second one.
unfoldable pub operator : ℕ → ℕ → Option (TokenKind × Bool)
operator c d =
    if c == 0x2b
    then some (choose d 0x3d Kinds.pluseq Kinds.plus)
    else (if c == 0x2d
        then some
            (if d == 0x3e then (Kinds.arrow, true) else choose d 0x3d Kinds.minuseq Kinds.minus)
        else (if c == 0x2a
            then some (choose d 0x3d Kinds.stareq Kinds.star)
            else (if c == 0x2f
                then some (choose d 0x3d Kinds.slasheq Kinds.slash)
                else (if c == 0x25
                    then some (single Kinds.percent)
                    else (if c == 0x26
                        then some (choose d 0x26 Kinds.ampamp Kinds.amp)
                        else (if c == 0x7c
                            then some (choose d 0x7c Kinds.pipepipe Kinds.pipe)
                            else (if c == 0x5e
                                then some (single Kinds.caret)
                                else (if c == 0x7e
                                    then some (single Kinds.tilde)
                                    else (if c == 0x21
                                        then some (choose d 0x3d Kinds.neq Kinds.bang)
                                        else (if c == 0x3d
                                            then some (choose d 0x3d Kinds.eqeq Kinds.eq)
                                            else (if c == 0x3c
                                                then some (
                                                    if d == 0x3c
                                                    then (Kinds.lshift, true)
                                                    else choose d 0x3d Kinds.leq Kinds.lt)
                                                else (if c == 0x3e
                                                    then some (
                                                        if d == 0x3e
                                                        then (Kinds.rshift, true)
                                                        else choose d 0x3d Kinds.geq Kinds.gt)
                                                    else (if c == 0x28
                                                        then some (single Kinds.lparen)
                                                        else (if c == 0x29
                                                            then some (single Kinds.rparen)
                                                            else (if c == 0x7b
                                                            then some (single Kinds.lbrace)
                                                            else (if c == 0x7d
                                                            then some (single Kinds.rbrace)
                                                            else (if c == 0x5b
                                                            then some (single Kinds.lbracket)
                                                            else (if c == 0x5d
                                                            then some (single Kinds.rbracket)
                                                            else (if c == 0x2c
                                                            then some (single Kinds.comma)
                                                            else (if c == 0x3b
                                                            then some (single Kinds.semi)
                                                            else (if c == 0x3a
                                                            then some (single Kinds.colon)
                                                            else (if c == 0x2e
                                                            then some (single Kinds.dot)
                                                            else (none)))))))))))))))))))))))
