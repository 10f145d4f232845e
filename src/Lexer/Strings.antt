-- ===== src/Lexer/Strings.antt =====
-- String literals: `make_string` of src/lexer.c against the writing of a string.
use vortech.Prelude.{
  ℕ, ◌≡◌, refl, ap, subst, ◌∙◌, inl, inr, Bool-cases, false, ◌||◌, List, [], ◌∷◌, ◌++◌, arith, ◌==◌,
  if◌then◌else◌, All,
}
use vortech.Lexer.Cursor.{Place, Cursor, advance_place, advance_char, peek_char}
use vortech.Lexer.Scan.{
  text_val, Diag, unterminated_string, unescape, string_body, c_string, make_string,
}

abbrev quote_mark : ℕ
quote_mark = 0x22

abbrev backslash : ℕ
backslash = 0x5c

abbrev letter_n : ℕ
letter_n = 0x6e

abbrev letter_r : ℕ
letter_r = 0x72

abbrev letter_t : ℕ
letter_t = 0x74

abbrev digit_0 : ℕ
digit_0 = 0x30

-- The characters that are written with a backslash, each with what follows the backslash: the quote
-- and the backslash themselves, a line feed, a tab, a carriage return and the byte 0.
abbrev escape_char : ℕ → List ℕ → List ℕ
escape_char c behind =
    if c == quote_mark
    then backslash ∷ quote_mark ∷ behind
    else if c == backslash
    then backslash ∷ backslash ∷ behind
    else if c == 10
    then backslash ∷ letter_n ∷ behind
    else if c == 9
    then backslash ∷ letter_t ∷ behind
    else if c == 13
    then backslash ∷ letter_r ∷ behind
    else if c == 0
    then backslash ∷ digit_0 ∷ behind
    else c ∷ behind

-- A string as it is written, with what stands behind it.
abbrev pub escape : List ℕ → List ℕ → List ℕ
escape [] behind = behind
escape (c ∷ cs) behind = escape_char c (escape cs behind)

-- What is read: the characters, the text behind them and what is reported.
abbrev read : List ℕ × Cursor × List Diag → List ℕ × List ℕ × List Diag
read (text, s, ds) = (text, s.0, ds)

string_body-plain :
    (c : ℕ) (cs : List ℕ) (p : Place)
    → (c == quote_mark || c == 0) ≡ false
    → (c == backslash) ≡ false
    → (let on = string_body cs (advance_place c p) in
        string_body (c ∷ cs) p ≡ (c ∷ on.0, on.1, on.2))
unfolding string_body
string_body-plain c [] p goes plain = rw (goes, plain) refl
string_body-plain c (d ∷ cs) p goes plain = rw (goes, plain) refl

abbrev Read : Type 0
Read = List ℕ × List ℕ × List Diag

abbrev with_char : ℕ → Read → Read
with_char c (text, behind, ds) = (c ∷ text, behind, ds)

string_body-escape_char :
    (c : ℕ) (behind : List ℕ) (r : Read) (p : Place)
    → ((q : Place) → read (string_body behind q) ≡ r)
    → read (string_body (escape_char c behind) p) ≡ with_char c r
unfolding string_body unescape
string_body-escape_char c behind r p on =
    let P : ℕ → Type 0 = λ x. read (string_body (escape_char x behind) p) ≡ with_char x r in
    elim (Bool-cases (c == quote_mark)) [
      | inl quoted ↦ subst P (ground arith) (ap (with_char quote_mark) (on _))
      | inr no_quote ↦ elim (Bool-cases (c == backslash)) [
        | inl slashed ↦ subst P (ground arith) (ap (with_char backslash) (on _))
        | inr no_slash ↦ elim (Bool-cases (c == 10)) [
          | inl feed ↦ subst P (ground arith) (ap (with_char 10) (on _))
          | inr no_feed ↦ elim (Bool-cases (c == 9)) [
            | inl tab ↦ subst P (ground arith) (ap (with_char 9) (on _))
            | inr no_tab ↦ elim (Bool-cases (c == 13)) [
              | inl home ↦ subst P (ground arith) (ap (with_char 13) (on _))
              | inr no_home ↦ elim (Bool-cases (c == 0)) [
                | inl end ↦ subst P (ground arith) (ap (with_char 0) (on _))
                | inr more ↦
                    rw (no_quote, no_slash, no_feed, no_tab, no_home, more)
                      (ap read (string_body-plain c behind p (rw (no_quote, more) refl) no_slash)
                        ∙ ap (with_char c) (on _))
              ]
            ]
          ]
        ]
      ]
    ]

string_body-escape :
    (xs rest : List ℕ) (p : Place)
    → read (string_body (escape xs (quote_mark ∷ rest)) p) ≡ (xs, quote_mark ∷ rest, [])
unfolding string_body
string_body-escape [] [] p = refl
string_body-escape [] (d ∷ rest) p = refl
string_body-escape (c ∷ cs) rest p =
    string_body-escape_char c (escape cs (quote_mark ∷ rest)) (cs, quote_mark ∷ rest, []) p
      (string_body-escape cs rest)

-- The bytes of a text are not 0.
abbrev pub NoZero : List ℕ → Type 0
NoZero = All (λ (c : ℕ). (c == 0) ≡ false)

c_string-append : (xs ys : List ℕ) → NoZero xs → peek_char ys ≡ 0 → c_string (xs ++ ys) ≡ xs
unfolding c_string
c_string-append [] [] h end = refl
c_string-append [] (y ∷ ys) h end = rw end refl
c_string-append (x ∷ xs) ys h end = rw h.0 (ap (λ l. x ∷ l) (c_string-append xs ys h.1 end))

-- The end of `make_string`, at a closing quote.
closed :
    (xs ys rest : List ℕ) (body : List ℕ × Cursor × List Diag)
    → NoZero xs
    → peek_char ys ≡ 0
    → read body ≡ (xs ++ ys, quote_mark ∷ rest, [])
    → (let end = peek_char body.1.0 == quote_mark in
        (text_val (c_string body.0) ≡ text_val xs)
        × ((if end then advance_char body.1 else body.1).0 ≡ rest)
        × ((if end then body.2 else body.2 ++ unterminated_string ∷ []) ≡ []))
unfolding advance_char
closed xs ys rest (text, (cs, q), ds) h end e =
    rw (ap (λ r. r.0) e, ap (λ r. r.1) e, ap (λ r. r.2) e)
      (ap text_val (c_string-append xs ys h end), refl, refl)

-- A string that is written as a literal, with escapes for the quote, the backslash, the line feed,
-- the tab, the carriage return and the byte 0, is read back: `make_string` reports nothing and
-- stops behind the closing quote, and its token's text is `xs`, if the string that is written is
-- `xs`, without a byte 0, or if it goes on with a byte 0 and any others.
pub make_string-escape :
    (xs ys rest : List ℕ) (p : Place)
    → NoZero xs
    → peek_char ys ≡ 0
    → (let r = make_string (quote_mark ∷ escape (xs ++ ys) (quote_mark ∷ rest), p) in
        (r.token.payload ≡ text_val xs) × (r.after.0 ≡ rest) × (r.diags ≡ []))
unfolding make_string advance_char
make_string-escape xs ys rest p h end =
    closed xs ys rest _ h end (string_body-escape (xs ++ ys) rest (advance_place quote_mark p))
