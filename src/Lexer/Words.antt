-- ===== src/Lexer/Words.antt =====
-- Names and keywords: `make_ident_or_keyword` of src/lexer.c.
use vortech.Prelude.{
  ℕ, ◌≤◌, ◌≡◌, ◌≢◌, refl, sym, ap, ◌∙◌, ◌⊎◌, Bool, Bool-cases, inl, inr, true, false, not, ◌&&◌,
  leb, ◌==◌, ==_iff, List, [], ◌∷◌, ◌++◌, All, All-map, All-get_elem?, get_elem?, some, arith,
}
use vortech.Lexer.Kinds
use vortech.Lexer.Kinds.{TokenKind, kind_code, same_text, keywords, find_keyword, lookup_keyword}
use vortech.Lexer.Spelling.{token_kind_str}
use vortech.Lexer.Cursor.{Place, Cursor, peek_char, advance_place}
use vortech.Lexer.Scan.{text_val, take_while, is_word, make_ident_or_keyword}

true-false : true ≡ false → ⊥
true-false q = cc

-- `text` is the longest beginning of `cs` whose bytes pass the test, and `rest` is what follows it.
abbrev pub IsLongest : (ℕ → Bool) → List ℕ → List ℕ → List ℕ → Type 0
IsLongest test cs text rest =
    (text ++ rest ≡ cs) × All (λ c. test c ≡ true) text × (test (peek_char rest) ≡ false)

take_while-IsLongest :
    (test : ℕ → Bool) (cs : List ℕ) (p : Place)
    → test 0 ≡ false
    → (let r = take_while test cs p in IsLongest test cs r.0 r.1.0)
unfolding take_while
take_while-IsLongest test [] p z = (refl, tt, z)
take_while-IsLongest test (c ∷ cs) p z =
    let (split, pass, stop) = take_while-IsLongest test cs (advance_place c p) z in
    elim (Bool-cases (test c)) [
      | inl more ↦ rw more (ap (λ x. c ∷ x) split, (more, pass), stop)
      | inr end ↦ rw end (refl, tt, end)
    ]

-- The bytes of words: the ASCII letters, the digits and the underscore.
abbrev pub IsWordByte : ℕ → Type 0
IsWordByte c =
    ((0x30 ≤ c) × (c ≤ 0x39))
    ⊎ (((0x41 ≤ c) × (c ≤ 0x5a)) ⊎ (((0x61 ≤ c) × (c ≤ 0x7a)) ⊎ (c ≡ 0x5f)))

is_word_iff : (c : ℕ) → (is_word c ≡ true → IsWordByte c) × (is_word c ≡ false → IsWordByte c → ⊥)
is_word_iff c = ground arith

-- `text` is the longest beginning of `cs` that has bytes of words only, and `rest` follows it.
abbrev pub IsLongestWord : List ℕ → List ℕ → List ℕ → Type 0
IsLongestWord cs text rest =
    (text ++ rest ≡ cs) × All IsWordByte text × (IsWordByte (peek_char rest) → ⊥)

longest_word : (cs text rest : List ℕ) → IsLongest is_word cs text rest → IsLongestWord cs text rest
longest_word cs text rest (split, pass, stop) =
    (split, All-map _ (λ c h. (is_word_iff c).0 h) text pass, (is_word_iff (peek_char rest)).1 stop)

-- The kinds of the enumeration from TOK_FN to TOK_VOID, but for TOK_PRINT, which is no keyword.
abbrev pub is_keyword : TokenKind → Bool
is_keyword k = leb 1 (kind_code k) && leb (kind_code k) 27 && not (kind_code k == 13)

same_text_iff : (a b : List ℕ) → (same_text a b ≡ true → a ≡ b) × (same_text a b ≡ false → a ≢ b)
same_text_iff [] [] = ((λ h. refl), (λ h. elim (true-false h) [ ]))
same_text_iff [] (c ∷ cs) = ((λ h. elim (true-false (sym h)) [ ]), (λ h e. cc))
same_text_iff (a ∷ as') [] = ((λ h. elim (true-false (sym h)) [ ]), (λ h e. cc))
same_text_iff (a ∷ as') (c ∷ cs) =
    let (same, differs) = same_text_iff as' cs in
    elim (Bool-cases (a == c)) [
      | inl head ↦
          rw head
            ((λ h. cons_eq a c as' cs ((==_iff a c).0 head) (same h)), (λ h e. differs h (tails e)))
      | inr head ↦
          rw head ((λ h. elim (true-false (sym h)) [ ]), (λ h e. heads_differ head (heads e)))
    ]
  where
    cons_eq : (a c : ℕ) (as' cs : List ℕ) → a ≡ c → as' ≡ cs → a ∷ as' ≡ c ∷ cs
    cons_eq a c as' cs e f = cc

    tails : {a c : ℕ} {as' cs : List ℕ} → a ∷ as' ≡ c ∷ cs → as' ≡ cs
    tails e = cc

    heads : {a c : ℕ} {as' cs : List ℕ} → a ∷ as' ≡ c ∷ cs → a ≡ c
    heads e = cc

    heads_differ : {a c : ℕ} → (a == c) ≡ false → a ≡ c → ⊥
    heads_differ h e = ground arith

-- An entry of the table has the spelling of its kind.
abbrev Spelled : List ℕ × TokenKind → Type 0
Spelled e = (is_keyword e.1 ≡ true) × (token_kind_str e.1 ≡ e.0)

keywords-Spelled : All Spelled keywords
unfolding token_kind_str
keywords-Spelled = (
  (refl, refl),
  (
    (refl, refl),
    (
      (refl, refl),
      (
        (refl, refl),
        (
          (refl, refl),
          (
            (refl, refl),
            (
              (refl, refl),
              (
                (refl, refl),
                (
                  (refl, refl),
                  (
                    (refl, refl),
                    (
                      (refl, refl),
                      (
                        (refl, refl),
                        (
                          (refl, refl),
                          (
                            (refl, refl),
                            (
                              (refl, refl),
                              (
                                (refl, refl),
                                (
                                  (refl, refl),
                                  (
                                    (refl, refl),
                                    (
                                      (refl, refl),
                                      (
                                        (refl, refl),
                                        (
                                          (refl, refl),
                                          (
                                            (refl, refl),
                                            (
                                              (refl, refl),
                                              ((refl, refl), ((refl, refl), ((refl, refl), tt))),
                                            ),
                                          ),
                                        ),
                                      ),
                                    ),
                                  ),
                                ),
                              ),
                            ),
                          ),
                        ),
                      ),
                    ),
                  ),
                ),
              ),
            ),
          ),
        ),
      ),
    ),
  ),
)

-- Every keyword is in the table.
listed :
    (k : TokenKind)
    → is_keyword k ≡ true
    → (i : ℕ) × (get_elem? keywords i ≡ some (token_kind_str k, k))
unfolding token_kind_str
listed Kinds.fn h = (0, refl)
listed Kinds.let_ h = (1, refl)
listed Kinds.struct h = (2, refl)
listed Kinds.if_ h = (3, refl)
listed Kinds.else_ h = (4, refl)
listed Kinds.while h = (5, refl)
listed Kinds.for h = (6, refl)
listed Kinds.return h = (7, refl)
listed Kinds.arena h = (8, refl)
listed Kinds.alloc h = (9, refl)
listed Kinds.true_ h = (10, refl)
listed Kinds.false_ h = (11, refl)
listed Kinds.as_ h = (12, refl)
listed Kinds.sizeof h = (13, refl)
listed Kinds.i8 h = (14, refl)
listed Kinds.i16 h = (15, refl)
listed Kinds.i32 h = (16, refl)
listed Kinds.i64 h = (17, refl)
listed Kinds.u8 h = (18, refl)
listed Kinds.u16 h = (19, refl)
listed Kinds.u32 h = (20, refl)
listed Kinds.u64 h = (21, refl)
listed Kinds.f32 h = (22, refl)
listed Kinds.f64 h = (23, refl)
listed Kinds.bool h = (24, refl)
listed Kinds.void h = (25, refl)
listed _ h = cc

-- The kind that the word `text` has.
abbrev pub HasKind : List ℕ → TokenKind → Type 0
HasKind text kind =
    ((is_keyword kind ≡ true) × (token_kind_str kind ≡ text))
    ⊎ ((kind ≡ Kinds.ident) × ((k : TokenKind) → is_keyword k ≡ true → token_kind_str k ≢ text))

find_keyword_cases :
    (text : List ℕ) (ws : List (List ℕ × TokenKind))
    → All Spelled ws
    → ((is_keyword (find_keyword text ws) ≡ true) × (token_kind_str (find_keyword text ws) ≡ text))
      ⊎ ((find_keyword text ws ≡ Kinds.ident) × All (λ (e : List ℕ × TokenKind). e.0 ≢ text) ws)
unfolding find_keyword
find_keyword_cases text [] h = inr (refl, tt)
find_keyword_cases text ((word, kind) ∷ rest) h = elim (Bool-cases (same_text word text)) [
  | inl found ↦ rw found (inl (h.0.0, h.0.1 ∙ (same_text_iff word text).0 found))
  | inr other ↦ elim (find_keyword_cases text rest h.1) [
    | inl e ↦ rw other (inl e)
    | inr (e, ne) ↦ rw other (inr (e, ((same_text_iff word text).1 other, ne)))
  ]
]

lookup_keyword-HasKind : (text : List ℕ) → HasKind text (lookup_keyword text)
unfolding lookup_keyword
lookup_keyword-HasKind text = elim (find_keyword_cases text keywords keywords-Spelled) [
  | inl found ↦ inl found
  | inr (e, ne) ↦ inr (
    e,
    λ k h.
        let (i, at) = listed k h in
        All-get_elem? (λ (x : List ℕ × TokenKind). x.0 ≢ text) keywords i ne at,
  )
]

-- What a word of the text makes.
pub record IsWordToken (s : Cursor) : Type 0 where
  pub text : List ℕ
  pub longest : IsLongestWord s.0 text (make_ident_or_keyword s).after.0
  pub kind : HasKind text (make_ident_or_keyword s).token.kind
  pub named :
      (make_ident_or_keyword s).token.kind ≡ Kinds.ident
      → (make_ident_or_keyword s).token.payload ≡ text_val text
  pub at : (make_ident_or_keyword s).token.loc ≡ s.1
  pub silent : (make_ident_or_keyword s).diags ≡ []

-- `make_ident_or_keyword` takes the longest word: the bytes up to the first one that is no ASCII
-- letter, digit or underscore; the token begins where the word does, and nothing is reported. If
-- the word is what `token_kind_str` writes for one of the kinds from TOK_FN to TOK_VOID other than
-- TOK_PRINT, the token has that kind; if it is not, it is an identifier with the word as its name.
pub make_ident_or_keyword-IsWordToken : (s : Cursor) → IsWordToken s
unfolding make_ident_or_keyword
make_ident_or_keyword-IsWordToken s =
    let text = (take_while is_word s.0 s.1).0 in
    record {
      text = text;
      longest = longest_word s.0 text _ (take_while-IsLongest is_word s.0 s.1 refl);
      kind = lookup_keyword-HasKind text;
      named = λ e. rw e refl;
      at = refl;
      silent = refl;
    }
