-- ===== src/Lexer/Spelling.antt =====
-- The map of keywords (src/compiler/common/lexer.c) and the texts of the kinds
-- (src/compiler/common/token.c).
use cyntatic.Prelude.{◌≡◌, refl, sym, ◌∙◌, true, some, All, if◌then◌else◌, if_true}
use cyntatic.Token.{TokenKind, is_keyword}
use cyntatic.Token.Text.{to_string}
use cyntatic.Lexer.Keywords.{keyword_list, find_keyword}

-- The map that `Lexer_initKeywordsMap` fills has every keyword of `TOKEN_LIST`, with its kind.
pub find_keyword-keyword_list : All (λ e. find_keyword e.0 ≡ some e.1) keyword_list
unfolding find_keyword
find_keyword-keyword_list = (
  refl,
  (
    refl,
    (
      refl,
      (
        refl,
        (
          refl,
          (
            refl,
            (
              refl,
              (
                refl,
                (
                  refl,
                  (
                    refl,
                    (
                      refl,
                      (
                        refl,
                        (
                          refl,
                          (
                            refl,
                            (
                              refl,
                              (
                                refl,
                                (
                                  refl,
                                  (
                                    refl,
                                    (
                                      refl,
                                      (
                                        refl,
                                        (
                                          refl,
                                          (
                                            refl,
                                            (
                                              refl,
                                              (
                                                refl,
                                                (
                                                  refl,
                                                  (
                                                    refl,
                                                    (
                                                      refl,
                                                      (
                                                        refl,
                                                        (
                                                          refl,
                                                          (
                                                            refl,
                                                            (
                                                            refl,
                                                            (
                                                            refl,
                                                            (
                                                            refl,
                                                            (
                                                            refl,
                                                            (
                                                            refl,
                                                            (
                                                            refl,
                                                            (
                                                            refl,
                                                            (
                                                            refl,
                                                            (
                                                            refl,
                                                            (refl, (refl, (refl, (refl, _)))),
                                                            ),
                                                            ),
                                                            ),
                                                            ),
                                                            ),
                                                            ),
                                                            ),
                                                            ),
                                                            ),
                                                          ),
                                                        ),
                                                      ),
                                                    ),
                                                  ),
                                                ),
                                              ),
                                            ),
                                          ),
                                        ),
                                      ),
                                    ),
                                  ),
                                ),
                              ),
                            ),
                          ),
                        ),
                      ),
                    ),
                  ),
                ),
              ),
            ),
          ),
        ),
      ),
    ),
  ),
)

found : (k : TokenKind) → (if is_keyword k then find_keyword (to_string k) else some k) ≡ some k
unfolding find_keyword is_keyword to_string
found TokenKind.eof = refl
found k = refl

-- The lexer finds the text that `TokenKind_toString` prints for a kind which `TokenKind_isKeyword`
-- accepts, and it finds that kind.
pub find_keyword-to_string :
    (k : TokenKind) → is_keyword k ≡ true → find_keyword (to_string k) ≡ some k
find_keyword-to_string k h = sym (if_true _ h) ∙ found k
