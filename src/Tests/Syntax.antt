-- ===== src/Tests/Syntax.antt =====
-- Inputs of tools/bp2cmake/bp2cmake/{lexer,parser,evaluator,target}.py.
use dalvikvm_multiplatform.Common.{◌≡◌, refl, [], ◌∷◌, codes, text_eq, Ends, ok}
use dalvikvm_multiplatform.Lexer.{
  lbrack, rbrack, comma, number, colon, token, ident, eof, string, start, tokenize, ascii,
}
use dalvikvm_multiplatform.Lexer.Places.{place_after}
use dalvikvm_multiplatform.Lexer.Scans.{IsLexError}
use dalvikvm_multiplatform.Lexer.Total.{Tokens, tokenize-Tokens}
use dalvikvm_multiplatform.Lexer.Strings.{quote, tokenize-quote}
use dalvikvm_multiplatform.Parser.{parse}
use dalvikvm_multiplatform.Parser.Total.{IsSyntaxError, parse-Ends}

tokenize-Tokens_example :
    Ends IsLexError
      (Tokens (codes "a: [\"x\\n\"] // c"))
      (tokenize ascii (codes "a: [\"x\\n\"] // c"))
tokenize-Tokens_example = tokenize-Tokens ascii (codes "a: [\"x\\n\"] // c")

tokenize-quote_example :
    tokenize ascii (quote (codes "a\"b\n"))
    ≡ ok (
        token string (codes "a\"b\n") start
        ∷ token eof [] (place_after (quote (codes "a\"b\n")) start)
        ∷ [])
tokenize-quote_example = tokenize-quote ascii (codes "a\"b\n")

parse-Ends_example :
    Ends IsSyntaxError (λ _. Unit {0}) (parse ascii (codes "v = [1, select(os(), {default: 2})]"))
parse-Ends_example = parse-Ends ascii (codes "v = [1, select(os(), {default: 2})]")

sample_tokens :
    tokenize ascii (codes "a: [\"x\\n\", -7] // c")
    ≡ ok (
        token ident (codes "a") (record { line = 1; col = 1 })
        ∷ token colon (codes ":") (record { line = 1; col = 2 })
        ∷ token lbrack (codes "[") (record { line = 1; col = 4 })
        ∷ token string (codes "x\n") (record { line = 1; col = 5 })
        ∷ token comma (codes ",") (record { line = 1; col = 10 })
        ∷ token number (codes "-7") (record { line = 1; col = 12 })
        ∷ token rbrack (codes "]") (record { line = 1; col = 14 })
        ∷ token eof [] (record { line = 1; col = 20 })
        ∷ [])
unfolding tokenize
sample_tokens = refl
