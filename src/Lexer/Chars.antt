-- ===== src/Lexer/Chars.antt =====
-- The character classes of src/core/maelys_datalog_lexer.c.
use maelys_datalog.Prelude.{ℕ, Bool, ◌&&◌, ◌||◌, leb, ◌==◌}

abbrev pub within : ℕ → ℕ → ℕ → Bool
within lo hi c = leb lo c && leb c hi

unfoldable pub is_digit : ℕ → Bool
is_digit c = within b'0' b'9' c

unfoldable pub is_pred_start : ℕ → Bool
is_pred_start c = within b'a' b'z' c

unfoldable pub is_pred_char : ℕ → Bool
is_pred_char c = within b'a' b'z' c || is_digit c || c == b'_'

unfoldable pub is_var_start : ℕ → Bool
is_var_start c = within b'A' b'Z' c

unfoldable pub is_var_char : ℕ → Bool
is_var_char c = within b'A' b'Z' c || within b'a' b'z' c || is_digit c || c == b'_'

-- `isalnum`, for the test behind an underscore.
unfoldable pub is_alnum : ℕ → Bool
is_alnum c = within b'A' b'Z' c || within b'a' b'z' c || is_digit c
