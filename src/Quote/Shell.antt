-- ===== src/Quote/Shell.antt =====
-- `ShellQuotedString::quoted`.
use kdump.Prelude.{
  ℕ, Bool, true, false, ◌||◌, [], ◌∷◌, ◌++◌, Bytes, codes, ◌==◌, within, if◌then◌else◌, last_byte,
  erase_last,
}

abbrev pub apostrophe : ℕ
apostrophe = b'\''

unfoldable pub is_shell_safe : ℕ → Bool
is_shell_safe c =
    within b'0' b'9' c
    || within b'A' b'Z' c
    || within b'a' b'z' c
    || (c == b'_' || c == b'/' || c == b'@' || c == b'.' || c == b',' || c == b':')

-- The loop; its state is `ret` and `quotes_needed`.
unfoldable pub quote_loop : Bytes → Bytes → Bool → Bytes × Bool
quote_loop [] ret quotes_needed = (ret, quotes_needed)
quote_loop (c ∷ s) ret quotes_needed =
    quote_loop s ((ret ++ c ∷ []) ++ (if c == apostrophe then codes "\\''" else []))
      (if is_shell_safe c then quotes_needed else true)

unfoldable pub close_quote : Bytes → Bytes
unfolding last_byte erase_last
close_quote ret = if last_byte ret == apostrophe then erase_last ret else ret ++ apostrophe ∷ []

unfoldable pub quoted : Bytes → Bytes
quoted s =
    let (ret, quotes_needed) = quote_loop s [] false in
    if quotes_needed then close_quote (apostrophe ∷ ret) else ret
