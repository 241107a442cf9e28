-- ===== src/Quote/Tests.antt =====
-- Runs of the two quotings.
use kdump.Prelude.{◌≡◌, refl, codes, false, some, none, [], ◌∷◌}
use kdump.Quote.Shell
use kdump.Quote.ShellWord.{shell_word, read_words, read_words-quoted}
use kdump.Quote.Kernel

shell_runs :
    (Shell.quoted (codes "a b") ≡ codes "'a b'")
    × (Shell.quoted (codes "it's") ≡ codes "'it'\\''s'")
    × (Shell.quoted (codes "a'") ≡ codes "'a'\\'")
    × (Shell.quoted (codes "root@host:/x") ≡ codes "root@host:/x")
unfolding Shell.quoted Shell.quote_loop Shell.is_shell_safe Shell.close_quote
shell_runs = (refl, refl, refl, refl)

shell_word_runs :
    (shell_word false (codes "a;b") ≡ none)
    × (shell_word false (codes "'a;b'") ≡ some (codes "a;b"))
unfolding shell_word
shell_word_runs = (refl, refl)

kernel_runs :
    (Kernel.quoted (codes "a\"b") ≡ codes "a\\042b")
    × (Kernel.quoted (codes "a b") ≡ codes "\"a b\"")
unfolding Kernel.quoted
kernel_runs = (refl, refl)

-- Quotes alone are a word, which is empty.
read_words_runs :
    (read_words (codes "''") ≡ some ([] ∷ [])) × (read_words (Shell.quoted []) ≡ some [])
unfolding read_words shell_word Shell.quoted Shell.quote_loop
read_words_runs = (refl, refl)

read_words-quoted_example :
    read_words (Shell.quoted (codes "it's $5")) ≡ some (codes "it's $5" ∷ [])
read_words-quoted_example = read_words-quoted (codes "it's $5")
