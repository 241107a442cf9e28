-- ===== src/Quote/Kernel.antt =====
-- `KernelQuotedString::quoted`, and what a space is to the kernel.
use kdump.Prelude.{
  ℕ, Bool, true, false, ◌&&◌, ◌||◌, [], ◌∷◌, ◌++◌, append-nil, append_assoc, ◌≡◌, ◌∙◌, Bytes, codes,
  ◌==◌, leb, if◌then◌else◌,
}

-- The byte of `(char)160` is 160.
unfoldable pub is_kernel_space : ℕ → Bool
is_kernel_space c = leb 9 c && leb c 13 || c == 32 || c == 160

-- What the loop appends for one byte.
unfoldable pub kernel_item : ℕ → Bytes
kernel_item c = if c == b'"' then codes "\\042" else if c == b'\\' then codes "\\\\" else c ∷ []

-- The loop; its state is `ret` and `quotes_needed`.
unfoldable pub quote_loop : Bytes → Bytes → Bool → Bytes × Bool
unfolding is_kernel_space kernel_item
quote_loop [] ret quotes_needed = (ret, quotes_needed)
quote_loop (c ∷ s) ret quotes_needed =
    quote_loop s (ret ++ kernel_item c) (if is_kernel_space c then true else quotes_needed)

unfoldable pub quoted : Bytes → Bytes
unfolding quote_loop
quoted s =
    let (ret, quotes_needed) = quote_loop s [] false in
    if quotes_needed then (b'"' ∷ ret) ++ b'"' ∷ [] else ret

-- All that the loop appends, and whether a byte is a space.
unfoldable pub kernel_body : Bytes → Bytes
kernel_body [] = []
kernel_body (c ∷ s) = kernel_item c ++ kernel_body s

unfoldable pub has_space : Bytes → Bool → Bool
has_space [] q = q
has_space (c ∷ s) q = has_space s (if is_kernel_space c then true else q)

quote_loop-kernel_body :
    (s ret : Bytes) (q : Bool) → quote_loop s ret q ≡ (ret ++ kernel_body s, has_space s q)
unfolding quote_loop kernel_body has_space
quote_loop-kernel_body [] ret q = rw append-nil
quote_loop-kernel_body (c ∷ s) ret q =
    quote_loop-kernel_body s (ret ++ kernel_item c) (if is_kernel_space c then true else q)
    ∙ rw append_assoc

pub quoted-kernel_body :
    (s : Bytes)
    → quoted s ≡ (if has_space s false then (b'"' ∷ kernel_body s) ++ b'"' ∷ [] else kernel_body s)
unfolding quoted
quoted-kernel_body s = rw (quote_loop-kernel_body s [] false)
