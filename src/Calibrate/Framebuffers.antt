-- ===== src/Calibrate/Framebuffers.antt =====
-- `Framebuffer` and `Framebuffers`: the memory of the framebuffers.
use kdump.Prelude.{
  ℕ, ◌+◌, ◌*◌, ◌%◌, ◌^◌, Bool, false, List, [], ◌∷◌, Option, none, some, Bytes, codes, Result, ok,
  throw, ◌>>=◌, ◌==◌, if◌then◌else◌, drop, is_empty,
}
use kdump.KString.Search.{starts_with}
use kdump.Calibrate.Cpus.{skip_spaces, Got, got, failed, read_number}
use kdump.Calibrate.Slabs.{strtoul10}

pub data FramebufferError : Type 0 where
  cannot_open invalid_content : FramebufferError

unfoldable pub valid_content : Got → Result FramebufferError (ℕ × Bytes)
valid_content (got n rest) = ok (n, rest)
valid_content (failed eof) = throw invalid_content

-- Behind the width: the separator and the height.
unfoldable pub height_behind : Bytes → Result FramebufferError ℕ
unfolding read_number valid_content
height_behind [] = throw invalid_content
height_behind (sep ∷ s) =
    valid_content (read_number s)
    >>= (λ height. if sep == b',' then ok height.0 else throw invalid_content)

unfoldable pub virtual_height : Option Bytes → Result FramebufferError ℕ
unfolding read_number valid_content height_behind skip_spaces
virtual_height none = throw cannot_open
virtual_height (some text) =
    valid_content (read_number text) >>= (λ width. height_behind (skip_spaces width.1))

unfoldable pub read_stride : Option Bytes → Result FramebufferError ℕ
unfolding read_number valid_content
read_stride none = throw cannot_open
read_stride (some text) = valid_content (read_number text) >>= (λ stride. ok stride.0)

-- `Framebuffer::size`, of what virtual_size and stride hold.
unfoldable pub framebuffer_size : Option Bytes → Option Bytes → Result FramebufferError ℕ
unfolding virtual_height read_stride
framebuffer_size virtual_size stride_file =
    virtual_height virtual_size
    >>= (λ height. read_stride stride_file >>= (λ stride. ok (stride * height % 2 ^ 64)))

-- `DirFilter::test`
unfoldable pub is_framebuffer : Bytes → Bool
unfolding starts_with strtoul10
is_framebuffer name =
    if starts_with name (codes "fb")
    then elim (strtoul10 (drop 2 name)) [ none ↦ false | some (n, end) ↦ is_empty end ]
    else false

-- `Framebuffers::size`: the loop over the names, with `ret` so far. `virtual_size` and `stride` are the
-- files of a framebuffer's directory.
module _ (virtual_size stride : Bytes → Option Bytes) where
  unfoldable pub add_sizes : ℕ → List Bytes → Result FramebufferError ℕ
  unfolding framebuffer_size
  add_sizes ret [] = ok ret
  add_sizes ret (name ∷ names) =
      framebuffer_size (virtual_size name) (stride name)
      >>= (λ size. add_sizes ((ret + size) % 2 ^ 64) names)

  abbrev only_framebuffers : List Bytes → List Bytes
  only_framebuffers [] = []
  only_framebuffers (name ∷ names) =
      if is_framebuffer name then name ∷ only_framebuffers names else only_framebuffers names

  -- Of the directory's names, in their order.
  unfoldable pub framebuffers_size : List Bytes → Result FramebufferError ℕ
  unfolding add_sizes is_framebuffer
  framebuffers_size names = add_sizes 0 (only_framebuffers names)
