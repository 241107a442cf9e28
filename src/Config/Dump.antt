-- ===== src/Config/Dump.antt =====
-- kdumptool/dumpconfig.cc: `DumpConfig::parseArgs` and `execute`. The options of the configuration
-- are the list that the iterators run over.
use Prim.Native.Nat.{bit_and}
use kdump.Prelude.{
  ℕ, zero, suc, Bool, false, not, ◌&&◌, List, [], ◌∷◌, ◌++◌, none, some, Bytes, codes, Result, ok,
  throw, ◌>>=◌, ◌==◌, if◌then◌else◌, bit_or, length, take, drop, equal,
}
use kdump.KString.Search.{find}
use kdump.Quote.Shell
use kdump.Quote.Kernel

pub data Format : Type 0 where
  shell kernel : Format

-- A `ConfigOption`: its name, its usage bits, `isDefault` and `valueAsString`.
pub record ConfigOption : Type 0 where
  pub name : Bytes
  pub usage : ℕ
  pub is_default : Bool
  pub value : Bytes

pub data DumpError : Type 0 where
  -- "Unknown value format: …"
  unknown_format : Bytes → DumpError
  -- "Unknown usage string: …"
  unknown_usage : Bytes → DumpError

unfoldable pub parse_format : Bytes → Result DumpError Format
unfolding equal
parse_format s =
    if equal s (codes "shell")
    then ok shell
    else if equal s (codes "kernel")
    then ok kernel
    else throw (unknown_format s)

-- One token of the usage string: the bit of its name, or all bits.
unfoldable pub add_usage : Bytes → ℕ → Result DumpError ℕ
unfolding equal
add_usage token usage =
    if equal token (codes "mkinitrd")
    then ok (bit_or usage 1)
    else if equal token (codes "kexec")
    then ok (bit_or usage 2)
    else if equal token (codes "dump")
    then ok (bit_or usage 4)
    else if equal token (codes "all")
    then ok 7
    else throw (unknown_usage token)

-- The loop over the tokens, from `pos` on, on fuel.
usage_loop : ℕ → Bytes → ℕ → Result DumpError ℕ
usage_loop zero rest usage = ok usage
usage_loop (suc f) rest usage = elim (find rest b',') [
  | none ↦ add_usage rest usage
  | some n ↦ add_usage (take n rest) usage >>= λ u. usage_loop f (drop (suc n) rest) u
]

unfoldable pub parse_usage : Bytes → Result DumpError ℕ
unfolding usage_loop add_usage find
parse_usage s = usage_loop (suc (length s)) s 0

-- The `continue`s of the loop in `execute`.
unfoldable pub is_printed : ℕ → Bool → ConfigOption → Bool
is_printed usage nodefault o =
    if bit_and o.usage usage == 0 then false else not (nodefault && o.is_default)

unfoldable pub quote : Format → Bytes → Bytes
unfolding Shell.quoted Kernel.quoted
quote shell v = Shell.quoted v
quote kernel v = Kernel.quoted v

abbrev pub delim : Format → ℕ
delim shell = b'\n'
delim kernel = b' '

unfoldable pub assignment : Format → ConfigOption → Bytes
assignment format o = o.name ++ (b'=' ∷ (quote format o.value ++ delim format ∷ []))

unfoldable pub execute : Format → ℕ → Bool → List ConfigOption → Bytes
unfolding is_printed assignment
execute format usage nodefault [] = []
execute format usage nodefault (o ∷ os) =
    let rest = execute format usage nodefault os in
    if is_printed usage nodefault o then assignment format o ++ rest else rest
