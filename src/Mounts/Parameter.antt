-- ===== src/Mounts/Parameter.antt =====
-- The root parameter of the kernel's command line.
use kdump.Prelude.{
  Bool, false, ◌&&◌, ◌||◌, not, List, [], ◌∷◌, ◌++◌, ◌≡◌, refl, ap, ◌∙◌, Option, none, some, Bytes,
  codes, ◌==◌, if◌then◌else◌, equal, is_empty, isspace,
}
use kdump.Prelude.Effects.{done, raised}
use kdump.Mounts.Root.{
  remove_kparam_quotes, take_root, cmdline_root, devroot_maj_min, devroot_hexhex, cannot_resolve,
  found_spec, resolve_known, settled, settle_root, system_root,
}

-- No space stands outside of the quotes, and they are closed; `q` says whether one is open.
abbrev pub closes : Bool → Bytes → Bool
closes q [] = not q
closes q (c ∷ s) = (q || not (isspace c)) && closes (if c == b'"' then not q else q) s

abbrev pub words_text : List Bytes → Bytes
words_text [] = []
words_text (w ∷ ws) = w ++ b' ' ∷ words_text ws

-- What the words before the first "--" say, the later ones last.
abbrev pub words_root : Bytes → List Bytes → Bytes
words_root devroot [] = devroot
words_root devroot (w ∷ ws) =
    if equal (remove_kparam_quotes w) (codes "--")
    then devroot
    else words_root (take_root devroot (remove_kparam_quotes w)) ws

resolve_known-none :
    (spec : Bytes → Option Bytes) (cmdline : Option Bytes) (s : Bytes)
    → spec s ≡ none
    → resolve_known spec cmdline s s ≡ raised cannot_resolve s
resolve_known-none spec cmdline s h =
    unfold resolve_known in ap (found_spec spec cmdline s) h ∙ (unfold found_spec in refl)

settle_root-none :
    (spec : Bytes → Option Bytes) (cmdline : Option Bytes) (s : Bytes)
    → devroot_maj_min s ≡ none
    → devroot_hexhex s ≡ none
    → spec s ≡ none
    → settle_root spec cmdline s ≡ raised cannot_resolve s
unfolding settle_root
settle_root-none spec cmdline s named hexed unresolved =
    ap (λ o. settled spec cmdline o (devroot_hexhex s) (resolve_known spec cmdline s s)) named
    ∙ (ap (λ o. settled spec cmdline none o (resolve_known spec cmdline s s)) hexed
        ∙ (ap (settled spec cmdline none none) (resolve_known-none spec cmdline s unresolved)
            ∙ (unfold settled in refl)))

-- A root device that cannot be resolved is an error once: the specification is kept, and returned
-- for the device the next time.
pub system_root-unresolved :
    (spec : Bytes → Option Bytes) (text : Bytes)
    → is_empty (cmdline_root text) ≡ false
    → devroot_maj_min (cmdline_root text) ≡ none
    → devroot_hexhex (cmdline_root text) ≡ none
    → spec (cmdline_root text) ≡ none
    → let said = cmdline_root text in
      (system_root spec (some text) [] ≡ raised cannot_resolve said)
      × (system_root spec (some text) said ≡ done said said)
unfolding system_root
system_root-unresolved spec text there named hexed unresolved = (
  rw there (settle_root-none spec (some text) (cmdline_root text) named hexed unresolved),
  rw there refl,
)
