-- ===== src/Sftp/Exists.antt =====
-- What `exists` makes of a reply.
use kdump.Prelude.{
  ℕ, ◌^◌, ◌<◌, Bool, true, false, List, ◌∷◌, ◌++◌, Bytes, ◌==◌, if◌then◌else◌, length, All, ◌≡◌,
  refl, ◌∙◌, arith, Bool-cases, inl, inr,
}
use kdump.Sftp.Packet.{Packet, id_mismatch, invalid_response, sftp_error, add_string}
use kdump.Sftp.Coding.{be32, advance, get_int32-be32, vector-add_string}
use kdump.Sftp.Session.{Write, Read, Session, Outcome, done, raised, bind-done, bind-raised}
use kdump.Sftp.Pieces.{IsTaken, IsGot, content}
use kdump.Sftp.Client.{
  request, reply, status, exists, fxp_status, fxp_stat, fxp_attrs, fx_no_such_file,
}
use kdump.Sftp.Replies.{frame, following, exchanged, request-wire, reply-content}

abbrev pub found : ℕ → ℕ → ℕ → Session → Outcome Bool
found type id code s =
    if id == s.lastid
    then (if type == fxp_attrs
        then done true s
        else if type == fxp_status
        then (if code == fx_no_such_file then done false s else raised (sftp_error code) s)
        else raised (invalid_response type) s)
    else raised id_mismatch s

-- On pipes that deliver in pieces of any size and do not fail, and a packet for the answer (its
-- identifier and its length in 32 bits, and another 32-bit number behind the identifier): `exists`
-- sends the name with the next identifier. A file is there if the answer holds attributes, and not
-- there if it is the status SSH_FX_NO_SUCH_FILE; any other status, "OK" too, is an error, and so
-- are other types of answer and an answer to another request.
pub exists_lem :
    (file : Bytes) (type id code : ℕ) (text more : Bytes) (s : Session)
    → id < 2 ^ 32
    → code < 2 ^ 32
    → length (type ∷ be32 id ++ be32 code ++ text) < 2 ^ 32
    → All IsTaken s.writes
    → All IsGot s.incoming
    → content s.incoming ≡ frame (type ∷ be32 id ++ be32 code ++ text) ++ more
    → (ws : List Write) × (left : List Read) × (exists file s
        ≡ found type id code
            (exchanged s (fxp_stat ∷ be32 (following s) ++ (be32 (length file) ++ file)) ws left))
      × (content left ≡ more)
unfolding exists status advance
exists_lem file type id code text more s small known fits t g e =
    let (ws, asked) =
      request-wire fxp_stat (add_string file) (be32 (length file) ++ file) s t
        (vector-add_string file) (omega arith) in
    let s1 =
      exchanged s (fxp_stat ∷ be32 (following s) ++ (be32 (length file) ++ file)) ws s.incoming in
    let (left, answered, _, c) = reply-content type id (be32 code ++ text) more s1 small fits g e in
    let s2 : Session = record s1 { incoming = left } in
    let p : Packet = record { vector = frame (type ∷ be32 id ++ be32 code ++ text); gpos = 9 } in
    let (i, _) = get_int32-be32 code p text known refl in
    let first = bind-done (request fxp_stat (add_string file)) _ asked in
    elim (Bool-cases (id == s1.lastid)) [
      | inl same ↦
          let here : reply s1 ≡ done (type, p) s2 = answered ∙ rw same in
          let second = bind-done reply _ here in
          elim (Bool-cases (type == fxp_attrs)) [
            | inl attrs ↦ (ws, left, first ∙ second ∙ rw (same, attrs), c)
            | inr other ↦ elim (Bool-cases (type == fxp_status)) [
              | inl stat ↦ elim (Bool-cases (code == fx_no_such_file)) [
                | inl missing ↦
                    (ws, left, first ∙ second ∙ rw (same, other, stat) (rw i (rw missing)), c)
                | inr wrong ↦
                    (ws, left, first ∙ second ∙ rw (same, other, stat) (rw i (rw wrong)), c)
              ]
              | inr strange ↦ (ws, left, first ∙ second ∙ rw (same, other, strange), c)
            ]
          ]
      | inr differ ↦
          let here : reply s1 ≡ raised id_mismatch s2 = answered ∙ rw differ in
          let second = bind-raised reply _ here in (ws, left, first ∙ second ∙ rw differ, c)
    ]
