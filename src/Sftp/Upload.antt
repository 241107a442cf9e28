-- ===== src/Sftp/Upload.antt =====
-- What the data provider sees of `SFTPTransfer::perform`.
use kdump.Prelude.{
  Bool, List, [], ◌∷◌, ◌++◌, append_assoc, append-nil, Bytes, if◌then◌else◌, ◌≡◌, sym, ap, ◌∙◌,
  Bool-cases, inl, inr,
}
use kdump.Sftp.Session.{
  Event, prepared, finished, Session, Outcome, done, raised, M, ◌>>◌, on_error,
}
use kdump.Sftp.Client.{createfile, closefile, Provider, tell, write_chunks, upload, perform}
use kdump.Sftp.Quiet.{
  after, IsQuiet, events_kept, closefile-IsQuiet, createfile-IsQuiet, write_chunks-IsQuiet,
}

-- What the data provider is told by an upload.
abbrev pub told : Provider → List Event
told provider = if provider.prepares then prepared ∷ finished ∷ [] else prepared ∷ []

finishing-events :
    (m : M (Unit {0})) (finishes : Bool) (s : Session)
    → IsQuiet m
    → (after ((on_error m (tell finished finishes) >> tell finished finishes) s)).events
      ≡ s.events ++ finished ∷ []
unfolding tell
finishing-events m finishes s h =
    let q = events_kept m h s in
    elim (m s)
        as (λ o.
          (after o).events ≡ s.events
          → (after
              (elim (elim o as (λ _. Outcome (Unit {0})) [
                | done a s' ↦ done a s'
                | raised e s' ↦ elim (tell finished finishes s') as (λ _. Outcome (Unit {0})) [
                  | done _ s'' ↦ raised e s''
                  | raised e' s'' ↦ raised e' s''
                ]
              ])
                as (λ _. Outcome (Unit {0})) [
                  | done a s' ↦ tell finished finishes s'
                  | raised e s' ↦ raised e s'
                ])).events
            ≡ s.events ++ finished ∷ []) [
              | done a s' ↦
                  λ e. elim (Bool-cases finishes) [ inl t ↦ rw (t, e) | inr f ↦ rw (f, e) ]
              | raised x s' ↦
                  λ e. elim (Bool-cases finishes) [ inl t ↦ rw (t, e) | inr f ↦ rw (f, e) ]
            ]
      q

upload-events :
    (handle : Bytes) (provider : Provider) (s : Session)
    → (after (upload handle provider s)).events ≡ s.events ++ told provider
unfolding upload tell
upload-events handle provider s =
    let s' : Session = record s { events = s.events ++ prepared ∷ [] } in
    let q =
      finishing-events (write_chunks handle 0 provider.chunks) provider.finishes s'
        (write_chunks-IsQuiet handle 0 provider.chunks) in
    elim (Bool-cases provider.prepares) [
      | inl t ↦ rw t (q ∙ append_assoc s.events (prepared ∷ []) (finished ∷ []))
      | inr f ↦ rw f
    ]

-- try { m } catch (...) { cleanup; throw; } cleanup;
closing-events :
    (m cleanup : M (Unit {0})) (s : Session)
    → IsQuiet cleanup
    → (after ((on_error m cleanup >> cleanup) s)).events ≡ (after (m s)).events
closing-events m cleanup s h =
    elim (m s)
      as (λ o.
        (after
          (elim (elim o as (λ _. Outcome (Unit {0})) [
            | done a s' ↦ done a s'
            | raised e s' ↦ elim (cleanup s') as (λ _. Outcome (Unit {0})) [
              | done _ s'' ↦ raised e s''
              | raised e' s'' ↦ raised e' s''
            ]
          ])
            as (λ _. Outcome (Unit {0})) [
              | done a s' ↦ cleanup s'
              | raised e s' ↦ raised e s'
            ])).events
        ≡ (after o).events) [
          | done a s' ↦ events_kept cleanup h s'
          | raised x s' ↦
              elim (cleanup s')
                  as (λ c.
                    (after c).events ≡ s'.events
                    → (after
                        (elim (elim c as (λ _. Outcome (Unit {0})) [
                          | done _ s'' ↦ raised x s''
                          | raised e' s'' ↦ raised e' s''
                        ])
                          as (λ _. Outcome (Unit {0})) [
                            | done a t ↦ cleanup t
                            | raised e t ↦ raised e t
                          ])).events
                      ≡ s'.events) [ done a s'' ↦ λ e. e | raised x' s'' ↦ λ e. e ]
                (events_kept cleanup h s')
        ]

-- Whatever fails, the data provider that `perform` has prepared is finished, once, and one whose
-- `prepare` throws is not; where the file cannot be created, the provider is left alone. What the
-- server says to a write or to the closing of the file makes no difference.
pub perform-events :
    (provider : Provider) (fp : Bytes) (s : Session)
    → (after (perform provider fp s)).events
      ≡ s.events ++ (elim (createfile fp s) [ done _ _ ↦ told provider | raised _ _ ↦ [] ])
unfolding perform
perform-events provider fp s =
    let q = events_kept (createfile fp) (createfile-IsQuiet fp) s in
    elim (createfile fp s)
        as (λ o.
          (after o).events ≡ s.events
          → (after (elim o as (λ _. Outcome (Unit {0})) [
            | done handle s' ↦
                (on_error (upload handle provider) (closefile handle) >> closefile handle) s'
            | raised e s' ↦ raised e s'
          ])).events
            ≡ s.events ++ (elim o [ done _ _ ↦ told provider | raised _ _ ↦ [] ])) [
              | done handle s' ↦ λ e.
                  closing-events (upload handle provider) (closefile handle) s'
                    (closefile-IsQuiet handle)
                  ∙ upload-events handle provider s'
                  ∙ ap (λ t. t ++ told provider) e
              | raised x s' ↦ λ e. e ∙ sym (append-nil s.events)
            ]
      q
