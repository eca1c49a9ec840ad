-- ===== src/Session/Progress.antt =====
-- proxy/reflex/session.go: the progress of `ReadFrame` on its input.
use reflex_network_project.Prelude.{◌+◌, ◌-◌, ◌≤◌, ◌≡◌, not, ltb, arith, length}
use reflex_network_project.Prelude.Bytes.{uint16}
use reflex_network_project.Io.{ok, guard, >>=-eq-ok, Stream, read_full, read_full-length}
use reflex_network_project.Session.{Aead, Session, Frame, read_frame}

pub read_frame-length :
    (a : Aead) (s : Session) (st : Stream) {f : Frame} {t : Session} {st' : Stream}
    → read_frame a s st ≡ ok (f, t) st'
    → length st'.pending + 2 ≤ length st.pending
unfolding read_frame
read_frame-length a s st h =
    let (len_buf, s₁, e₁, h₁) = >>=-eq-ok (read_full 2) _ st h in
    let (_, s₂, e₂, h₂) = >>=-eq-ok (guard (not (ltb (uint16 len_buf) a.nonce_size)) _) _ s₁ h₁ in
    let (_, s₃, e₃, h₃) =
      >>=-eq-ok (guard (not (ltb (uint16 len_buf - a.nonce_size) a.overhead)) _) _ s₂ h₂ in
    let (nonce, s₄, e₄, h₄) = >>=-eq-ok (read_full a.nonce_size) _ s₃ h₃ in
    let (ciphertext, s₅, e₅, h₅) = >>=-eq-ok (read_full (uint16 len_buf - a.nonce_size)) _ s₄ h₄ in
    ground (
      arith,
      read_full-length 2 st e₁,
      e₂,
      e₃,
      read_full-length a.nonce_size s₃ e₄,
      read_full-length (uint16 len_buf - a.nonce_size) s₄ e₅,
      h₅,
    )
