-- ===== src/DataPlane/FrameIpc/RoundTrip.antt =====
-- The handshake, and the frames that are written and read back.
use platform_agent.Prelude.{
  ℕ, ◌≤◌, ◌≡◌, ◌↔◌, inl, inr, refl, sym, ap, ◌∙◌, subst, true, not, Option, none, some, [], ◌∷◌,
  ◌++◌, length, arith, append_assoc, append-nil, if◌then◌else◌, ◌==◌, ltb, ok, err, ◌>>=◌,
  Bool-cases, >>=-eq-ok,
}
use platform_agent.Bytes.{Bytes, IsBytes, beq, beq_refl, beq_iff}
use platform_agent.DataPlane.FrameIpc.{
  IpcError, Writer, Message, max_ipc_frame_size, ipc_nonce_len, msg_handshake, msg_frame, put,
  header, put_payload, write_msg, read_msg, verify_handshake, read_verify_handshake, write_failed,
  nonce_length, write_frame, frame_result, read_frame,
}
use platform_agent.DataPlane.FrameIpc.Reading.{wire, read_msg-wire, read_msg_parts}

verify_handshake_parts :
    (expected rest : Bytes) (m : Message)
    → verify_handshake expected m ≡ ok rest
    → (m.0 ≡ msg_handshake) × (m.1 ≡ expected) × (m.2 ≡ rest)
unfolding verify_handshake
verify_handshake_parts expected rest (t, got, left) h =
    let same : beq got expected ≡ true = ground arith in
    (ground arith, (beq_iff got expected).0 same, ground arith)

verified_parts :
    (r expected rest : Bytes)
    → IsBytes r
    → (read_msg r >>= verify_handshake expected) ≡ ok rest
    → r ≡ wire msg_handshake expected ++ rest
verified_parts r expected rest h e =
    let (m, got, same) = >>=-eq-ok (read_msg r) (verify_handshake expected) e in
    let (kind, nonce, left) = verify_handshake_parts expected rest m same in
    (read_msg_parts r m h got).1 ∙ cc

verified_of :
    (expected rest : Bytes)
    → length expected ≡ ipc_nonce_len
    → (read_msg (wire msg_handshake expected ++ rest) >>= verify_handshake expected) ≡ ok rest
unfolding verify_handshake
verified_of expected rest n =
    rw (read_msg-wire msg_handshake expected rest (omega (arith, n)), beq_refl expected) refl

-- A handshake passes exactly when the expected nonce has 32 bytes and the reader begins with the
-- handshake message that carries it, and it leaves the bytes behind that.
pub read_verify_handshake-wire :
    (r expected rest : Bytes)
    → IsBytes r
    → (read_verify_handshake r expected ≡ ok rest)
      ↔ ((length expected ≡ ipc_nonce_len) × (r ≡ wire msg_handshake expected ++ rest))
unfolding read_verify_handshake
read_verify_handshake-wire r expected rest h = (there, back)
  where
    there :
        (if not (length expected == ipc_nonce_len)
            then err nonce_length
            else read_msg r >>= verify_handshake expected)
          ≡ ok rest
        → (length expected ≡ ipc_nonce_len) × (r ≡ wire msg_handshake expected ++ rest)
    there e = elim (Bool-cases (length expected == ipc_nonce_len)) [
      | inl q ↦ (ground (arith, q), verified_parts r expected rest h (rw q at e))
      | inr q ↦ absurd (ground (arith, q, e))
    ]

    back :
        (length expected ≡ ipc_nonce_len) × (r ≡ wire msg_handshake expected ++ rest)
        → (if not (length expected == ipc_nonce_len)
            then err nonce_length
            else read_msg r >>= verify_handshake expected)
          ≡ ok rest
    back (n, e) = rw n (
        subst (λ z. (read_msg z >>= verify_handshake expected) ≡ ok rest) (sym e)
          (verified_of expected rest n))

frame_result_frame : (p rest : Bytes) → frame_result (msg_frame, p, rest) ≡ ok (p, rest)
unfolding frame_result
frame_result_frame p rest = refl

put_parts : (w : Writer) (taken p out : Bytes) → put w taken p ≡ (none, out) → out ≡ taken ++ p
unfolding put
put_parts w taken p out h = go (w taken p) h
  where
    go :
        (o : Option ℕ)
        → Path
            (Option IpcError × Bytes)
            (elim o [ some e ↦ (some (write_failed e), taken) | none ↦ (none, taken ++ p) ])
            (none, out)
        → out ≡ taken ++ p
    go (some e) q = absurd (ground arith)
    go none q = ground arith

put_payload_parts :
    (w : Writer) (p out : Bytes) (q : Option IpcError × Bytes)
    → put_payload w p q ≡ (none, out)
    → (q ≡ (none, q.1)) × (out ≡ q.1 ++ p)
unfolding put_payload
put_payload_parts w p out (some e, taken) h = absurd (ground arith)
put_payload_parts w [] out (none, taken) h = (refl, ground (arith, append-nil taken))
put_payload_parts w (b ∷ p) out (none, taken) h =
    (refl, put_parts w taken (b ∷ p) out (ground arith))

write_msg_parts :
    (w : Writer) (taken : Bytes) (t : ℕ) (p out : Bytes)
    → write_msg w taken t p ≡ (none, out)
    → (length p ≤ max_ipc_frame_size) × (out ≡ taken ++ wire t p)
unfolding write_msg
write_msg_parts w taken t p out h = elim (Bool-cases (ltb max_ipc_frame_size (length p))) [
  | inl q ↦ absurd (ground arith)
  | inr q ↦
      let (headed, all) = put_payload_parts w p out (put w taken (header t p)) (rw q at h) in
      (
        ground arith,
        all
            ∙ ap (λ z. z ++ p) (put_parts w taken (header t p) _ headed)
            ∙ append_assoc taken (header t p) p,
      )
]

-- A frame that is written with no error is read back, whatever follows it.
pub read_frame-write_frame :
    (w : Writer) (p rest out : Bytes)
    → write_frame w [] p ≡ (none, out)
    → read_frame (out ++ rest) ≡ ok (p, rest)
unfolding read_frame write_frame
read_frame-write_frame w p rest out h =
    let (bounded, wired) = write_msg_parts w [] msg_frame p out h in
    rw wired (rw (read_msg-wire msg_frame p rest bounded) (frame_result_frame p rest))
