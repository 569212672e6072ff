-- ===== src/DataPlane/FrameIpc/Reading.antt =====
-- What a reader makes of the bytes of a message, and the bytes that a message was read from.
use platform_agent.Prelude.{
  ℕ, ◌%◌, ◌^◌, ◌≤◌, ◌<◌, ◌≡◌, inl, inr, refl, sym, ap, ◌∙◌, subst, false, List, [], ◌∷◌, ◌++◌,
  length, take, drop, arith, append_assoc, length-append, take-append_length, drop-append_length,
  take-append-drop, length-take, ok_injective, ◌==◌, ltb, ok, ◌>>=◌, Bool-cases, >>=-eq-ok,
}
use platform_agent.Bytes.{Bytes, IsBytes}
use platform_agent.Bytes.BigEndian.{be32, word32, word32-be32}
use platform_agent.DataPlane.FrameIpc.{
  Message, max_ipc_frame_size, header, read_full, read_body, read_header, read_msg,
}

-- The bytes of a message.
abbrev pub wire : ℕ → Bytes → Bytes
wire t payload = header t payload ++ payload

read_full-append : (p rest : Bytes) → read_full (length p) (p ++ rest) ≡ ok (p, rest)
unfolding read_full
read_full-append p rest = elim (Bool-cases (ltb (length (p ++ rest)) (length p))) [
  | inl q ↦ absurd (ground (arith, length-append p rest))
  | inr q ↦ rw (q, take-append_length p rest, drop-append_length p rest) refl
]

not_over : (n : ℕ) → n ≤ max_ipc_frame_size → ltb max_ipc_frame_size n ≡ false
not_over n h = ground arith

read_body-append :
    (t : ℕ) (p rest : Bytes)
    → length p ≤ max_ipc_frame_size
    → read_body t (length p) (p ++ rest) ≡ ok (t, p, rest)
unfolding read_body
read_body-append t [] rest h = refl
read_body-append t (b ∷ p) rest h =
    rw (not_over (length (b ∷ p)) h, read_full-append (b ∷ p) rest) (ground arith)

read_header-wire :
    (t : ℕ) (p rest : Bytes)
    → length p ≤ max_ipc_frame_size
    → read_header (header t p) (p ++ rest) ≡ ok (t, p, rest)
unfolding read_header header
read_header-wire t p rest h =
    ap (λ n. read_body t n (p ++ rest)) (word32-be32 (length p % 2 ^ 32) ∙ omega (arith, h))
    ∙ read_body-append t p rest h

read_full-wire :
    (t : ℕ) (p rest : Bytes) → read_full 6 (wire t p ++ rest) ≡ ok (header t p, p ++ rest)
unfolding header
read_full-wire t p rest =
    ap (read_full 6) (append_assoc (header t p) p rest) ∙ read_full-append (header t p) (p ++ rest)

-- A message of at most 16 MiB is read back as it was written, and the bytes behind it are left.
pub read_msg-wire :
    (t : ℕ) (p rest : Bytes)
    → length p ≤ max_ipc_frame_size
    → read_msg (wire t p ++ rest) ≡ ok (t, p, rest)
unfolding read_msg
read_msg-wire t p rest h =
    ap (λ r. r >>= λ q. read_header q.0 q.1) (read_full-wire t p rest) ∙ read_header-wire t p rest h

read_full_parts :
    (n : ℕ) (r : Bytes) (q : Bytes × Bytes)
    → read_full n r ≡ ok q
    → (r ≡ q.0 ++ q.1) × (length q.0 ≡ n)
unfolding read_full
read_full_parts n r q h = elim (Bool-cases (ltb (length r) n)) [
  | inl e ↦ absurd (ground arith)
  | inr e ↦
      let f : ok (take n r, drop n r) ≡ ok q = rw e at h in
      let g : (take n r, drop n r) ≡ q = ok_injective f in
      (
        sym (take-append-drop n r) ∙ ap (λ z. z.0 ++ z.1) g,
        ap (λ z. length z.0) (sym g) ∙ length-take n r ∙ ground (arith, e),
      )
]

-- What a message's parts say of the bytes that they were read from.
abbrev Body : ℕ → ℕ → Bytes → Message → Type 0
Body t n r m = (t ≡ m.0) × (r ≡ m.1 ++ m.2) × (length m.1 ≡ n) × (n ≤ max_ipc_frame_size)

read_body_parts : (t n : ℕ) (r : Bytes) (m : Message) → read_body t n r ≡ ok m → Body t n r m
unfolding read_body
read_body_parts t n r m h = elim (Bool-cases (ltb max_ipc_frame_size n)) [
  | inl q ↦ absurd (ground arith)
  | inr q ↦ elim (Bool-cases (n == 0)) [
    | inl z ↦
        let f : ok (t, [], r) ≡ ok m = rw (q, z) at h in
        let empty : n ≡ 0 = ground arith in
        subst (Body t n r) (ok_injective f) (refl, refl, sym empty, ground arith)
    | inr z ↦
        let f : (read_full n r >>= λ b. ok (t, b.0, b.1)) ≡ ok m = rw (q, z) at h in
        let (b, full, same) = >>=-eq-ok (read_full n r) (λ b. ok (t, b.0, b.1)) f in
        let (split, sized) = read_full_parts n r b full in
        subst (Body t n r) (ok_injective same) (refl, split, sized, ground arith)
  ]
]

be32_of_word32 :
    (a b c d n : ℕ)
    → a < 256
    → b < 256
    → c < 256
    → d < 256
    → n ≡ word32 a b c d
    → be32 (n % 2 ^ 32) ≡ a ∷ b ∷ c ∷ d ∷ []
be32_of_word32 a b c d n h i j k e =
    four _ _ _ _ a b c d (omega arith) (omega arith) (omega arith) (omega arith)
  where
    four :
        (x y z w a b c d : ℕ)
        → x ≡ a
        → y ≡ b
        → z ≡ c
        → w ≡ d
        → Path (List ℕ) (x ∷ y ∷ z ∷ w ∷ []) (a ∷ b ∷ c ∷ d ∷ [])
    four x y z w a b c d p q r s = cc

read_header_parts :
    (hdr rest : Bytes) (m : Message)
    → IsBytes hdr
    → read_header hdr rest ≡ ok m
    → (length m.1 ≤ max_ipc_frame_size) × (hdr ++ rest ≡ wire m.0 m.1 ++ m.2)
unfolding read_header header
read_header_parts (v ∷ t ∷ a ∷ b ∷ c ∷ d ∷ []) rest m h e =
    let version : v ≡ 1 = ground (arith, e) in
    let body : read_body t (word32 a b c d) rest ≡ ok m = rw version at e in
    let (kind, split, sized, bounded) = read_body_parts t (word32 a b c d) rest m body in
    let size =
      be32_of_word32 a b c d (length m.1) h.1.1.0 h.1.1.1.0 h.1.1.1.1.0 h.1.1.1.1.1.0 sized in
    let joined : (v ∷ t ∷ a ∷ b ∷ c ∷ d ∷ []) ++ rest ≡ header m.0 m.1 ++ (m.1 ++ m.2) = cc in
    (omega (arith, sized, bounded), joined ∙ sym (append_assoc (header m.0 m.1) m.1 m.2))
read_header_parts _ rest m h e = cc

IsBytes-front : (a b : Bytes) → IsBytes (a ++ b) → IsBytes a
IsBytes-front [] b h = tt
IsBytes-front (x ∷ a) b h = (h.0, IsBytes-front a b h.1)

-- A message that is read is at most 16 MiB long, and the bytes it was read from are that message's
-- on the wire, followed by the bytes left: there is no second way to write it.
pub read_msg_parts :
    (r : Bytes) (m : Message)
    → IsBytes r
    → read_msg r ≡ ok m
    → (length m.1 ≤ max_ipc_frame_size) × (r ≡ wire m.0 m.1 ++ m.2)
unfolding read_msg
read_msg_parts r m h e =
    let (q, full, same) = >>=-eq-ok (read_full 6 r) (λ q. read_header q.0 q.1) e in
    let split = (read_full_parts 6 r q full).0 in
    let (bounded, joined) =
      read_header_parts q.0 q.1 m (IsBytes-front q.0 q.1 (subst IsBytes split h)) same in
    (bounded, split ∙ joined)
