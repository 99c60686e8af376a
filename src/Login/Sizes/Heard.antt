-- ===== src/Login/Sizes/Heard.antt =====
-- What `receiveSize` and `receiveEphemeralPublicKey` of security/Util.cpp take from the connection.
use foc_project.Prelude.{
  ℕ, zero, suc, ◌≡◌, refl, ap, ◌∙◌, Bool, true, false, Option, none, some, List, [], ◌∷◌, arith,
  take, ltb, if◌then◌else◌,
}
use foc_project.Memory.{Buffer}
use foc_project.Words.{load64}
use foc_project.Security.Login.{max_ephemeral_public_key_size}
use foc_project.Platform.{Platform}
use foc_project.Session.{
  Session, Flow, next, returned, raised, faulted, exited, Exec, pure, continue, ◌>>=◌,
}
use foc_project.Session.Heard.{filled, receive_data-heard, send_data-left}
use foc_project.Login.Crypto.{Crypto}
use foc_project.Login.Ecdh.{deserialize_public_key}
use foc_project.Login.Sizes.{
  PeerKey, received_key, unset_key, receive_size, size_next, send_size, receive_some, key_of,
  keep_key, keep_size, receive_ephemeral_public_key,
}

-- The number that a packet of `receiveSize` holds.
abbrev pub size_in : Platform → Buffer → ℕ
size_in P packet = load64 P.host (take 8 packet)

module _ {P : Platform} where
  pub receive_some-heard :
      (n : ℕ) (s u : Session P) {bytes : Buffer}
      → receive_some P n s ≡ (next (some bytes), u)
      → (packet : Buffer) × (s.received ≡ some packet ∷ u.received) × (bytes ≡ filled n packet)
  unfolding receive_some pure
  receive_some-heard zero s u h = absurd (ground arith)
  receive_some-heard (suc n) s u h = receive_data-heard (suc n) s u h

  heard_size_next :
      (answers : List (Option Buffer)) (s u : Session P) {n : ℕ}
      → size_next P answers s ≡ (next (some n), u)
      → (packet : Buffer) × (answers ≡ some packet ∷ u.received) × (n ≡ size_in P packet)
  unfolding size_next
  heard_size_next [] s u h = absurd (ground arith)
  heard_size_next (none ∷ rest) s u h = absurd (ground arith)
  heard_size_next (some [] ∷ rest) s u h = absurd (ground arith)
  heard_size_next (some (b ∷ bs) ∷ rest) s u h = (b ∷ bs, ground arith, ground arith)

  pub receive_size-heard :
      (s u : Session P) {n : ℕ}
      → receive_size P s ≡ (next (some n), u)
      → (packet : Buffer) × (s.received ≡ some packet ∷ u.received) × (n ≡ size_in P packet)
  unfolding receive_size
  receive_size-heard s u h = heard_size_next s.received s u h

  pub send_size-left :
      (n : ℕ) (s u : Session P) {b : Bool} → send_size P n s ≡ (next b, u) → s.received ≡ u.received
  unfolding send_size
  send_size-left n s u h = send_data-left _ s u h

  continue-next :
      {A B : Type 0} (r : Flow A × Session P) (f : A → Exec P B) (u : Session P) {b : B}
      → continue {P = P} r.0 f r.1 ≡ (next b, u)
      → (a : A) × (v : Session P) × (r ≡ (next a, v)) × (f a v ≡ (next b, u))
  continue-next (next a, v) f u h = (a, v, refl, h)
  continue-next (returned c, v) f u h = absurd (ground arith)
  continue-next (raised, v) f u h = absurd (ground arith)
  continue-next (faulted, v) f u h = absurd (ground arith)
  continue-next (exited, v) f u h = absurd (ground arith)

  module _ (K : Crypto) where
    key_of-bytes :
        (bytes : Buffer) (o : Option K.Pkey) (v u : Session P) {key : K.Pkey} {kept : Buffer}
        → pure P (key_of P K bytes o) v ≡ (next (received_key key kept), u)
        → (bytes ≡ kept) × (v ≡ u)
    unfolding key_of pure
    key_of-bytes bytes none v u h = absurd (ground arith)
    key_of-bytes bytes (some key) v u h = ground arith

    keep_key-heard :
        (o : Option Buffer) (v u : Session P) {key : K.Pkey} {kept : Buffer}
        → keep_key P K o v ≡ (next (received_key key kept), u)
        → (o ≡ some kept) × (v ≡ u)
    unfolding keep_key pure
    keep_key-heard none v u h = absurd (ground arith)
    keep_key-heard (some bytes) v u h =
        let (e, q) = key_of-bytes bytes (deserialize_public_key K bytes) v u h in
        (ap (λ b. some b) e, q)

    unset-absurd :
        (b : Bool) (m : Exec P (PeerKey K)) (v u : Session P) {key : K.Pkey} {kept : Buffer}
        → (if b then pure P unset_key else m) v ≡ (next (received_key key kept), u)
        → m v ≡ (next (received_key key kept), u)
    unfolding pure
    unset-absurd true m v u h = absurd (ground arith)
    unset-absurd false m v u h = h

    keep_size-heard :
        (o : Option ℕ) (v u : Session P) {key : K.Pkey} {kept : Buffer}
        → keep_size P K o v ≡ (next (received_key key kept), u)
        → (n : ℕ) × (packet : Buffer) × (o ≡ some n)
          × (v.received ≡ some packet ∷ u.received)
          × (kept ≡ filled n packet)
    unfolding keep_size pure ◌>>=◌
    keep_size-heard none v u h = absurd (ground arith)
    keep_size-heard (some n) v u {key} {kept} h =
        let (o, w, e, h1) =
          continue-next (receive_some P n v) (keep_key P K) u
            (unset-absurd (ltb max_ephemeral_public_key_size n) _ v u h) in
        let (e1, q) = keep_key-heard o w u h1 in
        let (packet, came, same) =
          receive_some-heard n v u
            (e ∙ ap (λ x. (next x, w)) e1 ∙ ap (λ x. (next (some kept), x)) q) in
        (n, packet, refl, came, same)

    -- A key that was received is what the second packet holds, in the size that the first announces.
    pub receive_ephemeral_public_key-heard :
        (s u : Session P) {key : K.Pkey} {kept : Buffer}
        → receive_ephemeral_public_key P K s ≡ (next (received_key key kept), u)
        → (size : Buffer) × (packet : Buffer) × (s.received ≡ some size ∷ some packet ∷ u.received)
          × (kept ≡ filled (size_in P size) packet)
    unfolding receive_ephemeral_public_key ◌>>=◌
    receive_ephemeral_public_key-heard s u h =
        let (o, v, e, h1) = continue-next (receive_size P s) (keep_size P K) u h in
        let (n, packet, e1, came, same) = keep_size-heard o v u h1 in
        let (size, announced, e2) = receive_size-heard s v (e ∙ ap (λ x. (next x, v)) e1) in
        (
          size,
          packet,
          announced ∙ ap (λ x. some size ∷ x) came,
          same ∙ ap (λ x. filled x packet) e2,
        )
