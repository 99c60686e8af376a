-- ===== src/Login/Sizes/Quiet.antt =====
-- Sizes and keys that are received leave the rest of a session as it is.
use foc_project.Prelude.{
  ℕ, zero, suc, ◌≡◌, refl, ◌∙◌, Bool, true, false, Option, none, some, List, [], ◌∷◌, leb, ltb,
  length, if◌then◌else◌,
}
use foc_project.Memory.{Buffer}
use foc_project.Security.Login.{max_ephemeral_public_key_size}
use foc_project.Platform.{Platform}
use foc_project.Session.{
  Session, Flow, next, returned, raised, faulted, exited, Exec, pure, continue, ◌>>=◌,
}
use foc_project.Session.Quiet.{Same, Quiet, Quiet-send_data, Quiet-receive_data}
use foc_project.Login.Crypto.{Crypto}
use foc_project.Login.Ecdh.{deserialize_public_key}
use foc_project.Login.Sizes.{
  PeerKey, received_key, no_key, unset_key, receive_size, size_next, send_size, receive_some,
  key_of, keep_key, keep_size, receive_ephemeral_public_key,
}

module _ {P : Platform} where
  Same-refl : {s : Session P} → Same s s
  Same-refl {s} = record { user = refl; key = refl; disk = refl }

  pub Same-trans : {s t u : Session P} → Same s t → Same t u → Same s u
  Same-trans h k = record { user = k.user ∙ h.user; key = k.key ∙ h.key; disk = k.disk ∙ h.disk }

  Quiet-if :
      {A : Type 0} (b : Bool) (s : Session P) (x y : Flow A × Session P)
      → Quiet s x
      → Quiet s y
      → Quiet s (if b then x else y)
  Quiet-if true s x y h k = h
  Quiet-if false s x y h k = k

  Quiet-size_next :
      (answers : List (Option Buffer)) (s : Session P) → Quiet s (size_next P answers s)
  unfolding size_next
  Quiet-size_next [] s = record { user = refl; key = refl; disk = refl }
  Quiet-size_next (none ∷ rest) s = record { user = refl; key = refl; disk = refl }
  Quiet-size_next (some [] ∷ rest) s = record { user = refl; key = refl; disk = refl }
  Quiet-size_next (some (b ∷ bs) ∷ rest) s =
      Quiet-if (leb 8 (length (b ∷ bs))) s _ _ (record { user = refl; key = refl; disk = refl }) tt

  pub Quiet-receive_size : (s : Session P) → Quiet s (receive_size P s)
  unfolding receive_size
  Quiet-receive_size s = Quiet-size_next s.received s

  pub Quiet-send_size : (n : ℕ) (s : Session P) → Quiet s (send_size P n s)
  unfolding send_size
  Quiet-send_size n s = Quiet-send_data _ s

  pub Quiet-receive_some : (n : ℕ) (s : Session P) → Quiet s (receive_some P n s)
  unfolding receive_some pure
  Quiet-receive_some zero s = Same-refl
  Quiet-receive_some (suc n) s = Quiet-receive_data (suc n) s

  module _ (K : Crypto) where
    -- A key that is received was read from its bytes.
    abbrev pub Keyed : Session P → Flow (PeerKey K) × Session P → Type 0
    Keyed s (next (received_key key bytes), t) =
        Same s t × (deserialize_public_key K bytes ≡ some key)
    Keyed s (next no_key, t) = Same s t
    Keyed s (next unset_key, t) = Same s t
    Keyed s (returned c, t) = ⊥
    Keyed s (raised, t) = Unit
    Keyed s (faulted, t) = Unit
    Keyed s (exited, t) = Unit

    Keyed-key_of :
        (bytes : Buffer) (s t : Session P) (key : Option K.Pkey)
        → deserialize_public_key K bytes ≡ key
        → Same s t
        → Keyed s (next (key_of P K bytes key), t)
    unfolding key_of
    Keyed-key_of bytes s t none e h = h
    Keyed-key_of bytes s t (some key) e h = (h, e)

    Keyed-bytes :
        (r : Flow (Option Buffer) × Session P) (s : Session P)
        → Quiet s r
        → Keyed s (continue {P = P} r.0 (keep_key P K) r.1)
    unfolding keep_key pure
    Keyed-bytes (next none, t) s q = q
    Keyed-bytes (next (some bytes), t) s q =
        Keyed-key_of bytes s t (deserialize_public_key K bytes) refl q
    Keyed-bytes (returned c, t) s q = q
    Keyed-bytes (raised, t) s q = q
    Keyed-bytes (faulted, t) s q = q
    Keyed-bytes (exited, t) s q = q

    Keyed-from :
        (s u : Session P) (r : Flow (PeerKey K) × Session P) → Same s u → Keyed u r → Keyed s r
    Keyed-from s u (next (received_key key bytes), t) h (k, e) = (Same-trans h k, e)
    Keyed-from s u (next no_key, t) h k = Same-trans h k
    Keyed-from s u (next unset_key, t) h k = Same-trans h k
    Keyed-from s u (returned c, t) h k = k
    Keyed-from s u (raised, t) h k = k
    Keyed-from s u (faulted, t) h k = k
    Keyed-from s u (exited, t) h k = k

    Keyed-if :
        (b : Bool) (s : Session P) (m n : Exec P (PeerKey K))
        → Keyed s (m s)
        → Keyed s (n s)
        → Keyed s ((if b then m else n) s)
    Keyed-if true s m n h k = h
    Keyed-if false s m n h k = k

    Keyed-keep_size : (size : Option ℕ) (s : Session P) → Keyed s (keep_size P K size s)
    unfolding keep_size ◌>>=◌
    Keyed-keep_size none s = Same-refl
    Keyed-keep_size (some n) s =
        Keyed-if (ltb max_ephemeral_public_key_size n) s _ _ Same-refl
          (Keyed-bytes (receive_some P n s) s (Quiet-receive_some n s))

    Keyed-size :
        (r : Flow (Option ℕ) × Session P) (s : Session P)
        → Quiet s r
        → Keyed s (continue {P = P} r.0 (keep_size P K) r.1)
    Keyed-size (next size, t) s q = Keyed-from s t _ q (Keyed-keep_size size t)
    Keyed-size (returned c, t) s q = q
    Keyed-size (raised, t) s q = q
    Keyed-size (faulted, t) s q = q
    Keyed-size (exited, t) s q = q

    pub Keyed-receive : (s : Session P) → Keyed s (receive_ephemeral_public_key P K s)
    unfolding receive_ephemeral_public_key ◌>>=◌
    Keyed-receive s = Keyed-size (receive_size P s) s (Quiet-receive_size s)
