-- ===== src/Login/Sizes.antt =====
-- `receiveSize`, `sendSize` and `receiveEphemeralPublicKey` of security/Util.cpp.
pub mod Quiet
pub mod Heard
use foc_project.Prelude.{
  ℕ, zero, suc, Bool, true, false, Option, none, some, List, [], ◌∷◌, length, take, leb, ltb,
  if◌then◌else◌,
}
use foc_project.Memory.{Buffer}
use foc_project.Words.{store64, load64}
use foc_project.Security.Login.{max_ephemeral_public_key_size}
use foc_project.Platform.{Platform}
use foc_project.Session.{
  Session, Flow, next, faulted, Exec, pure, ◌>>=◌, ◌>>◌, send_data, receive_data,
}
use foc_project.Login.Crypto.{Crypto}
use foc_project.Login.Ecdh.{deserialize_public_key}

-- What `receiveEphemeralPublicKey` leaves in its two references: a key and its bytes, a null pointer,
-- or a pointer that was not set.
pub data PeerKey (K : Crypto) : Type 0 where
  received_key : K.Pkey → Buffer → PeerKey K
  no_key unset_key : PeerKey K

module _ (P : Platform) where
  size_next : List (Option Buffer) → Exec P (Option ℕ)
  size_next [] s = (next none, s)
  size_next (none ∷ rest) s = (next none, record s { received = rest })
  size_next (some [] ∷ rest) s = (next none, record s { received = rest })
  size_next (some (b ∷ bs) ∷ rest) s =
      if leb 8 (length (b ∷ bs))
      then (next (some (load64 P.host (take 8 (b ∷ bs)))), record s { received = rest })
      else (faulted, record s { received = rest })

  -- A number of which not all bytes come is left partly unset, and is then read.
  unfoldable pub receive_size : Exec P (Option ℕ)
  unfolding size_next
  receive_size s = size_next s.received s

  unfoldable pub send_size : ℕ → Exec P Bool
  send_size number = send_data P (store64 P.host number)

  -- `receiveData` into a vector of any size; `recv` gives 0 for an empty one.
  unfoldable pub receive_some : ℕ → Exec P (Option Buffer)
  receive_some zero = pure P none
  receive_some (suc n) = receive_data P (suc n)

  module _ (K : Crypto) where
    key_of : Buffer → Option K.Pkey → PeerKey K
    key_of serialized_key none = no_key
    key_of serialized_key (some key) = received_key key serialized_key

    keep_key : Option Buffer → Exec P (PeerKey K)
    keep_key none = pure P unset_key
    keep_key (some serialized_key) =
        pure P (key_of serialized_key (deserialize_public_key K serialized_key))

    keep_size : Option ℕ → Exec P (PeerKey K)
    unfolding keep_key key_of
    keep_size none = pure P unset_key
    keep_size (some size) =
        if ltb max_ephemeral_public_key_size size
        then pure P unset_key
        else (do serialized_key ← receive_some size; keep_key serialized_key)

    unfoldable pub receive_ephemeral_public_key : Exec P (PeerKey K)
    unfolding keep_size
    receive_ephemeral_public_key = do size ← receive_size; keep_size size
