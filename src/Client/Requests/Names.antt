-- ===== src/Client/Requests/Names.antt =====
-- The names that `Client::list_files` of client/Client.cpp prints, and those that the server joined.
use foc_project.Prelude.{
  ℕ, ◌≡◌, ◌≢◌, refl, sym, ap, ◌∙◌, false, List, [], ◌∷◌, ◌++◌, ◌==◌, All, append_assoc, append-nil,
  arith,
}
use foc_project.Memory.{Buffer}
use foc_project.Files.File.{join_names}
use foc_project.Client.Requests.{tokens, tokens_from, last_token}

-- A name that a list can hold.
pub record IsListed (name : Buffer) : Type 0 where
  pub not_empty : name ≢ []
  pub no_comma : All (λ b. b ≢ b',') name

-- The text behind the first name.
abbrev behind : List Buffer → Buffer
behind [] = []
behind (name ∷ names) = b',' ∷ (name ++ behind names)

join_names-behind :
    (c : ℕ) (cs : Buffer) (names : List Buffer)
    → join_names (c ∷ cs) names ≡ (c ∷ cs) ++ behind names
unfolding join_names
join_names-behind c cs [] = sym (append-nil (c ∷ cs))
join_names-behind c cs (name ∷ names) =
    join_names-behind c (cs ++ (b',' ∷ name)) names
    ∙ append_assoc (c ∷ cs) (b',' ∷ name) (behind names)

-- A name without a comma is read up to what follows it.
tokens_from-append :
    (current name text : Buffer)
    → All (λ b. b ≢ b',') name
    → tokens_from current (name ++ text) ≡ tokens_from (current ++ name) text
unfolding tokens_from
tokens_from-append current [] text h = rw (append-nil current) refl
tokens_from-append current (c ∷ cs) text (n, h) =
    let other : (c == b',') ≡ false = ground (arith, n) in
    rw (tokens_from, other)
      (tokens_from-append (current ++ (c ∷ [])) cs text h
        ∙ ap (λ b. tokens_from b text) (append_assoc current (c ∷ []) cs))

last_token_lem : (name : Buffer) → name ≢ [] → last_token name ≡ name ∷ []
unfolding last_token
last_token_lem [] h = absurd (h refl)
last_token_lem (b ∷ bs) h = refl

tokens_from-behind :
    (name : Buffer) (names : List Buffer)
    → IsListed name
    → All IsListed names
    → tokens_from name (behind names) ≡ name ∷ names
unfolding tokens_from
tokens_from-behind name [] h hs = last_token_lem name h.not_empty
tokens_from-behind name (n ∷ ns) h (k, ks) =
    ap (◌∷◌ name) (tokens_from-append [] n (behind ns) k.no_comma ∙ tokens_from-behind n ns k ks)

-- What the client prints for the text into which the server joins names is those names, in order,
-- if none of them is empty or has a comma.
pub tokens-join_names :
    (names : List Buffer) → All IsListed names → tokens (join_names [] names) ≡ names
unfolding tokens join_names tokens_from
tokens-join_names [] h = refl
tokens-join_names ([] ∷ names) (h, hs) = absurd (h.not_empty refl)
tokens-join_names ((c ∷ cs) ∷ names) (h, hs) =
    ap (tokens_from []) (join_names-behind c cs names)
    ∙ (tokens_from-append [] (c ∷ cs) (behind names) h.no_comma
        ∙ tokens_from-behind (c ∷ cs) names h hs)
