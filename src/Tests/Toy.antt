-- ===== src/Tests/Toy.antt =====
-- A cipher that leaves data as they are under a tag of zeros, a disk that is a function from paths to
-- contents, and a session over both.
use foc_project.Prelude.{
  ◌≡◌, refl, sym, ap, ◌∙◌, Bool, true, false, Option, none, some, List, [], ◌∷◌, ◌++◌, ◌==◌, arith,
  length, if◌then◌else◌,
}
use foc_project.Memory.{Buffer, Result, ok, failed, thrown, undefined, zeros}
use foc_project.Memory.Laws.{length-zeros}
use foc_project.Words.{little}
use foc_project.Security.Evp.{
  Evp, IsCcm, seal, unseal, encrypt_start, encrypt_ready, decrypt_start, decrypt_ready, tag_length,
}
use foc_project.Files.FileSystem.{FileSystem, IsLawful}
use foc_project.Platform.{Platform}
use foc_project.Session.{Session, Flow}

abbrev pub matches : Buffer → Buffer → Bool
matches [] [] = true
matches [] (y ∷ ys) = false
matches (x ∷ xs) [] = false
matches (x ∷ xs) (y ∷ ys) = let rest = matches xs ys in if x == y then rest else false

matches_refl : (xs : Buffer) → matches xs xs ≡ true
matches_refl [] = refl
matches_refl (x ∷ xs) = ground (arith, matches_refl xs)

matches_sound : (xs ys : Buffer) → matches xs ys ≡ true → xs ≡ ys
matches_sound [] [] h = refl
matches_sound [] (y ∷ ys) h = absurd (ground arith)
matches_sound (x ∷ xs) [] h = absurd (ground arith)
matches_sound (x ∷ xs) (y ∷ ys) h = ground (arith, matches_sound xs ys)

-- The context is the expected tag.
abbrev pub toy_evp : Evp
toy_evp = record {
  Ctx = Buffer;
  iv_length = 2;
  key_length = 2;
  block_size = 1;
  ctx_new = some [];
  ctx_init = λ ctx. some ctx;
  set_iv_length = λ n ctx. ctx;
  set_tag_length = λ n ctx. ctx;
  set_tag = λ tag ctx. tag;
  get_tag = λ n ctx. some (zeros n);
  encrypt_init_cipher = λ ctx. some ctx;
  encrypt_init_key = λ key iv ctx. some ctx;
  encrypt_length = λ n ctx. some ctx;
  encrypt_aad = λ aad ctx. some ctx;
  encrypt_update = λ clear ctx. some (clear, ctx);
  encrypt_final = λ ctx. some ([], ctx);
  decrypt_init_cipher = λ ctx. some ctx;
  decrypt_init_key = λ key iv ctx. some ctx;
  decrypt_length = λ n ctx. some ctx;
  decrypt_aad = λ aad ctx. some ctx;
  decrypt_update =
      λ cipher tag. if matches tag (zeros tag_length) then some (cipher, tag) else none;
  decrypt_final = λ ctx. some ([], ctx);
}

pub toy_seal :
    (key iv aad clear : Buffer) → seal toy_evp key iv aad clear ≡ some (clear, zeros tag_length)
unfolding seal encrypt_start encrypt_ready
toy_seal key iv aad clear = refl

toy_unseal :
    (key iv aad tag cipher : Buffer)
    → unseal toy_evp key iv aad tag cipher
      ≡ (if matches tag (zeros tag_length) then some cipher else none)
unfolding unseal decrypt_start decrypt_ready
toy_unseal key iv aad tag cipher = ground arith

some-injective {ℓ} : {A : Type ℓ} (a b : A) → some a ≡ some b → a ≡ b
some-injective a b h = cc

pub toy-IsCcm : IsCcm toy_evp
toy-IsCcm = record {
  length-encrypt_update = λ clear ctx {out} {ctx'} h.
      ap (λ p. length p.0) (sym (some-injective (clear, ctx) (out, ctx') h));
  encrypt_final_empty =
      λ ctx {out} {ctx'} h. ap (λ p. p.0) (sym (some-injective ([], ctx) (out, ctx') h));
  length-decrypt_update = λ cipher ctx {out} {ctx'} h. ground arith;
  decrypt_final_empty =
      λ ctx {out} {ctx'} h. ap (λ p. p.0) (sym (some-injective ([], ctx) (out, ctx') h));
  length-get_tag =
      λ n ctx {tag} h. ap length (sym (some-injective (zeros n) tag h)) ∙ length-zeros n;
  unseal-seal = λ key iv aad clear {cipher} {tag} h.
      let e =
        some-injective (clear, zeros tag_length) (cipher, tag)
          (sym (toy_seal key iv aad clear) ∙ h) in
      ground (arith, e, toy_unseal key iv aad tag cipher, matches_refl (zeros tag_length));
  seal-unseal = λ key iv aad tag cipher {clear} h. ground (
    arith,
    h,
    toy_seal key iv aad clear,
    toy_unseal key iv aad tag cipher,
    matches_sound tag (zeros tag_length),
  );
}

abbrev pub Disk : Type 0
Disk = Buffer → Option Buffer

abbrev pub put : Buffer → Option Buffer → Disk → Disk
put path bytes disk q = if matches path q then bytes else disk q

abbrev is_there : Buffer → Disk → Bool
is_there path disk = elim (disk path) [ none ↦ false | some _ ↦ true ]

abbrev pub toy_files : FileSystem
toy_files = record {
  State = Disk;
  exists = λ path disk. some (is_there path disk);
  is_regular_file = λ path disk. some (is_there path disk);
  is_directory = λ path disk. some (is_there path disk);
  file_size = λ path disk. elim (disk path) [ none ↦ none | some bytes ↦ some (length bytes) ];
  open_input = λ path disk. disk path;
  open_output = λ path disk. some (put path (some []) disk);
  append = λ path bytes disk. elim (disk path) [
    | none ↦ none
    | some old ↦ some (put path (some (old ++ bytes)) disk)
  ];
  rename =
      λ path new_path disk. (is_there path disk, put path none (put new_path (disk path) disk));
  remove = λ path disk. (is_there path disk, put path none disk);
  create_directory = λ folder disk. some (true, put folder (some []) disk);
  entries = λ folder disk. some [];
}

abbrev pub toy_platform : Platform
toy_platform = record { host = little; evp = toy_evp; files = toy_files; junk = 0 }

-- What the clients' messages, the calls of `send` and RAND_bytes give are arguments.
abbrev pub toy_session : List (Option Buffer) → Disk → Session toy_platform
toy_session received disk = record {
  username = b'u' ∷ [];
  session_key = 1 ∷ 2 ∷ [];
  s_counter = 0;
  r_counter = 0;
  received = received;
  accepted = some 2_000_000 ∷ some 2_000_000 ∷ [];
  random = some (3 ∷ 4 ∷ []) ∷ some (5 ∷ 6 ∷ []) ∷ [];
  sent = [];
  disk = disk;
  console = [];
  input_good = true;
}

abbrev pub blank : Disk
blank path = none

put_same : (path : Buffer) (bytes : Option Buffer) (disk : Disk) → put path bytes disk path ≡ bytes
put_same path bytes disk = rw (matches_refl path) refl

pub toy-IsLawful : IsLawful toy_files
toy-IsLawful = record {
  open_input-open_output = λ p s {s'} h.
      ap (λ disk. disk p) (sym (some-injective (put p (some []) s) s' h)) ∙ put_same p (some []) s;
  open_input-append = λ p bytes s {s'} {old} o h.
      let put_there : toy_files.append p bytes s ≡ some (put p (some (old ++ bytes)) s) =
        rw o refl in
      ap (λ disk. disk p)
        (sym (some-injective (put p (some (old ++ bytes)) s) s' (sym put_there ∙ h)))
      ∙ put_same p (some (old ++ bytes)) s;
  file_size-open_input = λ p s {bytes} o. rw o refl;
}

-- What a call gave; used where it gave something.
abbrev pub value_of : Result Buffer → Buffer
value_of (ok b) = b
value_of failed = []
value_of thrown = []
value_of undefined = []

abbrev pub state_of : Option (Flow (Unit {0}) × Session toy_platform) → Session toy_platform
state_of none = toy_session [] blank
state_of (some (r, t)) = t
