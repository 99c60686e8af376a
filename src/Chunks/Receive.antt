-- ===== src/Chunks/Receive.antt =====
-- The chunks of a file as they come to the side that stores it: `Worker::upload_file` of
-- server/worker.cpp and `Client::download_file` of client/Client.cpp.
use foc_project.Prelude.{
  ℕ, ◌+◌, ◌≡◌, sym, ap, ◌∙◌, Option, some, List, [], ◌∷◌, ◌++◌, append_assoc, append-nil,
}
use foc_project.Memory.{Buffer}
use foc_project.Files.FileSystem.{FileSystem, IsLawful}
use foc_project.Platform.{Platform}
use foc_project.Session.{Session}
use foc_project.Session.Arrival.{Arrives}
use foc_project.Chunks.Sizes.{concat}
use foc_project.Chunks.Send.Laws.{payload_of}

module _ {P : Platform} where
  abbrev pub accepted : (s : Session P) → List (Option Buffer) → P.files.State → Session P
  accepted s rest disk = record s { received = rest; r_counter = s.r_counter + 1; disk = disk }

  -- Chunks arrive one after the other, and the disk takes each at the end of the file at `path`.
  pub data Arriving (code : ℕ) (path : Buffer) : Session P → List Buffer → Session P → Type 0 where
    done : {s : Session P} → Arriving code path s [] s
    more :
        {s u : Session P} {chunk : Buffer} {chunks : List Buffer} {disk : P.files.State}
        (a : Arrives s (payload_of code chunk))
        → P.files.append path chunk s.disk ≡ some disk
        → Arriving code path (accepted s a.rest disk) chunks u
        → Arriving code path s (chunk ∷ chunks) u

  -- What has arrived is in the file.
  pub Arriving-open_input :
      IsLawful P.files
      → {code : ℕ} (path : Buffer) {s u : Session P} {chunks : List Buffer} {old : Buffer}
      → Arriving code path s chunks u
      → P.files.open_input path s.disk ≡ some old
      → P.files.open_input path u.disk ≡ some (old ++ concat chunks)
  Arriving-open_input law path {s} {old = old} done h = h ∙ ap (λ b. some b) (sym (append-nil old))
  Arriving-open_input law path {s} {chunks = c ∷ cs} {old} (more a w rest) h =
      Arriving-open_input law path rest (law.open_input-append path c s.disk h w)
      ∙ ap (λ b. some b) (append_assoc old c (concat cs))

  pub Arriving-append :
      {code : ℕ} {path : Buffer} (chunks rest : List Buffer) {s u : Session P}
      → Arriving code path s (chunks ++ rest) u
      → (m : Session P) × Arriving code path s chunks m × Arriving code path m rest u
  Arriving-append [] rest {s} h = (s, done, h)
  Arriving-append (c ∷ cs) rest (more a w h) =
      let (m, l, r) = Arriving-append cs rest h in (m, more a w l, r)

-- A disk takes chunks at the end of the file at `path`, one after the other.
abbrev pub Written : (F : FileSystem) → Buffer → F.State → List Buffer → F.State → Type 0
Written F path disk [] disk' = disk ≡ disk'
Written F path disk (c ∷ cs) disk' =
    (next : F.State) × (F.append path c disk ≡ some next) × Written F path next cs disk'
