-- ===== src/Worker/Files.antt =====
-- The files that allocating and unlinking leave.
use kimina_lean_server.Base.{
  String, String_discrete, true, false, ◌&&◌, ◌||◌, not, ◌≡◌, some, List, [], ◌∷◌, ◌++◌, mem,
  mem-append, discard, mem-discard, Distinct, Distinct-snoc, arith,
}
use kimina_lean_server.Worker.{allocate_state_path, unlink_paths}

pub allocate-fresh :
    (names files : List String) (path : String)
    → allocate_state_path names files ≡ some path
    → mem String_discrete path files ≡ false
unfolding allocate_state_path
allocate-fresh [] files path h = cc
allocate-fresh (name ∷ names) files path h = ground (arith, allocate-fresh names files path)

pub mem-unlink_paths :
    (f : String) (paths files : List String)
    → mem String_discrete f (unlink_paths paths files)
      ≡ (mem String_discrete f files && not (mem String_discrete f paths))
unfolding unlink_paths mem
mem-unlink_paths f [] files = ground arith
mem-unlink_paths f (path ∷ paths) files =
    rw
      (
        mem-unlink_paths f paths (discard String_discrete path files),
        mem-discard String_discrete path f files,
      )
      (ground arith)

-- Beside the files that were there before, the directory has the written ones, each once.
abbrev pub Adds : List String → List String → List String → Type 0
Adds before written files =
    ((f : String)
      → mem String_discrete f files
        ≡ (mem String_discrete f before || mem String_discrete f written))
    × Distinct String_discrete written
    × ((f : String) → mem String_discrete f written ≡ true → mem String_discrete f before ≡ false)

pub nothing-Adds : (files : List String) → Adds files [] files
unfolding mem
nothing-Adds files = (λ f. ground arith, tt, λ f h. cc)

pub write-Adds :
    (before written files : List String) (path : String)
    → Adds before written files
    → mem String_discrete path files ≡ false
    → Adds before (written ++ path ∷ []) (path ∷ files)
unfolding mem
write-Adds before written files path (m, d, a) h = (
  λ f. ground (arith, m f, mem-append String_discrete f written (path ∷ [])),
  Distinct-snoc String_discrete path written d (ground (arith, m path)),
  λ f k. ground (arith, m f, m path, a f, mem-append String_discrete f written (path ∷ [])),
)

pub unlink-Adds :
    (before written files : List String)
    → Adds before written files
    → Adds before [] (unlink_paths written files)
unfolding mem
unlink-Adds before written files (m, d, a) =
    (λ f. rw (mem-unlink_paths f written files, m f) (ground (arith, a f)), tt, λ f h. cc)

pub undo-Adds :
    (before written files : List String) (path : String)
    → Adds before written files
    → mem String_discrete path files ≡ false
    → Adds before written (discard String_discrete path (path ∷ files))
unfolding mem
undo-Adds before written files path (m, d, a) h =
    (λ f. ground (arith, m f, mem-discard String_discrete path f (path ∷ files)), d, a)
