-- ===== src/Storage/Files.antt =====
-- core/storage.py `_atomic_create`: a temporary file that is filled and then linked to its name.
use terraformer.Base.{
  ℕ, suc, Bool, true, false, ◌&&◌, Option, none, some, List, [], ◌∷◌, ◌++◌, if◌then◌else◌,
}
use terraformer.Text.{Text, codes, same, is_some}
use terraformer.Errors.{snapshot_immutable}
use terraformer.Pipeline.{app, fault, Outcome, returned, raised}
use terraformer.Storage.Envelope.{Bytes}

abbrev pub FilePath : Type 0
FilePath = List Text

abbrev pub Directory : Type 0
Directory = List (FilePath × Bytes)

unfoldable pub same_path : FilePath → FilePath → Bool
same_path [] [] = true
same_path [] (q ∷ qs) = false
same_path (p ∷ ps) [] = false
same_path (p ∷ ps) (q ∷ qs) = same p q && same_path ps qs

unfoldable pub is_below : FilePath → FilePath → Bool
unfolding same_path
is_below root [] = same_path root []
is_below root (p ∷ ps) = if same_path root (p ∷ ps) then true else is_below root ps

unfoldable pub read : FilePath → Directory → Option Bytes
unfolding same_path
read path [] = none
read path ((p, b) ∷ files) = if same_path p path then some b else read path files

unfoldable pub exists : FilePath → Directory → Bool
unfolding read
exists path files = is_some (read path files)

unfoldable pub remove : FilePath → Directory → Directory
unfolding same_path
remove path [] = []
remove path ((p, b) ∷ files) =
    if same_path p path then remove path files else (p, b) ∷ remove path files

unfoldable pub write : FilePath → Bytes → Directory → Directory
unfolding remove
write path b files = (path, b) ∷ remove path files

-- The files, and a clock that counts the calls to the operating system and for random bytes.
pub record World : Type 0 where
  pub files : Directory
  pub clock : ℕ

-- The operating system may refuse any call, and picks the middle of a temporary file's name.
pub record FileSystem : Type 0 where
  pub refuses : ℕ → Bool
  pub random_name : ℕ → Directory → Text

abbrev pub tick : World → World
tick w = record w { clock = suc w.clock }

abbrev pub Run : Type 0 → Type 0
Run A = World → Outcome A × World

abbrev pub continue : {A B : Type 0} → Outcome A → (A → Run B) → Run B
continue (returned a) f w = f a w
continue (raised e) f w = (raised e, w)

infixl 5 ◌>>=◌ ◌>>◌
abbrev pub ◌>>=◌ : {A B : Type 0} → Run A → (A → Run B) → Run B
◌>>=◌ m f w = let (r, w') = m w in continue r f w'

abbrev pub ◌>>◌ : {A B : Type 0} → Run A → Run B → Run B
m >> n = m >>= λ _. n

-- The name of a temporary file beside the path.
abbrev pub temporary : Text → FilePath → FilePath
temporary middle [] = (codes "." ++ middle ++ codes ".tmp") ∷ []
temporary middle (name ∷ dir) =
    (codes "." ++ (name ++ (codes "." ++ (middle ++ codes ".tmp")))) ∷ dir

module _ (disk : FileSystem) where
  -- A call that changes files.
  unfoldable pub on_disk : (Directory → Directory) → Run (Unit {0})
  on_disk change w =
      if disk.refuses w.clock
      then (raised fault, tick w)
      else (returned tt, record w { files = change w.files; clock = suc w.clock })

  unfoldable pub make_temporary : FilePath → Run FilePath
  make_temporary path w =
      let temp = temporary (disk.random_name w.clock w.files) path in
      if disk.refuses w.clock
      then (raised fault, tick w)
      else (returned temp, record w { files = (temp, []) ∷ w.files; clock = suc w.clock })

  -- A link never replaces a file.
  unfoldable pub linked : Option Bytes → FilePath → World → Outcome (Unit {0}) × World
  linked none path w = (raised fault, tick w)
  linked (some b) path w =
      if exists path w.files
      then (raised (app snapshot_immutable), tick w)
      else (returned tt, record w { files = (path, b) ∷ w.files; clock = suc w.clock })

  unfoldable pub link : FilePath → FilePath → Run (Unit {0})
  unfolding linked
  link temp path w =
      if disk.refuses w.clock then (raised fault, tick w) else linked (read temp w.files) path w

  -- The temporary file goes, whatever happened.
  unfoldable pub cleaned : FilePath → Outcome (Unit {0}) × World → Outcome (Unit {0}) × World
  unfolding on_disk
  cleaned temp (returned u, w) = (returned u, w)
  cleaned temp (raised e, w) = (on_disk (remove temp) >> λ v. (raised e, v)) w

  unfoldable pub fill : FilePath → Bytes → FilePath → Run (Unit {0})
  unfolding on_disk link
  fill path content temp = do
    on_disk (write temp content)
    on_disk (λ files. files)
    on_disk (λ files. files)
    link temp path
    on_disk (remove temp)

  unfoldable pub atomic_create : FilePath → Bytes → Run (Unit {0})
  unfolding make_temporary fill cleaned on_disk
  atomic_create path content = do
    on_disk (λ files. files)
    temp ← make_temporary path
    λ w. cleaned temp (fill path content temp w)
