-- ===== src/Storage.antt =====
-- core/storage.py and the envelope of core/security.py: the snapshots as encrypted files that are
-- written once. A path lists its components from the innermost on. There are no symbolic links.
pub mod Envelope
pub mod Files
pub mod Reads
pub mod Kept
pub mod Created
pub mod Snapshots
pub mod Tests
use terraformer.Base.{
  ℕ, Bool, true, false, not, ◌||◌, Option, none, some, List, [], ◌∷◌, ◌++◌, if◌then◌else◌, length,
  is_empty,
}
use terraformer.Text.{Text, codes, same, split_on, join, starts_with, after_prefix}
use terraformer.Errors.{artifact, artifact_integrity, snapshot_immutable}
use terraformer.Pipeline.{app, fault, Outcome, returned, raised}
use Envelope.{Bytes, Cipher, encrypt, decrypt}
use Files.{
  FilePath, Directory, World, FileSystem, is_below, read, exists, tick, on_disk, atomic_create,
}

-- What gzip makes of a stream: its text, one of the errors that are caught, or any other.
pub data Unpacked : Type 0 where
  unpacked : Bytes → Unpacked
  bad_stream other_error : Unpacked

-- The codecs of the language's library: a text with a lone surrogate has no encoding.
pub record Codecs : Type 0 where
  pub encode : Text → Option Bytes
  pub decode : Bytes → Option Text
  pub compress : Bytes → Bytes
  pub decompress : Bytes → Unpacked
  pub sha256 : Bytes → Text

pub record StoredArtifact : Type 0 where
  pub relative_path : Text
  pub sha256 : Text
  pub plaintext_size : ℕ
  pub compressed_size : ℕ
  pub ciphertext_size : ℕ

-- `EncryptedSnapshotStore` with the directory that it is rooted in.
pub record SnapshotStore : Type 0 where
  pub root : FilePath
  pub cipher : Cipher
  pub codecs : Codecs
  pub disk : FileSystem

abbrev pub snapshot_magic : Bytes
snapshot_magic = codes "TFSP1"

unfoldable pub snapshot_aad : Text → Text → Bytes
snapshot_aad snapshot_id device_id = codes "snapshot:v1:" ++ snapshot_id ++ codes ":" ++ device_id

-- `resolve`, from a directory on: `..` leads out of it.
unfoldable pub resolved : FilePath → List Text → FilePath
resolved path [] = path
resolved path (p ∷ ps) =
    if same p (codes "..") then resolved (out path) ps else resolved (p ∷ path) ps
  where
    out : FilePath → FilePath
    out [] = []
    out (p ∷ ps) = ps

unfoldable pub safe_parts : FilePath → List Text → Outcome FilePath
unfolding resolved is_below
safe_parts root parts =
    if is_below root (resolved root parts)
    then returned (resolved root parts)
    else raised (app artifact)

-- The components of a relative path.
unfoldable pub path_parts : List Text → List Text
path_parts [] = []
path_parts (p ∷ ps) = if is_empty p || same p (codes ".") then path_parts ps else p ∷ path_parts ps

-- `_safe_path`.
unfoldable pub safe_path : FilePath → Text → Outcome FilePath
unfolding safe_parts path_parts
safe_path root p =
    if starts_with (codes "/") p
    then raised (app artifact)
    else safe_parts root (path_parts (split_on 47 p))

abbrev pub file_name : Text → Text
file_name snapshot_id = snapshot_id ++ codes ".snapshot"

abbrev pub relative_to_root : Text → Text → Text
relative_to_root snapshot_id device_id = join (codes "/") (device_id ∷ file_name snapshot_id ∷ [])

module _ (store : SnapshotStore) where
  artifact_of : Text → Text → Bytes → Bytes → StoredArtifact
  artifact_of snapshot_id device_id plaintext encrypted = record {
    relative_path = relative_to_root snapshot_id device_id;
    sha256 = store.codecs.sha256 plaintext;
    plaintext_size = length plaintext;
    compressed_size = length (store.codecs.compress plaintext);
    ciphertext_size = length encrypted;
  }

  -- The file is created unless it is there already.
  create : Outcome FilePath → Bytes → World → Outcome (Unit {0}) × World
  unfolding atomic_create
  create (raised e) encrypted w = (raised e, w)
  create (returned path) encrypted w =
      if exists path w.files
      then (raised (app snapshot_immutable), w)
      else atomic_create store.disk path encrypted w

  stored : StoredArtifact → Outcome (Unit {0}) × World → Outcome StoredArtifact × World
  stored a (returned u, w) = (returned a, w)
  stored a (raised e, w) = (raised e, w)

  put_sealed : Text → Text → Bytes → Outcome Bytes → World → Outcome StoredArtifact × World
  unfolding create stored artifact_of safe_path
  put_sealed snapshot_id device_id plaintext (raised e) w = (raised e, w)
  put_sealed snapshot_id device_id plaintext (returned sealed) w =
      let encrypted = snapshot_magic ++ sealed in
      stored (artifact_of snapshot_id device_id plaintext encrypted)
        (create (safe_path store.root (relative_to_root snapshot_id device_id)) encrypted w)

  put_encoded : Text → Text → Option Bytes → World → Outcome StoredArtifact × World
  unfolding put_sealed encrypt snapshot_aad
  put_encoded snapshot_id device_id none w = (raised fault, w)
  put_encoded snapshot_id device_id (some plaintext) w =
      put_sealed snapshot_id device_id plaintext
        (encrypt store.cipher w.clock (store.codecs.compress plaintext)
          (snapshot_aad snapshot_id device_id))
        (tick w)

  unfoldable pub put : Text → Text → Text → World → Outcome StoredArtifact × World
  unfolding put_encoded
  put snapshot_id device_id content w =
      put_encoded snapshot_id device_id (store.codecs.encode content) w

  decoded : Option Text → Outcome Text
  decoded none = raised (app artifact_integrity)
  decoded (some content) = returned content

  -- The hash of the content is the one that the row holds.
  verified : Text → Unpacked → Outcome Text
  unfolding decoded
  verified expected bad_stream = raised (app artifact_integrity)
  verified expected other_error = raised fault
  verified expected (unpacked plaintext) =
      if same (store.codecs.sha256 plaintext) expected
      then decoded (store.codecs.decode plaintext)
      else raised (app artifact_integrity)

  opened : Text → Outcome Bytes → Outcome Text
  unfolding verified
  opened expected (raised e) = raised e
  opened expected (returned compressed) = verified expected (store.codecs.decompress compressed)

  without_magic : Text → Text → Text → Option Bytes → Outcome Text
  unfolding opened decrypt snapshot_aad
  without_magic snapshot_id device_id expected none = raised (app artifact_integrity)
  without_magic snapshot_id device_id expected (some envelope) =
      opened expected (decrypt store.cipher envelope (snapshot_aad snapshot_id device_id))

  -- A file that is there can be read.
  from_file : Text → Text → Text → Option Bytes → Outcome Text
  unfolding without_magic
  from_file snapshot_id device_id expected none = raised (app artifact)
  from_file snapshot_id device_id expected (some encrypted) =
      without_magic snapshot_id device_id expected (after_prefix snapshot_magic encrypted)

  at_path : Text → Text → Text → Outcome FilePath → World → Outcome Text
  unfolding from_file
  at_path snapshot_id device_id expected (raised e) w = raised e
  at_path snapshot_id device_id expected (returned path) w =
      from_file snapshot_id device_id expected (read path w.files)

  unfoldable pub get : Text → Text → Text → Text → World → Outcome Text
  unfolding at_path safe_path
  get snapshot_id device_id relative_path expected w =
      at_path snapshot_id device_id expected (safe_path store.root relative_path) w
