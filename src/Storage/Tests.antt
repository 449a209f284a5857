-- ===== src/Storage/Tests.antt =====
-- Examples of the snapshot store, with a cipher and codecs that are simple and keep the laws.
use terraformer.Base.{
  ◌≡◌, ◌<◌, refl, sym, ap, arith, Bool-cases, inl, inr, false, none, some, List, [], ◌∷◌, ◌++◌,
  ◌==◌, length, length-append,
}
use terraformer.Text.{Text, codes, decimal, same, starts_with, join, split_on}
use terraformer.Text.Ends.{same→eq}
use terraformer.Errors.{artifact, snapshot_immutable}
use terraformer.Pipeline.{app, Outcome, returned, raised}
use terraformer.Storage.{unpacked, Codecs, StoredArtifact, SnapshotStore, safe_path, put, get}
use terraformer.Storage.Envelope.{Bytes, Cipher, CipherLaws, drop, tag_bytes}
use terraformer.Storage.Files.{
  exists, write, FilePath, Directory, read, same_path, World, FileSystem, temporary,
}
use terraformer.Storage.Reads.{FileSystemLaws}
use terraformer.Storage.Snapshots.{CodecLaws, run_puts, put-get}

-- A tag of sixteen bytes stands before the message.
abbrev tag : Bytes
tag = codes "0123456789abcdef"

abbrev cipher : Cipher
cipher = record {
  derive_key = returned (codes "key");
  token_bytes = λ n. codes "nonce-of-12b";
  seal = λ k n p a. tag ++ p;
  unseal = λ k n c a. some (drop tag_bytes c);
}

cipher_laws : CipherLaws cipher
unfolding drop
cipher_laws = record {
  length-token = λ n. refl;
  length-seal = λ k n p a. omega (arith, length-append tag p);
  unseal-seal = λ k n p a. refl;
}

abbrev codecs : Codecs
codecs = record {
  encode = some;
  decode = some;
  compress = λ b. b;
  decompress = unpacked;
  sha256 = λ b. decimal (length b);
}

codec_laws : CodecLaws codecs
codec_laws = record { decode-encode = λ t b e. sym e; decompress-compress = λ b. refl }

-- The middle of a temporary name is all the names that there are.
abbrev name_of : FilePath → Text
name_of [] = []
name_of (p ∷ ps) = p

names : Directory → Text
names [] = []
names ((p, b) ∷ files) = name_of p ++ names files

abbrev disk : FileSystem
disk = record { refuses = λ n. n == 12; random_name = λ n files. names files }

long_name-other :
    (name t : Text) (ps dir : FilePath)
    → length name < length t
    → same_path (name ∷ ps) (t ∷ dir) ≡ false
unfolding same_path
long_name-other name t ps dir h = elim (Bool-cases (same name t)) [
  | inl x ↦ let e = ap (λ (u : Text). length u) (same→eq name t x) in ground (arith, e, h)
  | inr x ↦ rw (x) refl
]

long_name-fresh :
    (files : Directory) (t : Text) (dir : FilePath)
    → length (names files) < length t
    → read (t ∷ dir) files ≡ none
unfolding read names
long_name-fresh [] t dir h = refl
long_name-fresh (([], b) ∷ files) t dir h = long_name-fresh files t dir h
long_name-fresh ((name ∷ ps, b) ∷ files) t dir h =
    let n = length-append name (names files) in
    rw (long_name-other name t ps dir (omega (arith, n, h)))
      (long_name-fresh files t dir (omega (arith, n, h)))

temporary-fresh :
    (files : Directory) (path : FilePath) → read (temporary (names files) path) files ≡ none
temporary-fresh files [] =
    long_name-fresh files (codes "." ++ (names files ++ codes ".tmp")) []
      (omega (arith, length-append (names files) (codes ".tmp")))
temporary-fresh files (name ∷ dir) =
    let a = length-append (names files) (codes ".tmp") in
    let b = length-append name (codes "." ++ (names files ++ codes ".tmp")) in
    long_name-fresh files (codes "." ++ (name ++ (codes "." ++ (names files ++ codes ".tmp")))) dir
      (omega (arith, a, b))

disk_laws : FileSystemLaws disk
disk_laws = record { fresh = λ n files path. temporary-fresh files path }

abbrev store : SnapshotStore
store = record {
  root = codes "snapshots" ∷ codes "data" ∷ [];
  cipher = cipher;
  codecs = codecs;
  disk = disk;
}

abbrev empty_disk : World
empty_disk = record { files = []; clock = 0 }

abbrev first : Outcome StoredArtifact × World
first = put store (codes "s1") (codes "d1") (codes "hostname R1") empty_disk

abbrev first_artifact : StoredArtifact
first_artifact = record {
  relative_path = codes "d1/s1.snapshot";
  sha256 = codes "11";
  plaintext_size = 11;
  compressed_size = 11;
  ciphertext_size = 49;
}

first_lem : first ≡ (returned first_artifact, first.1)
unfolding put starts_with join split_on same exists write names decimal
first_lem = refl

-- The same snapshot again, which is refused, and one that fails at a call.
abbrev later : List (Text × Text × Text)
later = (codes "s1", codes "d1", codes "other") ∷ (codes "s2", codes "d1", codes "hostname R2") ∷ []

put-get_example :
    get store
      (codes "s1")
      (codes "d1")
      first_artifact.relative_path
      first_artifact.sha256
      (run_puts store later first.1)
    ≡ returned (codes "hostname R1")
put-get_example =
    put-get store cipher_laws codec_laws disk_laws (codes "s1") (codes "d1") (codes "hostname R1")
      empty_disk first.1 first_artifact later first_lem

again_refused :
    (put store (codes "s1") (codes "d1") (codes "other") first.1).0
    ≡ raised (app snapshot_immutable)
unfolding put starts_with join split_on same exists write names
again_refused = refl

-- A path that leads out of the store, and one that comes back.
escapes_test : safe_path store.root (codes "d1/../../etc/x") ≡ raised (app artifact)
unfolding safe_path starts_with split_on same
escapes_test = refl

stays_test :
    safe_path store.root (codes "d1/../d2/./x") ≡ returned (codes "x" ∷ codes "d2" ∷ store.root)
unfolding safe_path starts_with split_on same
stays_test = refl
