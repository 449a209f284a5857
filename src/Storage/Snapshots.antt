-- ===== src/Storage/Snapshots.antt =====
-- A snapshot that was put is got again, whatever is put after it (core/storage.py).
use terraformer.Base.{
  ℕ, ◌≡◌, refl, sym, subst, false, Option, none, some, List, [], ◌∷◌, ◌++◌, Bool-cases, inl, inr,
}
use terraformer.Text.{Text, is_some}
use terraformer.Text.Ends.{after_prefix-append, same_refl}
use terraformer.Pipeline.{Outcome, returned, raised}
use terraformer.Storage.{
  unpacked, Codecs, StoredArtifact, SnapshotStore, snapshot_magic, snapshot_aad, safe_path,
  relative_to_root, artifact_of, create, stored, put_sealed, put_encoded, put, get, at_path,
  from_file, without_magic, opened, verified, decoded,
}
use terraformer.Storage.Envelope.{Bytes, CipherLaws, encrypt, decrypt}
use terraformer.Storage.Envelope.Opens.{decrypt-encrypt}
use terraformer.Storage.Files.{FilePath, Directory, World, read, exists, tick}
use terraformer.Storage.Reads.{FileSystemLaws, differ, Ends}
use terraformer.Storage.Kept.{atomic_create-keeps}
use terraformer.Storage.Created.{atomic_create-Ends}

-- The codecs undo what they did.
pub record CodecLaws (c : Codecs) : Type 0 where
  pub decode-encode : (t : Text) (b : Bytes) → c.encode t ≡ some b → c.decode b ≡ some t
  pub decompress-compress : (b : Bytes) → c.decompress (c.compress b) ≡ unpacked b

-- Puts in a row: the snapshot, its device and the content.
unfoldable pub run_puts : SnapshotStore → List (Text × Text × Text) → World → World
unfolding put
run_puts store [] w = w
run_puts store ((snapshot_id, device_id, content) ∷ later) w =
    run_puts store later (put store snapshot_id device_id content w).1

module _ (store : SnapshotStore) (cipher_laws : CipherLaws store.cipher)
    (codec_laws : CodecLaws store.codecs) (disk_laws : FileSystemLaws store.disk) where
  -- The files hold the content as the artifact says.
  record IsStored (snapshot_id device_id content : Text) (a : StoredArtifact) (files : Directory)
      : Type 0 where
    path : FilePath
    plaintext : Bytes
    envelope : Bytes
    at : safe_path store.root a.relative_path ≡ returned path
    held : read path files ≡ some (snapshot_magic ++ envelope)
    sealed :
        decrypt store.cipher envelope (snapshot_aad snapshot_id device_id)
        ≡ returned (store.codecs.compress plaintext)
    digest : store.codecs.sha256 plaintext ≡ a.sha256
    encoded : store.codecs.decode plaintext ≡ some content

  get-IsStored :
      (snapshot_id device_id content : Text) (a : StoredArtifact) (w : World)
      → IsStored snapshot_id device_id content a w.files
      → get store snapshot_id device_id a.relative_path a.sha256 w ≡ returned content
  unfolding get at_path from_file without_magic opened verified decoded
  get-IsStored s d content a w k =
      rw
        (
          k.at,
          k.held,
          after_prefix-append snapshot_magic k.envelope,
          k.sealed,
          codec_laws.decompress-compress k.plaintext,
          k.digest,
          same_refl a.sha256,
          k.encoded,
        )
        refl

  -- A put that returns has stored the content.
  Good : Text → Text → Text → Outcome StoredArtifact × World → Type 0
  Good s d content (returned a, w) = IsStored s d content a w.files
  Good s d content (raised e, w) = Unit

  stored-Good :
      (s d content : Text) (a : StoredArtifact) (x : Outcome (Unit {0}) × World)
      → Ends (λ files. IsStored s d content a files) x
      → Good s d content (stored store a x)
  unfolding stored Good
  stored-Good s d content a (returned u, w) h = h
  stored-Good s d content a (raised e, w) h = tt

  weaken-Ends :
      (P Q : Directory → Type 0) (x : Outcome (Unit {0}) × World)
      → ((files : Directory) → P files → Q files)
      → Ends P x
      → Ends Q x
  weaken-Ends P Q (returned u, w) f h = f w.files h
  weaken-Ends P Q (raised e, w) f h = tt

  create-Ends :
      (path : FilePath) (encrypted : Bytes) (w : World)
      → Ends (λ files. read path files ≡ some encrypted) (create store (returned path) encrypted w)
  unfolding create
  create-Ends path encrypted w = elim (Bool-cases (exists path w.files)) [
    | inl e ↦ rw (e) tt
    | inr e ↦ rw (e) (atomic_create-Ends store.disk path encrypted w)
  ]

  placed-Ends :
      (s d content : Text) (a : StoredArtifact) (plaintext envelope : Bytes) (r : Outcome FilePath)
      (w : World)
      → safe_path store.root a.relative_path ≡ r
      → decrypt store.cipher envelope (snapshot_aad s d)
        ≡ returned (store.codecs.compress plaintext)
      → store.codecs.sha256 plaintext ≡ a.sha256
      → store.codecs.decode plaintext ≡ some content
      → Ends (λ files. IsStored s d content a files) (create store r (snapshot_magic ++ envelope) w)
  unfolding create
  placed-Ends s d content a plaintext envelope (raised e) w p q m c = tt
  placed-Ends s d content a plaintext envelope (returned path) w p q m c =
      weaken-Ends (λ files. read path files ≡ some (snapshot_magic ++ envelope))
        (λ files. IsStored s d content a files)
        (create store (returned path) (snapshot_magic ++ envelope) w)
        (λ files h. record {
          path = path;
          plaintext = plaintext;
          envelope = envelope;
          at = p;
          held = h;
          sealed = q;
          digest = m;
          encoded = c;
        })
        (create-Ends path (snapshot_magic ++ envelope) w)

  put_sealed-Good :
      (s d content : Text) (plaintext : Bytes) (q : Outcome Bytes) (now : ℕ) (w : World)
      → encrypt store.cipher now (store.codecs.compress plaintext) (snapshot_aad s d) ≡ q
      → store.codecs.decode plaintext ≡ some content
      → Good s d content (put_sealed store s d plaintext q w)
  unfolding put_sealed Good artifact_of
  put_sealed-Good s d content plaintext (raised e) now w k c = tt
  put_sealed-Good s d content plaintext (returned envelope) now w k c =
      stored-Good s d content (artifact_of store s d plaintext (snapshot_magic ++ envelope))
        (create store (safe_path store.root (relative_to_root s d)) (snapshot_magic ++ envelope) w)
        (placed-Ends s d content (artifact_of store s d plaintext (snapshot_magic ++ envelope))
          plaintext envelope (safe_path store.root (relative_to_root s d)) w refl
          (decrypt-encrypt store.cipher cipher_laws now (store.codecs.compress plaintext)
            (snapshot_aad s d) envelope k)
          refl c)

  put_encoded-Good :
      (s d content : Text) (o : Option Bytes) (w : World)
      → store.codecs.encode content ≡ o
      → Good s d content (put_encoded store s d o w)
  unfolding put_encoded Good
  put_encoded-Good s d content none w k = tt
  put_encoded-Good s d content (some plaintext) w k =
      put_sealed-Good s d content plaintext
        (encrypt store.cipher w.clock (store.codecs.compress plaintext) (snapshot_aad s d)) w.clock
        (tick w) refl (codec_laws.decode-encode content plaintext k)

  absent : (o : Option Bytes) → is_some o ≡ false → o ≡ none
  absent none e = refl
  absent (some b) e = cc e

  -- A put leaves the files that are there.
  create-keeps :
      (r : Outcome FilePath) (encrypted : Bytes) (w : World) (p : FilePath) (b : Bytes)
      → read p w.files ≡ some b
      → read p (create store r encrypted w).1.files ≡ some b
  unfolding create exists
  create-keeps (raised e) encrypted w p b h = h
  create-keeps (returned path) encrypted w p b h = elim (Bool-cases (exists path w.files)) [
    | inl e ↦ rw (e) h
    | inr e ↦ rw (e) (
        atomic_create-keeps store.disk disk_laws p path b encrypted
          (differ p path b w.files h (absent (read path w.files) e)) w h)
  ]

  stored_world : (a : StoredArtifact) (x : Outcome (Unit {0}) × World) → (stored store a x).1 ≡ x.1
  unfolding stored
  stored_world a (returned u, w) = refl
  stored_world a (raised e, w) = refl

  put_sealed-keeps :
      (s d : Text) (plaintext : Bytes) (q : Outcome Bytes) (w : World) (p : FilePath) (b : Bytes)
      → read p w.files ≡ some b
      → read p (put_sealed store s d plaintext q w).1.files ≡ some b
  unfolding put_sealed
  put_sealed-keeps s d plaintext (raised e) w p b h = h
  put_sealed-keeps s d plaintext (returned envelope) w p b h =
      subst (λ (v : World). read p v.files ≡ some b)
        (sym (
          stored_world (artifact_of store s d plaintext (snapshot_magic ++ envelope)) (
            create store (safe_path store.root (relative_to_root s d)) (snapshot_magic ++ envelope)
              w)))
        (create-keeps (safe_path store.root (relative_to_root s d)) (snapshot_magic ++ envelope) w p
          b h)

  put-keeps :
      (s d : Text) (o : Option Bytes) (w : World) (p : FilePath) (b : Bytes)
      → read p w.files ≡ some b
      → read p (put_encoded store s d o w).1.files ≡ some b
  unfolding put_encoded
  put-keeps s d none w p b h = h
  put-keeps s d (some plaintext) w p b h =
      put_sealed-keeps s d plaintext
        (encrypt store.cipher w.clock (store.codecs.compress plaintext) (snapshot_aad s d)) (tick w)
        p b h

  put-IsStored :
      (s d content : Text) (w v : World) (a : StoredArtifact)
      → put store s d content w ≡ (returned a, v)
      → IsStored s d content a v.files
  unfolding put Good
  put-IsStored s d content w v a e =
      subst (Good s d content) e (put_encoded-Good s d content (store.codecs.encode content) w refl)

  puts-IsStored :
      (s d content : Text) (a : StoredArtifact) (later : List (Text × Text × Text)) (w : World)
      → IsStored s d content a w.files
      → IsStored s d content a (run_puts store later w).files
  unfolding run_puts put
  puts-IsStored s d content a [] w k = k
  puts-IsStored s d content a ((s', d', c) ∷ later) w k =
      puts-IsStored s d content a later (put store s' d' c w).1 (record {
        path = k.path;
        plaintext = k.plaintext;
        envelope = k.envelope;
        at = k.at;
        sealed = k.sealed;
        digest = k.digest;
        encoded = k.encoded;
        held =
            put-keeps s' d' (store.codecs.encode c) w k.path (snapshot_magic ++ k.envelope) k.held;
      })

  -- What a put stored is got again with the path and the hash that it returned, after any further
  -- puts, of any snapshots and also of the same one, each of which may fail at any call of the
  -- operating system: given that AES-GCM, gzip and UTF-8 undo what they did, and that the operating
  -- system names temporary files afresh.
  pub put-get :
      (snapshot_id device_id content : Text) (w v : World) (a : StoredArtifact)
      (later : List (Text × Text × Text))
      → put store snapshot_id device_id content w ≡ (returned a, v)
      → get store snapshot_id device_id a.relative_path a.sha256 (run_puts store later v)
        ≡ returned content
  put-get s d content w v a later e =
      get-IsStored s d content a (run_puts store later v)
        (puts-IsStored s d content a later v (put-IsStored s d content w v a e))
