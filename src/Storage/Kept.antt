-- ===== src/Storage/Kept.antt =====
-- What a file of the snapshot store holds stays there (core/storage.py `_atomic_create`).
use terraformer.Base.{suc, ◌≡◌, ◌∙◌, false, Option, none, some, [], ◌∷◌, Bool-cases, inl, inr}
use terraformer.Pipeline.{Outcome, returned, raised}
use terraformer.Storage.Envelope.{Bytes}
use terraformer.Storage.Files.{
  FilePath, Directory, same_path, read, exists, remove, write, World, FileSystem, Run, ◌>>=◌, ◌>>◌,
  temporary, on_disk, make_temporary, linked, link, cleaned, fill, atomic_create,
}
use terraformer.Storage.Reads.{
  FileSystemLaws, differ, read-add, read-remove, Always, bind-Always, on_disk-Always,
}

module _ (disk : FileSystem) where
  -- A file that is neither the new one nor the temporary one stays as it is.
  module _ (p path temp : FilePath) (b : Bytes) (e : same_path temp p ≡ false)
      (n : same_path path p ≡ false) where
    Holds : Directory → Type 0
    Holds files = read p files ≡ some b

    linked-keeps :
        (c : Option Bytes) (w : World)
        → read p w.files ≡ some b
        → Always Holds (linked disk c path w)
    unfolding linked Holds
    linked-keeps none w h = h
    linked-keeps (some c) w h = elim (Bool-cases (exists path w.files)) [
      | inl x ↦ rw (x) h
      | inr x ↦ rw (x) (read-add p path c w.files n ∙ h)
    ]

    link-keeps : (w : World) → read p w.files ≡ some b → Always Holds (link disk temp path w)
    unfolding link Holds
    link-keeps w h = elim (Bool-cases (disk.refuses w.clock)) [
      | inl x ↦ rw (x) h
      | inr x ↦ rw (x) (linked-keeps (read temp w.files) w h)
    ]

    removed : (files : Directory) → read p files ≡ some b → read p (remove temp files) ≡ some b
    removed files h = read-remove p temp files e ∙ h

    cleaned-keeps :
        (x : Outcome (Unit {0}) × World) → Always Holds x → Always Holds (cleaned disk temp x)
    unfolding cleaned Holds
    cleaned-keeps (returned u, w) h = h
    cleaned-keeps (raised y, w) h =
        bind-Always (λ u. λ v. (raised y, v)) Holds (on_disk disk (remove temp)) w
          (on_disk-Always disk (remove temp) Holds w h (removed w.files h)) (λ u v k. k)

    fill-keeps :
        (content : Bytes) (w : World)
        → read p w.files ≡ some b
        → Always Holds (fill disk path content temp w)
    unfolding fill Holds write
    fill-keeps content w h =
        let same_files : Directory → Directory = λ files. files in
        let last = on_disk disk (remove temp) in
        let named : Run (Unit {0}) = link disk temp path >> last in
        let moded : Run (Unit {0}) = on_disk disk same_files >> named in
        let synced : Run (Unit {0}) = on_disk disk same_files >> moded in
        bind-Always (λ u. synced) Holds (on_disk disk (write temp content)) w
          (on_disk-Always disk (write temp content) Holds w h
            (read-add p temp content (remove temp w.files) e ∙ removed w.files h))
          (λ u v h1.
            bind-Always (λ u. moded) Holds (on_disk disk same_files) v
              (on_disk-Always disk same_files Holds v h1 h1)
              (λ u v h2.
                bind-Always (λ u. named) Holds (on_disk disk same_files) v
                  (on_disk-Always disk same_files Holds v h2 h2)
                  (λ u v h3.
                    bind-Always (λ u. last) Holds (link disk temp path) v (link-keeps v h3)
                      (λ u v h4.
                        on_disk-Always disk (remove temp) Holds v h4 (removed v.files h4)))))

  module _ (laws : FileSystemLaws disk) (p path : FilePath) (b content : Bytes)
      (n : same_path path p ≡ false) where
    filled-keeps :
        (w : World)
        → read p w.files ≡ some b
        → read p
            ((make_temporary disk path >>= λ temp.
                λ v. cleaned disk temp (fill disk path content temp v))
              w).1.files
          ≡ some b
    unfolding make_temporary Holds
    filled-keeps w h =
        let temp = temporary (disk.random_name w.clock w.files) path in
        let e = differ p temp b w.files h (laws.fresh w.clock w.files path) in
        let made : World = record w { files = (temp, []) ∷ w.files; clock = suc w.clock } in
        elim (Bool-cases (disk.refuses w.clock)) [
          | inl x ↦ rw (x) h
          | inr x ↦ rw (x) (
              cleaned-keeps p path temp b e n (fill disk path content temp made)
                (fill-keeps p path temp b e n content made (read-add p temp [] w.files e ∙ h)))
        ]

    pub atomic_create-keeps :
        (w : World)
        → read p w.files ≡ some b
        → read p (atomic_create disk path content w).1.files ≡ some b
    unfolding atomic_create
    atomic_create-keeps w h =
        bind-Always
          (λ u. make_temporary disk path >>= λ temp.
            λ v. cleaned disk temp (fill disk path content temp v))
          (λ files. read p files ≡ some b) (on_disk disk (λ files. files)) w
          (on_disk-Always disk (λ files. files) (λ files. read p files ≡ some b) w h h)
          (λ u v k. filled-keeps v k)
