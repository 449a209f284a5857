-- ===== src/Storage/Created.antt =====
-- What a file holds that core/storage.py `_atomic_create` created.
use terraformer.Base.{suc, ◌≡◌, refl, ◌∙◌, false, Option, none, some, [], ◌∷◌, Bool-cases, inl, inr}
use terraformer.Pipeline.{Outcome, returned, raised}
use terraformer.Storage.Envelope.{Bytes}
use terraformer.Storage.Files.{
  FilePath, Directory, same_path, read, exists, remove, write, World, FileSystem, Run, ◌>>=◌, ◌>>◌,
  temporary, on_disk, make_temporary, linked, link, cleaned, fill, atomic_create,
}
use terraformer.Storage.Reads.{
  same_path_refl, read-remove, temporary-ne, Ends, bind-Ends, on_disk-Ends,
}

module _ (disk : FileSystem) where
  -- A file that is created has its content.
  module _ (path temp : FilePath) (content : Bytes) (e : same_path temp path ≡ false) where
    Filled : Directory → Type 0
    Filled files = read temp files ≡ some content

    Named : Directory → Type 0
    Named files = read path files ≡ some content

    linked-Ends :
        (c : Option Bytes) (w : World) → c ≡ some content → Ends Named (linked disk c path w)
    unfolding linked Named read
    linked-Ends none w h = tt
    linked-Ends (some c) w h = elim (Bool-cases (exists path w.files)) [
      | inl x ↦ rw (x) tt
      | inr x ↦ rw (x, same_path_refl path) h
    ]

    link-Ends : (w : World) → read temp w.files ≡ some content → Ends Named (link disk temp path w)
    unfolding link Named
    link-Ends w h = elim (Bool-cases (disk.refuses w.clock)) [
      | inl x ↦ rw (x) tt
      | inr x ↦ rw (x) (linked-Ends (read temp w.files) w h)
    ]

    fill-Ends : (w : World) → Ends Named (fill disk path content temp w)
    unfolding fill Named Filled write read
    fill-Ends w =
        let same_files : Directory → Directory = λ files. files in
        let last = on_disk disk (remove temp) in
        let named : Run (Unit {0}) = link disk temp path >> last in
        let moded : Run (Unit {0}) = on_disk disk same_files >> named in
        let synced : Run (Unit {0}) = on_disk disk same_files >> moded in
        bind-Ends (λ u. synced) Filled Named (on_disk disk (write temp content)) w
          (on_disk-Ends disk (write temp content) Filled w (rw (same_path_refl temp) refl))
          (λ u v h1.
            bind-Ends (λ u. moded) Filled Named (on_disk disk same_files) v
              (on_disk-Ends disk same_files Filled v h1)
              (λ u v h2.
                bind-Ends (λ u. named) Filled Named (on_disk disk same_files) v
                  (on_disk-Ends disk same_files Filled v h2)
                  (λ u v h3.
                    bind-Ends (λ u. last) Named Named (link disk temp path) v (link-Ends v h3)
                      (λ u v h4.
                        on_disk-Ends disk (remove temp) Named v
                          (read-remove path temp v.files e ∙ h4)))))

    cleaned-Ends :
        (x : Outcome (Unit {0}) × World) → Ends Named x → Ends Named (cleaned disk temp x)
    unfolding cleaned on_disk
    cleaned-Ends (returned u, w) h = h
    cleaned-Ends (raised y, w) h = elim (Bool-cases (disk.refuses w.clock)) [
      | inl x ↦ rw (x) tt
      | inr x ↦ rw (x) tt
    ]

  filled-Ends :
      (path : FilePath) (content : Bytes) (w : World)
      → Ends
          (λ files. read path files ≡ some content)
          ((make_temporary disk path >>= λ temp.
              λ v. cleaned disk temp (fill disk path content temp v))
            w)
  unfolding make_temporary Named
  filled-Ends path content w =
      let temp = temporary (disk.random_name w.clock w.files) path in
      let e = temporary-ne (disk.random_name w.clock w.files) path in
      let made : World = record w { files = (temp, []) ∷ w.files; clock = suc w.clock } in
      elim (Bool-cases (disk.refuses w.clock)) [
        | inl x ↦ rw (x) tt
        | inr x ↦ rw (x) (
            cleaned-Ends path temp content e (fill disk path content temp made)
              (fill-Ends path temp content e made))
      ]

  pub atomic_create-Ends :
      (path : FilePath) (content : Bytes) (w : World)
      → Ends (λ files. read path files ≡ some content) (atomic_create disk path content w)
  unfolding atomic_create
  atomic_create-Ends path content w =
      bind-Ends
        (λ u. make_temporary disk path >>= λ temp.
          λ v. cleaned disk temp (fill disk path content temp v))
        (λ files. Unit) (λ files. read path files ≡ some content) (on_disk disk (λ files. files)) w
        (on_disk-Ends disk (λ files. files) (λ files. Unit) w tt)
        (λ u v k. filled-Ends path content v)
