-- ===== src/Storage/Reads.antt =====
-- The files of core/storage.py: what is read after a change, and what holds after calls in a row.
use terraformer.Base.{
  ℕ, ◌≡◌, refl, ◌∙◌, ap, true, false, none, some, [], ◌∷◌, ◌++◌, length, length-append, arith,
  Bool-cases, inl, inr,
}
use terraformer.Text.{Text, codes, same}
use terraformer.Text.Ends.{same→eq, same_refl}
use terraformer.Pipeline.{Outcome, returned, raised}
use terraformer.Storage.Envelope.{Bytes}
use terraformer.Storage.Files.{
  FilePath, Directory, same_path, read, remove, World, FileSystem, Run, continue, ◌>>=◌, temporary,
  on_disk,
}

-- The operating system gives a temporary file a name that no file has.
pub record FileSystemLaws (disk : FileSystem) : Type 0 where
  pub fresh :
      (n : ℕ) (files : Directory) (path : FilePath)
      → read (temporary (disk.random_name n files) path) files ≡ none

pub same_path→eq : (p q : FilePath) → same_path p q ≡ true → p ≡ q
unfolding same_path
same_path→eq [] [] e = refl
same_path→eq [] (q ∷ qs) e = cc e
same_path→eq (p ∷ ps) [] e = cc e
same_path→eq (p ∷ ps) (q ∷ qs) e =
    let a = same→eq p q (ground (arith, e)) in
    let b = same_path→eq ps qs (ground (arith, e)) in cc (a, b)

pub same_path_refl : (p : FilePath) → same_path p p ≡ true
unfolding same_path
same_path_refl [] = refl
same_path_refl (p ∷ ps) = rw (same_refl p, same_path_refl ps) refl

-- Two paths of which one is a file's and the other is not.
pub differ :
    (p q : FilePath) (b : Bytes) (files : Directory)
    → read p files ≡ some b
    → read q files ≡ none
    → same_path q p ≡ false
differ p q b files h e = elim (Bool-cases (same_path q p)) [
  | inl x ↦ cc (h, e, ap (λ (r : FilePath). read r files) (same_path→eq q p x))
  | inr x ↦ x
]

pub read-add :
    (p q : FilePath) (c : Bytes) (files : Directory)
    → same_path q p ≡ false
    → read p ((q, c) ∷ files) ≡ read p files
unfolding read
read-add p q c files e = rw (e) refl

pub read-remove :
    (p q : FilePath) (files : Directory)
    → same_path q p ≡ false
    → read p (remove q files) ≡ read p files
unfolding read remove
read-remove p q [] e = refl
read-remove p q ((r, c) ∷ files) e = elim (Bool-cases (same_path r q)) [
  | inl x ↦
      rw (x, ap (λ (u : FilePath). same_path u p) (same_path→eq r q x) ∙ e)
        (read-remove p q files e)
  | inr x ↦ elim (Bool-cases (same_path r p)) [
    | inl y ↦ rw (x, y) refl
    | inr y ↦ rw (x, y) (read-remove p q files e)
  ]
]

longer :
    (name middle : Text)
    → same (codes "." ++ (name ++ (codes "." ++ (middle ++ codes ".tmp")))) name ≡ false
longer name middle =
    elim (Bool-cases (same (codes "." ++ (name ++ (codes "." ++ (middle ++ codes ".tmp")))) name)) [
      | inl x ↦
          let e =
            ap (λ (t : Text). length t)
              (same→eq (codes "." ++ (name ++ (codes "." ++ (middle ++ codes ".tmp")))) name x) in
          let n = length-append name (codes "." ++ (middle ++ codes ".tmp")) in ground (arith, e, n)
      | inr x ↦ x
    ]

-- The temporary file of a path is another file.
pub temporary-ne :
    (middle : Text) (path : FilePath) → same_path (temporary middle path) path ≡ false
unfolding same_path
temporary-ne middle [] = refl
temporary-ne middle (name ∷ dir) = rw (longer name middle) refl

-- What holds of the files after a call, if it returns; and in any case.
abbrev pub Ends : {A : Type 0} → (Directory → Type 0) → Outcome A × World → Type 0
Ends P (returned a, w) = P w.files
Ends P (raised e, w) = Unit

abbrev pub Always : {A : Type 0} → (Directory → Type 0) → Outcome A × World → Type 0
Always P (r, w) = P w.files

module _ {A B : Type 0} (f : A → Run B) (P Q : Directory → Type 0) where
  continue-Ends :
      (x : Outcome A × World)
      → Ends P x
      → ((a : A) (v : World) → P v.files → Ends Q (f a v))
      → Ends Q (continue x.0 f x.1)
  continue-Ends (returned a, v) h k = k a v h
  continue-Ends (raised e, v) h k = tt

  pub bind-Ends :
      (m : Run A) (w : World)
      → Ends P (m w)
      → ((a : A) (v : World) → P v.files → Ends Q (f a v))
      → Ends Q ((m >>= f) w)
  bind-Ends m w h k = continue-Ends (m w) h k

module _ {A B : Type 0} (f : A → Run B) (P : Directory → Type 0) where
  continue-Always :
      (x : Outcome A × World)
      → Always P x
      → ((a : A) (v : World) → P v.files → Always P (f a v))
      → Always P (continue x.0 f x.1)
  continue-Always (returned a, v) h k = k a v h
  continue-Always (raised e, v) h k = h

  pub bind-Always :
      (m : Run A) (w : World)
      → Always P (m w)
      → ((a : A) (v : World) → P v.files → Always P (f a v))
      → Always P ((m >>= f) w)
  bind-Always m w h k = continue-Always (m w) h k

module _ (disk : FileSystem) where
  pub on_disk-Ends :
      (change : Directory → Directory) (P : Directory → Type 0) (w : World)
      → P (change w.files)
      → Ends P (on_disk disk change w)
  unfolding on_disk
  on_disk-Ends change P w h = elim (Bool-cases (disk.refuses w.clock)) [
    | inl e ↦ rw (e) tt
    | inr e ↦ rw (e) h
  ]

  pub on_disk-Always :
      (change : Directory → Directory) (P : Directory → Type 0) (w : World)
      → P w.files
      → P (change w.files)
      → Always P (on_disk disk change w)
  unfolding on_disk
  on_disk-Always change P w g h = elim (Bool-cases (disk.refuses w.clock)) [
    | inl e ↦ rw (e) g
    | inr e ↦ rw (e) h
  ]
