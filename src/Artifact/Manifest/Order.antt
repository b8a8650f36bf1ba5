-- ===== src/Artifact/Manifest/Order.antt =====
-- What NewManifest makes of the files that it is given.
use mathlib.Core.List.{Perm}
use mathlib.Core.List.Perm
use pod_snapshotter.Base.{
  ℕ, ◌+◌, ◌%◌, ◌^◌, ◌<◌, ◌≡◌, refl, true, false, Option, List, [], ◌∷◌, All, All-map, arith,
  if_split,
}
use pod_snapshotter.Base.Bytes.{Bytes}
use pod_snapshotter.Artifact.Manifest.{
  ManifestFile, QuiesceInfo, less, insert_file, sort_files, total_size, new_manifest,
}

-- Not after it in the order of Go strings.
abbrev NotAfter : Bytes → Bytes → Type 0
NotAfter a b = less b a ≡ false

less-asymmetric : (a b : Bytes) → less a b ≡ true → NotAfter a b
unfolding less
less-asymmetric [] [] h = refl
less-asymmetric [] (y ∷ b) h = refl
less-asymmetric (x ∷ a) [] h = absurd (cc h)
less-asymmetric (x ∷ a) (y ∷ b) h = ground (arith, less-asymmetric a b)

NotAfter-trans : (a b c : Bytes) → NotAfter a b → NotAfter b c → NotAfter a c
unfolding less
NotAfter-trans [] b [] h k = refl
NotAfter-trans [] b (z ∷ c) h k = refl
NotAfter-trans (x ∷ a) [] c h k = absurd (cc h)
NotAfter-trans (x ∷ a) (y ∷ b) [] h k = absurd (cc k)
NotAfter-trans (x ∷ a) (y ∷ b) (z ∷ c) h k = ground (arith, NotAfter-trans a b c)

-- Every file stands before those whose paths come later.
abbrev pub Sorted : List ManifestFile → Type 0
Sorted [] = Unit
Sorted (f ∷ files) = All (λ g. NotAfter f.path g.path) files × Sorted files

insert_file-All :
    (P : ManifestFile → Type 0) (f : ManifestFile) (files : List ManifestFile)
    → P f
    → All P files
    → All P (insert_file f files)
unfolding insert_file
insert_file-All P f [] p h = (p, tt)
insert_file-All P f (g ∷ files) p h =
    if_split (All P) (less g.path f.path) _ _ (λ _. (h.0, insert_file-All P f files p h.1))
      (λ _. (p, h))

insert_file-Sorted :
    (f : ManifestFile) (files : List ManifestFile) → Sorted files → Sorted (insert_file f files)
unfolding insert_file
insert_file-Sorted f [] h = (tt, tt)
insert_file-Sorted f (g ∷ files) h =
    if_split Sorted (less g.path f.path) _ _
      (λ t. (
        insert_file-All _ f files (less-asymmetric g.path f.path t) h.0,
        insert_file-Sorted f files h.1,
      ))
      (λ n. ((n, All-map _ _ (λ k. NotAfter-trans f.path g.path k.path n) files h.0), h))

sort_files-Sorted : (files : List ManifestFile) → Sorted (sort_files files)
unfolding sort_files
sort_files-Sorted [] = tt
sort_files-Sorted (f ∷ files) = insert_file-Sorted f (sort_files files) (sort_files-Sorted files)

insert_file-Perm :
    (f : ManifestFile) (files : List ManifestFile) → Perm (insert_file f files) (f ∷ files)
unfolding insert_file
insert_file-Perm f [] = Perm.rfl
insert_file-Perm f (g ∷ files) =
    if_split (λ l. Perm l (f ∷ g ∷ files)) (less g.path f.path) _ _
      (λ _. Perm.trans (Perm.cons g (insert_file-Perm f files)) (Perm.swap f g files))
      (λ _. Perm.rfl)

sort_files-Perm : (files : List ManifestFile) → Perm (sort_files files) files
unfolding sort_files
sort_files-Perm [] = Perm.rfl
sort_files-Perm (f ∷ files) =
    Perm.trans (insert_file-Perm f (sort_files files)) (Perm.cons f (sort_files-Perm files))

-- The sizes added up without a bound.
abbrev pub sizes : List ManifestFile → ℕ
sizes [] = 0
sizes (f ∷ files) = f.size + sizes files

sizes-insert_file :
    (f : ManifestFile) (files : List ManifestFile)
    → sizes (insert_file f files) ≡ f.size + sizes files
unfolding insert_file
sizes-insert_file f [] = refl
sizes-insert_file f (g ∷ files) =
    if_split (λ l. sizes l ≡ f.size + (g.size + sizes files)) (less g.path f.path) _ _
      (λ _. omega (arith, sizes-insert_file f files)) (λ _. refl)

sizes-sort_files : (files : List ManifestFile) → sizes (sort_files files) ≡ sizes files
unfolding sort_files
sizes-sort_files [] = refl
sizes-sort_files (f ∷ files) =
    omega (arith, sizes-insert_file f (sort_files files), sizes-sort_files files)

total_size-sizes :
    (total : ℕ) (files : List ManifestFile)
    → total < 2 ^ 64
    → total_size total files ≡ (total + sizes files) % 2 ^ 64
unfolding total_size
total_size-sizes total [] h = omega (arith, h)
total_size-sizes total (f ∷ files) h =
    omega (arith, total_size-sizes ((total + f.size) % 2 ^ 64) files (omega arith))

module _ (now : ℕ) (files : List ManifestFile) (source : Bytes) (quiesce : Option QuiesceInfo) where
  -- A new manifest lists exactly the given files, in the order of their paths, and its total is the
  -- sum of their sizes as an int64 has it: modulo 2^64, so the sum itself while that is below 2^64.
  pub new_manifest-Sorted :
      Sorted (new_manifest now files source quiesce).files
      × Perm (new_manifest now files source quiesce).files files
      × ((new_manifest now files source quiesce).total_bytes ≡ sizes files % 2 ^ 64)
  unfolding new_manifest
  new_manifest-Sorted = (
    sort_files-Sorted files,
    sort_files-Perm files,
    omega (arith, total_size-sizes 0 (sort_files files) (omega arith), sizes-sort_files files),
  )
