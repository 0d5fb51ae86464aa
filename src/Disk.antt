-- ===== src/Disk.antt =====
-- A directory of files, as std::fs shows it to the code: the segment root of a node. A name is
-- relative to the directory. The system may fail a write, which leaves of that file whatever it likes,
-- and a rename, which then changes nothing.
use qstream.Base.{
  ℕ, Bool, true, false, ◌&&◌, ◌==◌, if◌then◌else◌, Option, none, some, List, [], ◌∷◌, ◌≡◌, refl,
  arith,
}

abbrev pub bytes_eq : List ℕ → List ℕ → Bool
bytes_eq [] [] = true
bytes_eq [] (b ∷ bs) = false
bytes_eq (a ∷ xs) [] = false
bytes_eq (a ∷ xs) (b ∷ bs) = a == b && bytes_eq xs bs

pub bytes_eq_refl : (a : List ℕ) → bytes_eq a a ≡ true
bytes_eq_refl [] = refl
bytes_eq_refl (a ∷ xs) = ground (arith, bytes_eq_refl xs)

-- `torn name bytes` is what a failed write of `bytes` leaves under `name`. A name that is no file may
-- be a directory.
pub record Disk : Type 0 where
  pub files : List ℕ → Option (List ℕ)
  pub is_dir : List ℕ → Bool
  pub can_write : List ℕ → Bool
  pub torn : List ℕ → List ℕ → Option (List ℕ)
  pub can_rename : List ℕ → List ℕ → Bool

-- `fs::write(name, bytes)`, and whether it succeeds. It truncates the file first, so that a failure
-- leaves no file, none of its old contents, or a part of the new ones: `torn` says which.
unfoldable pub write : Disk → List ℕ → List ℕ → Disk × Bool
write d name bytes =
    let done = d.can_write name in
    let left = if done then some bytes else d.torn name bytes in
    (record d { files = λ n. if bytes_eq n name then left else d.files n }, done)

-- `fs::rename(from, to)`.
unfoldable pub rename : Disk → List ℕ → List ℕ → Option Disk
rename d from to = elim (d.files from) [
  | none ↦ none
  | some bytes ↦
      if d.can_rename from to
      then some (record d {
        files =
            λ n. if bytes_eq n to then some bytes else if bytes_eq n from then none else d.files n;
      })
      else none
]

-- `fs::remove_file(name)`, granted.
unfoldable pub remove_file : Disk → List ℕ → Disk
remove_file d name = record d { files = λ n. if bytes_eq n name then none else d.files n }
