-- ===== src/Node/Tick/Prune.antt =====
-- What `prune_segments` of src/node.rs deletes.
use qstream.Base.{
  ℕ, ◌≡◌, refl, ◌∙◌, ◌⊎◌, inl, inr, Bool, true, false, not, ltb, ◌==◌, ◌&&◌, ◌||◌, Bool-cases,
  Option, some, List, [], ◌∷◌, arith,
}
use qstream.Clock.{secs}
use qstream.Disk.{Disk, bytes_eq, remove_file}
use qstream.Names.{has_name, bytes_eq-eq}
use qstream.Transfer.Manifest.{parse_manifest}
use qstream.Node.State.{Node}
use qstream.Node.Handle.{manifest_bytes}
use qstream.Node.Tick.{DirEntry, is_prunable, old_enough, prune_entries, with_disk, prune_segments}

-- An entry of the name with an age of at least `retention`.
abbrev pub Expired : List ℕ → ℕ → List DirEntry → Type 0
Expired m retention [] = ⊥
Expired m retention ((name, age) ∷ rest) =
    ((name ≡ m) × (old_enough age retention ≡ true)) ⊎ Expired m retention rest

-- A file that may be deleted.
pub record Disposable (playlist : List (List ℕ)) (retention : ℕ) (listed : List DirEntry)
    (m : List ℕ) : Type 0 where
  pub kind : is_prunable m ≡ true
  pub unlisted : has_name m playlist ≡ false
  pub expired : Expired m retention listed

more :
    (playlist : List (List ℕ)) (retention : ℕ) (e : DirEntry) (listed : List DirEntry) (m : List ℕ)
    → Disposable playlist retention listed m
    → Disposable playlist retention (e ∷ listed) m
more playlist retention (name, age) listed m d = record {
  kind = d.kind;
  unlisted = d.unlisted;
  expired = inr d.expired;
}

and4 :
    (a b c d : Bool) → (a && b && c && d) ≡ true → (a ≡ true) × (b ≡ true) × (c ≡ true) × (d ≡ true)
and4 a b c d e = ground arith

-- The deletion of one file leaves the others.
removed_lem :
    (playlist : List (List ℕ)) (retention : ℕ) (can_remove : List ℕ → Bool) (name : List ℕ)
    (age : Option ℕ) (listed : List DirEntry) (d : Disk) (m : List ℕ)
    → (is_prunable name
        && not (has_name name playlist)
        && old_enough age retention
        && can_remove name)
      ≡ true
    → ((remove_file d name).files m ≡ d.files m)
      ⊎ Disposable playlist retention ((name, age) ∷ listed) m
unfolding remove_file
removed_lem playlist retention can_remove name age listed d m e =
    elim (Bool-cases (bytes_eq m name)) [
      | inr other ↦ inl (rw other refl)
      | inl same ↦
          let q : m ≡ name = bytes_eq-eq m name same in
          let (k, u, o, r) =
            and4 (is_prunable name) (not (has_name name playlist)) (old_enough age retention)
              (can_remove name) e in
          inr (rw q (record { kind = k; unlisted = ground arith; expired = inl (refl, o) }))
    ]

prune_entries_files :
    (playlist : List (List ℕ)) (retention : ℕ) (can_remove : List ℕ → Bool) (listed : List DirEntry)
    (d : Disk) (m : List ℕ)
    → ((prune_entries playlist retention can_remove listed d).0.files m ≡ d.files m)
      ⊎ Disposable playlist retention listed m
unfolding prune_entries
prune_entries_files playlist retention can_remove [] d m = inl refl
prune_entries_files playlist retention can_remove ((name, age) ∷ rest) d m =
    elim (Bool-cases (
      is_prunable name
      && not (has_name name playlist)
      && old_enough age retention
      && can_remove name)) [
        | inl gone ↦
            rw gone
              (elim (prune_entries_files playlist retention can_remove rest (remove_file d name)
                m) [
                  | inl e ↦
                      elim (removed_lem playlist retention can_remove name age rest d m gone) [
                        | inl q ↦ inl (e ∙ q)
                        | inr x ↦ inr x
                      ]
                  | inr x ↦ inr (more playlist retention (name, age) rest m x)
                ])
        | inr stays ↦ rw stays (elim (prune_entries_files playlist retention can_remove rest d m) [
          | inl e ↦ inl e
          | inr x ↦ inr (more playlist retention (name, age) rest m x)
        ])
      ]

-- Pruning leaves every file as it is, except a segment or a file that was being written, that the
-- current playlist does not name and whose listed age is at least the retention time, which the
-- setting 0 switches off.
pub prune_segments_files :
    (n : Node) (listed : List DirEntry) (can_remove : List ℕ → Bool) (now : ℕ) (m : List ℕ)
    → ((prune_segments n (some listed) can_remove now).0.world.disk.files m ≡ n.world.disk.files m)
      ⊎ (((n.retention_secs == 0) ≡ false)
          × Disposable (parse_manifest (manifest_bytes n)) (secs n.retention_secs) listed m)
unfolding prune_segments with_disk
prune_segments_files n listed can_remove now m =
    elim (Bool-cases (n.retention_secs == 0 || ltb now n.next_prune)) [
      | inl off ↦ rw off (inl refl)
      | inr due ↦
          rw due
            (elim (prune_entries_files (parse_manifest (manifest_bytes n)) (secs n.retention_secs)
              can_remove listed n.world.disk m) [ inl e ↦ inl e | inr x ↦ inr (ground arith, x) ])
    ]
