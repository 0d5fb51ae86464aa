-- ===== src/Peer/Queue/Window.antt =====
-- The queue of src/peer.rs follows the live window.
use qstream.Base.{ℕ, ◌≡◌, refl, ◌∙◌, inl, inr, not, ◌&&◌, ◌||◌, Bool-cases, List, [], ◌∷◌, arith}
use qstream.Disk.{Disk, bytes_eq, bytes_eq_refl}
use qstream.Names.{bytes_eq-eq, has_name, add_name, only_names}
use qstream.Transfer.Manifest.{parse_manifest}
use qstream.Peer.Queue.{Wanted, is_fetchable, sync_one, sync_all, sync_queue}

has_name-only_names :
    (n : List ℕ) (kept ks : List (List ℕ))
    → has_name n (only_names kept ks) ≡ (has_name n ks && has_name n kept)
unfolding has_name only_names
has_name-only_names n kept [] = refl
has_name-only_names n kept (k ∷ ks) = elim (Bool-cases (bytes_eq k n)) [
  | inl same ↦
      let e : k ≡ n = bytes_eq-eq k n same in
      rw e (elim (Bool-cases (has_name n kept)) [
        | inl y ↦ rw (y, has_name, bytes_eq_refl n) refl
        | inr y ↦ rw (y, bytes_eq_refl n) (has_name-only_names n kept ks ∙ ground arith)
      ])
  | inr other ↦ elim (Bool-cases (has_name k kept)) [
    | inl y ↦ rw (y, has_name, other) (has_name-only_names n kept ks)
    | inr y ↦ rw (y, other) (has_name-only_names n kept ks)
  ]
]

module _ (d : Disk) (failed_at : List (List ℕ × ℕ)) (now : ℕ) (n : List ℕ) where
  -- What one name of the manifest does to the set and to the queue.
  sync_one-queued :
      (w : Wanted) (name : List ℕ)
      → has_name n (sync_one d failed_at now w name).queued
        ≡ (has_name n w.queued || (bytes_eq name n && is_fetchable d failed_at now n))
  unfolding sync_one add_name has_name
  sync_one-queued w name = elim (Bool-cases (bytes_eq name n)) [
    | inl same ↦
        let e : name ≡ n = bytes_eq-eq name n same in rw e (ground (arith, bytes_eq_refl n))
    | inr other ↦ ground arith
  ]

  sync_one-queue :
      (w : Wanted) (name : List ℕ)
      → has_name n (sync_one d failed_at now w name).queue ≡ (
          has_name n w.queue
          || (bytes_eq name n && is_fetchable d failed_at now n && not (has_name n w.queued)))
  unfolding sync_one has_name
  sync_one-queue w name = elim (Bool-cases (bytes_eq name n)) [
    | inl same ↦
        let e : name ≡ n = bytes_eq-eq name n same in rw e (ground (arith, bytes_eq_refl n))
    | inr other ↦ ground arith
  ]

  sync_all-queued :
      (w : Wanted) (names : List (List ℕ))
      → has_name n (sync_all d failed_at now w names).queued
        ≡ (has_name n w.queued || (has_name n names && is_fetchable d failed_at now n))
  unfolding sync_all has_name
  sync_all-queued w [] = ground arith
  sync_all-queued w (name ∷ rest) =
      ground (arith, sync_all-queued (sync_one d failed_at now w name) rest, sync_one-queued w name)

  sync_all-queue :
      (w : Wanted) (names : List (List ℕ))
      → has_name n (sync_all d failed_at now w names).queue ≡ (
          has_name n w.queue
          || (has_name n names && is_fetchable d failed_at now n && not (has_name n w.queued)))
  unfolding sync_all has_name
  sync_all-queue w [] = ground arith
  sync_all-queue w (name ∷ rest) = ground (
    arith,
    sync_all-queue (sync_one d failed_at now w name) rest,
    sync_one-queue w name,
    sync_one-queued w name,
  )

  -- The queue and the set after a new manifest, name by name: a name stays if the manifest still has
  -- it, and one comes in if the manifest has it, it may be fetched, and the set has not.
  pub sync_queue_names :
      (w : Wanted) (manifest : List ℕ)
      → (has_name n (sync_queue d manifest w failed_at now).queue ≡ (
          has_name n (parse_manifest manifest)
          && (has_name n w.queue || (is_fetchable d failed_at now n && not (has_name n w.queued)))))
        × (has_name n (sync_queue d manifest w failed_at now).queued ≡ (
            has_name n (parse_manifest manifest)
            && (has_name n w.queued || is_fetchable d failed_at now n)))
  unfolding sync_queue
  sync_queue_names w manifest =
      let names = parse_manifest manifest in
      let kept : Wanted = record {
        queue = only_names names w.queue;
        queued = only_names names w.queued;
      } in
      let q = has_name-only_names n names w.queue in
      let p = has_name-only_names n names w.queued in
      let a = sync_all-queue kept names in
      let b = sync_all-queued kept names in (ground (arith, a, q, p), ground (arith, b, p))
