-- ===== src/Node/Tasks/Confined.antt =====
-- `DiskWrite` and `DiskRead` touch no file outside the storage directory.
use cpcluster.Prelude.{
  subst, String, true, false, Option, none, some, Outcome, done, failed, Outcome-cases, Ran,
  returned, panicked, ◌≡◌, refl, arith, eq_iff, Bool-cases, Option-cases, inl, inr,
}
use cpcluster.Prelude.Dict.{get-insert}
use cpcluster.Prelude.Files.{Files, read, get-left}
use cpcluster.Common.Protocol.{Bytes, bytes}
use cpcluster.Node.Disk.{join}
use cpcluster.Node.Tasks.Paths.{
  PathCalls, checked_write, create_parent, write_task, read_task, canonical_of,
}

module _ (paths : PathCalls) where
  open paths use {
    storage_dir, create_dir_all, canonicalize, exists, opened, starts_with, parent, file_name,
  }

  checked_write_outside :
      (base q : String) (payload : Bytes) (place : Ran (Outcome String)) (files : Files Bytes)
      → starts_with q base ≡ false
      → ((canonical : String)
          → place ≡ returned (done canonical)
          → opened files canonical ≡ canonical)
      → read q (checked_write paths base payload place files).1 ≡ read q files
  unfolding checked_write
  checked_write_outside base q payload panicked files out final = refl
  checked_write_outside base q payload (returned (failed e)) files out final = refl
  checked_write_outside base q payload (returned (done canonical)) files out final =
      rw (final canonical refl) (
        ground (
          arith,
          out,
          eq_iff canonical q,
          get-insert canonical q payload files.contents,
          get-left canonical q (files.remains canonical) files.contents,
        ))

  -- A path whose links are resolved is its own file; so is the path of a new file, unless a link that
  -- leads nowhere stands there.
  abbrev pub IsResolved : Type 0
  IsResolved =
      (files : Files Bytes) (p r : String) → canonicalize files p ≡ done r → opened files r ≡ r

  abbrev pub NoDangling : String → Type 0
  NoDangling full =
      (files : Files Bytes) (p r name : String)
      → exists files full ≡ false
      → parent full ≡ some p
      → canonicalize files p ≡ done r
      → file_name full ≡ some name
      → opened files (join r name) ≡ join r name

  canonical_of_opened :
      (files : Files Bytes) (full canonical : String)
      → IsResolved
      → NoDangling full
      → canonical_of paths files full ≡ returned (done canonical)
      → opened files canonical ≡ canonical
  unfolding canonical_of
  canonical_of_opened files full canonical resolved free h = elim (Bool-cases (exists files full)) [
    | inl t ↦ resolved files full canonical (ground (arith, h, t))
    | inr f ↦ elim (Option-cases (parent full)) [
      | inl n ↦ ground (arith, h, f, n)
      | inr (p, e) ↦ elim (Outcome-cases (canonicalize files p)) [
        | inl (r, c) ↦ elim (Option-cases (file_name full)) [
          | inl n ↦ ground (arith, h, f, e, c, n)
          | inr (name, n) ↦
              let same : join r name ≡ canonical = ground (arith, h, f, e, c, n) in
              subst (λ x. opened files x ≡ x) same (free files p r name f e c n)
        ]
        | inr (msg, c) ↦ ground (arith, h, f, e, c)
      ]
    ]
  ]

  module _
      (keeps : (p q : String) (files created : Files Bytes)
        → create_dir_all p files ≡ done created
        → read q created ≡ read q files) where
    create_parent_keeps :
        (p : Option String) (q : String) (files created : Files Bytes)
        → create_parent paths p files ≡ done created
        → read q created ≡ read q files
    create_parent_keeps none q files created h = ground (arith, h)
    create_parent_keeps (some p) q files created h = keeps p q files created h

    -- Where the creation of directories changes no file, the storage directory can be created and its
    -- links resolved, a path with its links resolved is its own file, and no link that leads nowhere
    -- stands where the new file is to be, a `DiskWrite` leaves every file alone whose path does not lie
    -- in the storage directory, whatever path it is given.
    pub write_task_outside :
        (path base q : String) (payload : Bytes) (files created : Files Bytes)
        → create_dir_all storage_dir files ≡ done created
        → canonicalize created storage_dir ≡ done base
        → starts_with q base ≡ false
        → IsResolved
        → NoDangling (join base path)
        → read q (write_task paths path payload files).1 ≡ read q files
    unfolding write_task
    write_task_outside path base q payload files created c b out resolved free =
        elim (Outcome-cases (create_parent paths (parent (join base path)) created)) [
          | inl (after, e) ↦ ground (
            arith,
            c,
            b,
            e,
            keeps storage_dir q files created c,
            create_parent_keeps (parent (join base path)) q created after e,
            checked_write_outside base q payload (canonical_of paths after (join base path)) after
                out (λ p. canonical_of_opened after (join base path) p resolved free),
          )
          | inr (msg, e) ↦ ground (arith, c, b, e, keeps storage_dir q files created c)
        ]

  -- Where the links of the storage directory can be resolved, the bytes that a `DiskRead` returns are
  -- those of a file in it.
  pub read_task_inside :
      (path base : String) (b : Bytes) (files : Files Bytes)
      → canonicalize files storage_dir ≡ done base
      → read_task paths path files ≡ bytes b
      → (q : String) × (starts_with q base ≡ true) × (read q files ≡ some b)
  unfolding read_task
  read_task_inside path base b files c h =
      elim (Outcome-cases (canonicalize files (join base path))) [
        | inl (q, e) ↦ (q, ground (arith, c, h, e), ground (arith, c, h, e))
        | inr (msg, e) ↦ ground (arith, c, h, e)
      ]
