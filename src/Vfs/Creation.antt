-- ===== src/Vfs/Creation.antt =====
-- What `create` makes of the directory tree.
use mathlib.Core.Option
use nonameos.Prelude.{
  ℕ, ◌≡◌, refl, sym, ap, ◌∙◌, subst, true, not, List, Option, none, some, arith,
  get_or_of_get_elem?, inl, inr, Bool-cases, Option-cases, if◌then◌else◌,
}
use nonameos.Prelude.Find.{find_index_cases}
use nonameos.Memory.Phys
use nonameos.Vfs.{
  InodeType, is_directory, is_file, Operation, null_op, ramfs_op, Inode, Dentry, empty_dentry, Vfs,
  dentry, alloc_inode_slot, get_inode, alloc_dentry, get_dentry, path_lookup,
}
use nonameos.Vfs.Ramfs.{
  set_page, ramfs_alloc_inode, zeroed_page, give_page, place_dentry, ramfs_create, dentry_of,
}
use nonameos.Vfs.Api.{call_create, create}

inactive : (v : Vfs) (i : ℕ) → not (dentry v i).active ≡ true → get_dentry i v ≡ none
unfolding get_dentry
inactive v i off = ground (arith, off)

-- The slot that `alloc_dentry` returns is not active, so `get_dentry_mut` refuses it.
slot_refused : (v : Vfs) (idx : ℕ) → alloc_dentry v ≡ some idx → get_dentry idx v ≡ none
unfolding alloc_dentry
slot_refused v idx found = elim (find_index_cases (λ (d : Dentry). not d.active) v.dentries) [
  | inl (e, _) ↦ cc (sym e ∙ found)
  | inr (i, e, first) ↦
      subst (λ k. get_dentry k v ≡ none)
        (ap (λ (o : Option ℕ). elim o [ none ↦ 0 | some k ↦ k ]) (sym e ∙ found))
        (inactive v i (
          ap (λ (d : Dentry). not d.active)
            (get_or_of_get_elem? v.dentries i empty_dentry first.entry first.there)
          ∙ first.passes))
]

place_dentry-refused :
    (name : List ℕ) (inode_idx : ℕ) (parent : Option ℕ) (sb_idx : ℕ) (v : Vfs)
    → place_dentry name inode_idx parent sb_idx v ≡ (none, v)
unfolding place_dentry
place_dentry-refused name inode_idx parent sb_idx v = elim (Option-cases (alloc_dentry v)) [
  | inl e ↦ rw (place_dentry, e) refl
  | inr (idx, e) ↦ rw (place_dentry, e, slot_refused v idx e) refl
]

-- The outcome has no new dentry, and names none.
abbrev pub NothingNew : Vfs → Option (Option ℕ × Vfs) → Type 0
NothingNew v none = Unit {0}
NothingNew v (some (created, v')) = (created ≡ none) × (v'.dentries ≡ v.dentries)

module _ (v : Vfs) where
  alloc_inode-dentries :
      (sb_idx : ℕ) (itype : InodeType) → (ramfs_alloc_inode sb_idx itype v).1.dentries ≡ v.dentries
  unfolding ramfs_alloc_inode alloc_inode_slot get_inode
  alloc_inode-dentries sb_idx itype = ground arith

  -- Where the allocator does not panic, the new page leaves the dentries alone.
  abbrev SameDentries : Option Vfs → Type 0
  SameDentries none = Unit {0}
  SameDentries (some v') = v'.dentries ≡ v.dentries

  set_page-dentries :
      (idx addr : ℕ) (v' : Vfs)
      → v'.dentries ≡ v.dentries
      → (set_page idx addr v').dentries ≡ v.dentries
  unfolding set_page
  set_page-dentries idx addr v' same = elim (Option-cases (get_inode idx v')) [
    | inl e ↦ rw (set_page, e) same
    | inr (i, e) ↦ rw (set_page, e) same
  ]

  give_page-dentries :
      (idx : ℕ) (itype : InodeType) (v' : Vfs)
      → v'.dentries ≡ v.dentries
      → SameDentries (give_page idx itype v')
  unfolding give_page zeroed_page
  give_page-dentries idx itype v' same = elim (Bool-cases (is_file itype)) [
    | inr other ↦ rw (give_page, other) same
    | inl plain ↦ elim (Option-cases (Phys.alloc_frame v'.phys)) [
      | inl e ↦ rw (give_page, plain, zeroed_page, e) tt
      | inr ((none, p), e) ↦ rw (give_page, plain, zeroed_page, e) same
      | inr ((some addr, p), e) ↦
          rw (give_page, plain, zeroed_page, e) (set_page-dentries idx addr _ same)
    ]
  ]

  named_nothing :
      (name : List ℕ) (idx dir sb_idx : ℕ) (o : Option Vfs)
      → SameDentries o
      → NothingNew v (Option.map (λ v2. place_dentry name idx (dentry_of dir v2) sb_idx v2) o)
  named_nothing name idx dir sb_idx none same = tt
  named_nothing name idx dir sb_idx (some v') same =
      rw (place_dentry-refused name idx (dentry_of dir v') sb_idx v') (refl, same)

  ramfs_create-nothing :
      (dir : ℕ) (name : List ℕ) (itype : InodeType) → NothingNew v (ramfs_create dir name itype v)
  unfolding ramfs_create
  ramfs_create-nothing dir name itype = elim (Option-cases (get_inode dir v)) [
    | inl e ↦ rw (ramfs_create, e) (refl, refl)
    | inr (d, e) ↦ elim (Option-cases (ramfs_alloc_inode d.sb_idx itype v).0) [
      | inl full ↦ rw (ramfs_create, e, full) (refl, alloc_inode-dentries d.sb_idx itype)
      | inr (idx, got) ↦
          rw (ramfs_create, e, got)
            (named_nothing name idx dir d.sb_idx
              (give_page idx itype (ramfs_alloc_inode d.sb_idx itype v).1)
              (give_page-dentries idx itype _ (alloc_inode-dentries d.sb_idx itype)))
    ]
  ]

  called_nothing :
      (d : Dentry) (i : Inode) (name : List ℕ) (itype : InodeType)
      → NothingNew v (
          if not (is_directory i.itype)
          then some (none, v)
          else call_create i.inode_ops.create d.inode_idx name itype v)
  unfolding call_create
  called_nothing d i name itype = elim (Bool-cases (is_directory i.itype)) [
    | inr other ↦ rw other (refl, refl)
    | inl folder ↦ rw folder (by_operation i.inode_ops.create)
  ]
    where
      by_operation : (op : Operation) → NothingNew v (call_create op d.inode_idx name itype v)
      by_operation null_op = unfold call_create in (refl, refl)
      by_operation ramfs_op = unfold call_create in ramfs_create-nothing d.inode_idx name itype

  -- `create` never makes a file or directory: in every state, for every path, name and type, it
  -- returns `None` and leaves the directory tree as it was, unless the frame allocator panics.
  pub create-NothingNew :
      (parent_path name : List ℕ) (itype : InodeType)
      → NothingNew v (create parent_path name itype v)
  unfolding create
  create-NothingNew parent_path name itype = elim (Option-cases (path_lookup parent_path v)) [
    | inl e ↦ rw (create, e) (refl, refl)
    | inr (idx, e) ↦ elim (Option-cases (get_dentry idx v)) [
      | inl e' ↦ rw (create, e, e') (refl, refl)
      | inr (d, e') ↦ elim (Option-cases (get_inode d.inode_idx v)) [
        | inl e'' ↦ rw (create, e, e', e'') (refl, refl)
        | inr (i, e'') ↦ rw (create, e, e', e'') (called_nothing d i name itype)
      ]
    ]
  ]
