-- ===== src/System/Kinds.antt =====
-- From a mount on, each inode in memory has the operations of its mode.
use spfs.Base.{
  ℕ, ◌≡◌, refl, sym, ◌∙◌, Bool-cases, not, inl, inr, Option-cases, none, some, Res-cases, ok,
  Returns, Returns-bind, Returns-ok, Returns-after, Returns-map, Bool,
}
use mathlib.Core.Option.{none-ne-some}
use spfs.Wire.{Bytes}
use spfs.Device.{Device}
use spfs.Icache.{Live, Cache, Vfs, error, null, at, Kernel, new_inode, inode_by_id}
use spfs.Super.{initial_block_size, super_block_init}
use spfs.FreeList.{FreeList, free_init}
use spfs.FreeList.Served.{Served-refl}
use spfs.Mount.{
  Host, Disk, root_mode, find_root, own_root, set_blocksize, of_super, of_free_list, btree_init,
  fill_super_block,
}
use spfs.System.{System, Reach}
use spfs.System.Typed.{
  IsTyped, AllTyped, IsSound, Found, keep-IsSound, new_inode-IsSound, inode_by_id-IsSound,
}
use spfs.System.Sound.{Reach-IsSound}
use spfs.System.Makes.{IsTyped-same}

module _ (free : FreeList) where
  -- The root inode of a mount.
  abbrev Rooted : ℕ × Vfs → Type 0
  Rooted (root, vfs) = IsSound free vfs

  find_root-IsSound :
      (kernel : Kernel) (frame : Bytes) (probes levels : ℕ) (vfs : Vfs)
      → IsSound free vfs
      → Returns Rooted (find_root kernel frame probes levels vfs)
  unfolding find_root
  find_root-IsSound kernel frame probes levels vfs sound =
      let known = inode_by_id-IsSound free kernel frame probes levels vfs vfs.super.root_id sound in
      elim (Res-cases (inode_by_id kernel frame probes levels vfs vfs.super.root_id)) [
        | inl ((error e, vfs'), got) ↦ rw (find_root, got) tt
        | inl ((at n, vfs'), got) ↦ rw (find_root, got) (Returns-ok (Found free) known got)
        | inl ((null, vfs'), got) ↦
            rw (find_root, got)
              (let made =
                  new_inode-IsSound free kernel vfs' none root_mode
                    (Returns-ok (Found free) known got) in
                elim (Res-cases (new_inode kernel vfs' none root_mode)) [
                  | inl ((error e, vfs''), new) ↦ rw (new) tt
                  | inl ((at n, vfs''), new) ↦ rw (new) (Returns-ok (Found free) made new)
                  | inl ((null, vfs''), new) ↦ rw (new) tt
                  | inr (inl (f, new)) ↦ rw (new) tt
                  | inr (inr (inl new)) ↦ rw (new) tt
                  | inr (inr (inr new)) ↦ rw (new) tt
                ])
        | inr (inl (f, got)) ↦ rw (find_root, got) tt
        | inr (inr (inl got)) ↦ rw (find_root, got) tt
        | inr (inr (inr got)) ↦ rw (find_root, got) tt
      ]

  own_root-IsSound :
      (host : Host) (found : ℕ × Vfs) → Rooted found → Returns Rooted (own_root host found)
  unfolding own_root
  own_root-IsSound host (root, vfs) sound = elim (Option-cases (vfs.cache root)) [
    | inl gone ↦ rw (own_root, gone) tt
    | inr (live, there) ↦
        rw (own_root, there)
          (let owned : Live = record live {
            inode = record live.inode { uid = host.current_fsuid; gid = host.current_fsgid };
          } in
            keep-IsSound free vfs root owned sound
              (IsTyped-same live owned refl refl (sound.0 root live there)))
  ]

abbrev Typed : ℕ × Vfs → Type 0
Typed (root, vfs) = AllTyped vfs.cache

module _ (host : Host) (frame : Bytes) (probes levels fuel : ℕ) (disk : Disk) (dev : Device)
    (cache : Cache) where
  mounted-Typed :
      AllTyped cache → Returns Typed (fill_super_block host frame probes levels fuel disk dev cache)
  unfolding fill_super_block btree_init
  mounted-Typed all = elim (Bool-cases (not host.kzalloc_info)) [
    | inl full ↦ rw (fill_super_block, full) tt
    | inr room ↦
        rw (fill_super_block, room)
          (Returns-after Typed (set_blocksize host disk dev initial_block_size) _ (λ dev.
            Returns-after Typed (of_super (super_block_init dev 0)) _ (λ super.
              Returns-after Typed (set_blocksize host disk dev super.block_size) _ (λ dev.
                Returns-after Typed
                  (of_free_list (free_init host.kzalloc_node fuel dev super.free_list_offset)) _
                  (λ free.
                    let begin : Vfs = record {
                      super = super;
                      tree = btree_init dev free super.btree_offset;
                      cache = cache;
                    } in
                    Returns-bind (Rooted free) Typed
                      (find_root host.kernel frame probes levels begin) _
                      (find_root-IsSound free host.kernel frame probes levels begin
                        (all, Served-refl free))
                      (λ found sound.
                        Returns-map (Rooted free) Typed (own_root host found) (λ out is. is.0)
                          (own_root-IsSound free host found sound)))))))
  ]

  pub fill_super_block-AllTyped :
      (root : ℕ) (vfs : Vfs)
      → fill_super_block host frame probes levels fuel disk dev cache ≡ ok (root, vfs)
      → AllTyped cache
      → AllTyped vfs.cache
  fill_super_block-AllTyped root vfs h all = Returns-ok Typed (mounted-Typed all) h

  -- After a mount with no inode in memory, and any calls of the tables: an inode in memory is a
  -- regular file and has the operations of files, or is a directory and has those of directories.
  pub fill_super_block-Reach :
      (root : ℕ) (vfs : Vfs) (sizes : ℕ → ℕ) (held is_open : ℕ → Bool) (s : System)
      → ((n : ℕ) → cache n ≡ none)
      → fill_super_block host frame probes levels fuel disk dev cache ≡ ok (root, vfs)
      → Reach host.kernel frame is_open (record { vfs = vfs; sizes = sizes; held = held }) s
      → (n : ℕ) (live : Live) → s.vfs.cache n ≡ some live
      → IsTyped live
  fill_super_block-Reach root vfs sizes held is_open s empty h reached =
      let typed =
        fill_super_block-AllTyped root vfs h
          (λ n live there. absurd (none-ne-some live (sym (empty n) ∙ there))) in
      (Reach-IsSound vfs.tree.free host.kernel frame is_open
        (record { vfs = vfs; sizes = sizes; held = held }) s reached
        (typed, Served-refl vfs.tree.free)).0
