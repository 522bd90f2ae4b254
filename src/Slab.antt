-- ===== src/Slab.antt =====
-- sp.c: the slab cache that the inodes in memory are taken from, `spfs_alloc_inode` and
-- `spfs_free_inode`, and the life of the module, `spfs_init` and `spfs_exit`. What the kernel
-- does is a parameter.
use spfs.Base.{ℕ, ◌==◌, if◌then◌else◌, Option, none, some, Res, ok, ◌>>=◌, bug_on}
use spfs.Inode.{Inode, Failure, enomem}

-- The functions of the kernel, on its state `K`. A cache and an object are pointers, where 0 is
-- NULL; the cache is given the constructor of an object, and `rcu_barrier` the callback that
-- `call_rcu` defers. `none` is the result 0 of a registration.
pub record Kernel (K : Type 0) : Type 0 where
  pub inode_init_once : Inode → Inode
  pub kmem_cache_create : (constructor : Inode → Inode) → K → ℕ × K
  pub kmem_cache_alloc : (slab : ℕ) → K → ℕ × K
  pub kmem_cache_free : (slab object : ℕ) → K → Res Failure K
  pub kmem_cache_destroy : (slab : ℕ) → K → Res Failure K
  pub call_rcu : (object : ℕ) → K → K
  pub rcu_barrier : (callback : ℕ → K → Res Failure K) → K → Res Failure K
  pub register_filesystem : K → Option Failure × K
  pub unregister_filesystem : K → Option Failure × K

-- A block of zeros as `struct spfs_inode`.
abbrev pub cleared : Inode
cleared = record {
  i_ino = 0;
  i_mode = 0;
  gid = 0;
  uid = 0;
  i_atime = record { tv_sec = 0; tv_nsec = 0 };
  i_mtime = record { tv_sec = 0; tv_nsec = 0 };
  i_ctime = record { tv_sec = 0; tv_nsec = 0 };
  capacity = 0;
  start = 0;
  name = λ _. 0;
}

module _ {K : Type 0} (kernel : Kernel K) where
  -- `spfs_inode_init_once`: what the object held before is cleared.
  abbrev pub inode_init_once : Inode → Inode
  inode_init_once inode = kernel.inode_init_once cleared

  -- The pointer `spfs_inode_SLAB` is `slab`; the result is NULL where the kernel gives NULL.
  unfoldable pub alloc_inode : (slab : ℕ) → K → ℕ × K
  alloc_inode slab k = kernel.kmem_cache_alloc slab k

  unfoldable pub free_inode_cb : (slab inode : ℕ) → K → Res Failure K
  free_inode_cb slab inode k =
      bug_on (inode == 0) (bug_on (slab == 0) (kernel.kmem_cache_free slab inode k))

  -- The callback runs later.
  unfoldable pub free_inode : (inode : ℕ) → K → K
  free_inode inode k = kernel.call_rcu inode k

  -- `spfs_create_inode_SLAB`
  abbrev pub create_inode_slab : K → ℕ × K
  create_inode_slab k = kernel.kmem_cache_create inode_init_once k

  -- `spfs_destroy_inode_SLAB` on the pointer of the module, which the callbacks read.
  unfoldable pub destroy_inode_slab : (slab : ℕ) → K → Res Failure K
  unfolding free_inode_cb
  destroy_inode_slab slab k = do
    k ← kernel.rcu_barrier (free_inode_cb slab) k
    if slab == 0 then ok k else kernel.kmem_cache_destroy slab k

  -- `spfs_init`: the result, where `none` is 0, and `spfs_inode_SLAB`, which is not reset when the
  -- cache is destroyed.
  unfoldable pub init : K → Res Failure (Option Failure × (ℕ × K))
  unfolding destroy_inode_slab
  init k =
      let (slab, k) = create_inode_slab k in
      if slab == 0
      then ok (some enomem, (0, k))
      else let (res, k) = kernel.register_filesystem k in
        elim res [
          | some e ↦ (do k ← destroy_inode_slab slab k; ok (some e, (slab, k)))
          | none ↦ ok (none, (slab, k))
        ]

  -- `spfs_exit`: the result of `unregister_filesystem` is only printed.
  unfoldable pub exit : (slab : ℕ) → K → Res Failure K
  unfolding destroy_inode_slab
  exit slab k = let (res, k) = kernel.unregister_filesystem k in destroy_inode_slab slab k
