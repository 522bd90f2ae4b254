-- ===== src/Examples/Modules.antt =====
-- The life of the module, with a kernel that keeps a log of its calls and the callbacks that wait.
use spfs.Base.{ℕ, suc, ◌≡◌, refl, none, some, Option, Res, ok, ◌>>=◌, [], ◌∷◌, List}
use spfs.Inode.{Failure, enomem}
use spfs.Slab.{Kernel, alloc_inode, free_inode, exit, init}

data Call : Type 0 where
  create register unregister barrier : Call
  alloc free destroy : ℕ → Call

record Log : Type 0 where
  calls : List Call
  waiting : List ℕ
  next : ℕ

abbrev called : Call → Log → Log
called call k = record k { calls = call ∷ k.calls }

run_all : (ℕ → Log → Res Failure Log) → List ℕ → Log → Res Failure Log
run_all callback [] k = ok k
run_all callback (inode ∷ inodes) k = do k ← callback inode k; run_all callback inodes k

-- The kernel that gives the pointer `slab` and answers a registration with `answer`.
abbrev logging : ℕ → Option Failure → Kernel Log
logging slab answer = record {
  inode_init_once = λ inode. inode;
  kmem_cache_create = λ constructor k. (slab, called create k);
  kmem_cache_alloc = λ _ k. (k.next, called (alloc k.next) (record k { next = suc k.next }));
  kmem_cache_free = λ _ inode k. ok (called (free inode) k);
  kmem_cache_destroy = λ slab k. ok (called (destroy slab) k);
  call_rcu = λ inode k. record k { waiting = inode ∷ k.waiting };
  rcu_barrier =
      λ callback k. run_all callback k.waiting (called barrier (record k { waiting = [] }));
  register_filesystem = λ k. (answer, called register k);
  unregister_filesystem = λ k. (answer, called unregister k);
}

abbrev empty : Log
empty = record { calls = []; waiting = []; next = 7 }

-- Without a cache nothing is registered.
init_no_cache :
    init (logging 0 none) empty ≡ ok (some enomem, (0, record empty { calls = create ∷ [] }))
unfolding init
init_no_cache = refl

-- A refused registration destroys the cache, and the pointer stays.
init_refused :
    init (logging 5 (some enomem)) empty
    ≡ ok (some enomem, (5, record empty { calls = destroy 5 ∷ barrier ∷ register ∷ create ∷ [] }))
unfolding init run_all
init_refused = refl

-- An inode that is given back is freed before the cache is destroyed, one that is in use is not.
two_inodes : Log
unfolding alloc_inode free_inode
two_inodes =
    let (first, k) = alloc_inode (logging 5 none) 5 empty in
    let (second, k) = alloc_inode (logging 5 none) 5 k in free_inode (logging 5 none) first k

exit_busy :
    exit (logging 5 none) 5 two_inodes
    ≡ ok (record {
      calls = destroy 5 ∷ free 7 ∷ barrier ∷ unregister ∷ alloc 8 ∷ alloc 7 ∷ [];
      waiting = [];
      next = 9;
    })
unfolding exit run_all two_inodes
exit_busy = refl
