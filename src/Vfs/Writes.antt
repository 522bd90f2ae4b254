-- ===== src/Vfs/Writes.antt =====
-- What `spfs_write_inode` makes of the inode in memory.
use spfs.Base.{
  ◌+◌, ltb, or_null, return_if, ℕ, zero, suc, ◌≡◌, refl, sym, ap, ◌∙◌, Bool, true, false,
  if◌then◌else◌, Option, none, some, Res, ok, err, bug, out_of_fuel, ◌>>=◌, ◌==◌,
}
use spfs.Wire.{Bytes}
use spfs.Device.{Device, sb_bread}
use spfs.Inode.{Failure, code, eio, parse}
use spfs.Tree.{modify_from, visit_entry}
use spfs.Insert.{Tree}
use spfs.Icache.{Live}
use spfs.Bnode.{entry_id, entry_offset, index_of, length, get_child, find_gte}
use spfs.Vfs.{Fuel, mod_inode_cb, write_inode}

-- A result without the closure of the callback.
abbrev device : Res Failure (Device × Live) → Res Failure Device
device r = r >>= λ both. ok both.0

device->>= :
    {A : Type 0} (step : Res Failure A) (f g : A → Res Failure (Device × Live))
    → ((a : A) → device (f a) ≡ device (g a))
    → device (step >>= f) ≡ device (step >>= g)
device->>= (ok a) f g same = same a
device->>= (err e) f g same = refl
device->>= bug f g same = refl
device->>= out_of_fuel f g same = refl

device-if :
    (b : Bool) (x x' y y' : Res Failure (Device × Live))
    → device x ≡ device x'
    → device y ≡ device y'
    → device (if b then x else y) ≡ device (if b then x' else y')
device-if true x x' y y' p q = p
device-if false x x' y y' p q = q

device-return_if :
    (b : Bool) (e : Failure) (x x' : Res Failure (Device × Live))
    → device x ≡ device x'
    → device (return_if b e x) ≡ device (return_if b e x')
device-return_if true e x x' p = refl
device-return_if false e x x' p = p

device-Option :
    {A : Type 0} (o : Option A) (x x' : Res Failure (Device × Live))
    (f f' : A → Res Failure (Device × Live))
    → device x ≡ device x'
    → ((a : A) → device (f a) ≡ device (f' a))
    → device (elim o as (λ _. Res Failure (Device × Live)) [ none ↦ x | some a ↦ f a ])
      ≡ device (elim o as (λ _. Res Failure (Device × Live)) [ none ↦ x' | some a ↦ f' a ])
device-Option none x x' f f' p q = p
device-Option (some a) x x' f f' p q = q a

module _ (frame : Bytes) (live live' : Live) where
  visit_entry-device :
      (dev : Device) (offset : ℕ)
      → device (visit_entry frame mod_inode_cb dev offset live)
        ≡ device (visit_entry frame mod_inode_cb dev offset live')
  unfolding visit_entry mod_inode_cb
  visit_entry-device dev offset = device-return_if (offset == 0) (code 1) _ _ (
      device->>= (or_null (code 10) (sb_bread dev offset)) _ _
        (λ bh. device->>= (parse bh) _ _ (λ cur. refl)))

  modify_from-device :
      (probes fuel : ℕ) (dev : Device) (offset ino : ℕ)
      → device (modify_from frame mod_inode_cb probes fuel dev offset ino live)
        ≡ device (modify_from frame mod_inode_cb probes fuel dev offset ino live')
  unfolding modify_from
  modify_from-device probes zero dev offset ino = refl
  modify_from-device probes (suc fuel) dev zero ino = refl
  modify_from-device probes (suc fuel) dev (suc offset) ino =
      device->>= (or_null eio (sb_bread dev (suc offset))) _ _ (λ bh.
        device->>= (find_gte probes bh ino) _ _ (λ found.
          device-Option found _ _ _ _
            (device->>= (length bh) _ _ (λ n.
              device->>= (get_child bh n) _ _
                (λ child. modify_from-device probes fuel dev child ino)))
            (λ gte. device-if (ltb bh.b_size (gte + 16)) bug bug _ _ refl (
              device-if (entry_id bh gte == ino) _ _ _ _
                (visit_entry-device dev (entry_offset bh gte))
                (device->>= (get_child bh (index_of gte)) _ _
                  (λ child. modify_from-device probes fuel dev child ino))))))

-- What `spfs_write_inode` gives for what is left of the device.
abbrev stored : Tree → Res Failure Device → Res Failure (Option Failure × Tree)
stored tree (ok dev) = ok (none, record tree { dev = dev })
stored tree (err e) = ok (some e, tree)
stored tree bug = bug
stored tree out_of_fuel = out_of_fuel

stored-device :
    (tree : Tree) (r : Res Failure (Device × Live))
    → (elim r as (λ _. Res Failure (Option Failure × Tree)) [
      | err e ↦ ok (some e, tree)
      | bug ↦ bug
      | out_of_fuel ↦ out_of_fuel
      | ok (dev, live) ↦ ok (none, record tree { dev = dev })
    ])
      ≡ stored tree (device r)
stored-device tree (ok (dev, live)) = refl
stored-device tree (err e) = refl
stored-device tree bug = refl
stored-device tree out_of_fuel = refl

-- `spfs_write_inode` stores nothing of the inode in memory: for two inodes with the same number it
-- does the same, with the same result.
pub write_inode-same :
    (frame : Bytes) (fuel : Fuel) (tree : Tree) (live live' : Live)
    → live.inode.i_ino ≡ live'.inode.i_ino
    → write_inode frame fuel tree live ≡ write_inode frame fuel tree live'
unfolding write_inode
write_inode-same frame fuel tree live live' same =
    stored-device tree _
    ∙ ap (stored tree) (
        modify_from-device frame live live' fuel.probes fuel.levels tree.dev tree.start
          live.inode.i_ino
        ∙ ap
            (λ n.
              device (
                modify_from frame mod_inode_cb fuel.probes fuel.levels tree.dev tree.start n live'))
            same)
    ∙ sym (stored-device tree _)
