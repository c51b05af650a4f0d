-- ===== src/FileSystem/Dirs/Flag.antt =====
-- What sfs_opendir and sfs_releasedir do to a directory, and which one sfs_readdir opens.
use simple_os_dev_projs.Base.{
  ℕ, ◌+◌, ◌≤◌, ◌<◌, ◌≡◌, ◌≢◌, inl, inr, refl, sym, ap, ◌∙◌, false, true, Bool-cases, List, Option,
  none, some, Run, ok, fault, ◌>>=◌, arith, ◌==◌, if_true, if_false, if◌then◌else◌, update,
}
use simple_os_dev_projs.FileSystem.Disk.{Block, Disk, Device}
use simple_os_dev_projs.FileSystem.Inode.{at_flag, letter_o, no_ref, inode_offset}
use simple_os_dev_projs.FileSystem.Inode.Reading.{
  home_of, block_of_inode-quotient, write_or_exit-ok, get_block-negative,
}
use simple_os_dev_projs.FileSystem.Path.{tokens, cut_path}
use simple_os_dev_projs.FileSystem.Path.Tokens.{first_only, tokens-cut_path}
use simple_os_dev_projs.FileSystem.Path.Tree.{resolve, resolve-cases, Linked, inode_rounds}
use simple_os_dev_projs.FileSystem.Path.Resolve.{get_block-small, lookup-missing, lookup-found}
use simple_os_dev_projs.FileSystem.Dirs.{
  Retstat, success, failure, may_open, open_inode, sfs_opendir, sfs_releasedir, open_if_needed,
}

-- The disk with the flag of an inode set.
abbrev pub set_flag : (inumb v : ℕ) → Disk → Disk
set_flag inumb v d =
    update d (home_of inumb) (update (d (home_of inumb)) (inode_offset inumb + at_flag) v)

abbrev pub rewrite_block : (inumb : ℕ) → Disk → Disk
rewrite_block inumb d = update d (home_of inumb) (d (home_of inumb))

-- An open request for the inode that a path leads to.
abbrev pub opening : Disk → Option ℕ → Run (Retstat × Disk)
opening d none = fault
opening d (some n) =
    if may_open (inode_offset n) (d (home_of n))
    then ok (success, set_flag n letter_o d)
    else ok (failure, rewrite_block n d)

abbrev pub closing : Disk → Option ℕ → Run (Retstat × Disk)
closing d none = fault
closing d (some n) = ok (success, set_flag n 0 d)

open_inode-yes :
    (o : ℕ) (b : Block)
    → may_open o b ≡ true
    → open_inode o b ≡ (success, update b (o + at_flag) letter_o)
unfolding open_inode
open_inode-yes o b e = if_true _ _ _ e

open_inode-no : (o : ℕ) (b : Block) → may_open o b ≡ false → open_inode o b ≡ (failure, b)
unfolding open_inode
open_inode-no o b e = if_false _ _ _ e

opened-opening :
    (d : Disk) (n : ℕ)
    → let r = open_inode (inode_offset n) (d (home_of n)) in
      ok (r.0, update d (home_of n) r.1) ≡ opening d (some n)
opened-opening d n =
    let result = λ (r : Retstat × Block). ok (r.0, update d (home_of n) r.1) in
    elim (Bool-cases (may_open (inode_offset n) (d (home_of n)))) [
      | inl e ↦ ap result (open_inode-yes _ _ e) ∙ sym (if_true _ _ _ e)
      | inr e ↦ ap result (open_inode-no _ _ e) ∙ sym (if_false _ _ _ e)
    ]

flag_test : (v : ℕ) → v ≢ letter_o → (v == letter_o) ≡ false
flag_test v closed = ground (arith, closed)

module _ (g : ℕ) (dev : Device) (path : List ℕ) (d : Disk)
    (reads : (n : ℕ) → dev.read_fails n ≡ false) (writes : (n : ℕ) → dev.write_fails n ≡ false)
    (linked : Linked d) (rounds : inode_rounds ≤ g) where
  opendir-missing : resolve d (tokens path) 0 ≡ none → sfs_opendir g dev path d ≡ fault
  unfolding sfs_opendir
  opendir-missing e =
      rw (lookup-missing g dev path d reads linked rounds e)
        (rw (get_block-negative g dev no_ref d (omega arith), ◌>>=◌) refl)

  opendir-found :
      (n : ℕ)
      → resolve d (tokens path) 0 ≡ some n
      → n < 5000
      → sfs_opendir g dev path d ≡ opening d (some n)
  unfolding sfs_opendir
  opendir-found n e less = rw (lookup-found g dev path d reads linked rounds n e) (
      rw (get_block-small g dev d reads linked rounds n less, ◌>>=◌)
        (rw (block_of_inode-quotient g n (omega arith) (omega arith), ◌>>=◌)
          (rw (write_or_exit-ok dev (home_of n) _ d (writes (home_of n)), ◌>>=◌)
            (opened-opening d n))))

  releasedir-missing : resolve d (tokens path) 0 ≡ none → sfs_releasedir g dev path d ≡ fault
  unfolding sfs_releasedir
  releasedir-missing e =
      rw (lookup-missing g dev path d reads linked rounds e)
        (rw (get_block-negative g dev no_ref d (omega arith), ◌>>=◌) refl)

  releasedir-found :
      (n : ℕ)
      → resolve d (tokens path) 0 ≡ some n
      → n < 5000
      → sfs_releasedir g dev path d ≡ closing d (some n)
  unfolding sfs_releasedir
  releasedir-found n e less = rw (lookup-found g dev path d reads linked rounds n e) (
      rw (get_block-small g dev d reads linked rounds n less, ◌>>=◌)
        (rw (block_of_inode-quotient g n (omega arith) (omega arith), ◌>>=◌)
          (rw (write_or_exit-ok dev (home_of n) _ d (writes (home_of n)), ◌>>=◌) refl)))

-- Where reads and writes of the disk succeed, every entry of the 5000 inodes is -1 or the number of
-- one of them, and the rounds suffice, both sfs_opendir and sfs_releasedir fault on a path that
-- leads nowhere. Opening succeeds just if the inode is a directory that its owner may read and
-- execute, and then sets its flag to o; otherwise it fails and writes back what it read. Releasing
-- sets the flag to 0 whatever the inode is. No other byte of the disk changes.
pub sfs_opendir-opening :
    (g : ℕ) (dev : Device) (path : List ℕ) (d : Disk)
    → ((n : ℕ) → dev.read_fails n ≡ false)
    → ((n : ℕ) → dev.write_fails n ≡ false)
    → Linked d
    → inode_rounds ≤ g
    → (sfs_opendir g dev path d ≡ opening d (resolve d (tokens path) 0))
      × (sfs_releasedir g dev path d ≡ closing d (resolve d (tokens path) 0))
sfs_opendir-opening g dev path d reads writes linked rounds =
    elim (resolve-cases d linked (tokens path) 0 (omega arith)) [
      | inl e ↦ (
        opendir-missing g dev path d reads writes linked rounds e ∙ sym (ap (opening d) e),
        releasedir-missing g dev path d reads writes linked rounds e ∙ sym (ap (closing d) e),
      )
      | inr (n, e, less) ↦ (
        opendir-found g dev path d reads writes linked rounds n e less ∙ sym (ap (opening d) e),
        releasedir-found g dev path d reads writes linked rounds n e less ∙ sym (ap (closing d) e),
      )
    ]

-- Where reads and writes of the disk succeed, every entry of the 5000 inodes is -1 or the number of
-- one of them, the rounds suffice, and the directory that sfs_readdir has found does not have the
-- flag o, what it opens is not that directory but the one that the first name of the path alone
-- leads to.
pub open_if_needed-first :
    (g : ℕ) (dev : Device) (path : List ℕ) (o : ℕ) (dir : Block) (d : Disk)
    → ((n : ℕ) → dev.read_fails n ≡ false)
    → ((n : ℕ) → dev.write_fails n ≡ false)
    → Linked d
    → inode_rounds ≤ g
    → dir (o + at_flag) ≢ letter_o
    → open_if_needed g dev path o dir d ≡ opening d (resolve d (first_only (tokens path)) 0)
unfolding open_if_needed
open_if_needed-first g dev path o dir d reads writes linked rounds closed =
    if_false _ _ _ (flag_test (dir (o + at_flag)) closed)
    ∙ (sfs_opendir-opening g dev (cut_path path) d reads writes linked rounds).0
    ∙ ap (λ ts. opening d (resolve d ts 0)) (tokens-cut_path path)
