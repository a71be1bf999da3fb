-- ===== src/Vfs/OpenCreate.antt =====
-- A file that is opened, created or not, is the file that is opened again.
use umbongo.Base.{
  ℕ, ◌≡◌, refl, sym, ap, ◌∙◌, List, [], ◌∷◌, Option, none, some, true, false, length, Option-cases,
  inl, inr, subst,
}
use umbongo.Strings.{same_view}
use umbongo.Files.{SysResult, ok, error}
use umbongo.Vfs.{Vfs, regular_file, Resolved, resolve_path, create}
use umbongo.Vfs.Create.{hosts_below}
use umbongo.Vfs.RoundTrip.{resolve_path-create}
use umbongo.Vfs.Open.{OpenFile, OpenMode, open_inode, open_path, open_at, open_created, with_state}

-- Open what is there, and create it if it is not.
abbrev pub plain_mode : OpenMode
plain_mode = record { create_flag = false; truncate_flag = false }

abbrev pub create_mode : OpenMode
create_mode = record { create_flag = true; truncate_flag = false }

open_path-resolved :
    (s : Vfs) (path : List ℕ) (mode : OpenMode) (base : Option ℕ) (r : Resolved)
    → resolve_path s path base ≡ some r
    → open_path s path mode base ≡ open_at s path mode base r.current
unfolding open_path
open_path-resolved s path mode base r resolved = rw resolved refl

with_state-same :
    (s s' : Vfs) (m : Option (SysResult OpenFile)) (f : OpenFile)
    → with_state s m ≡ some (ok f, s')
    → s ≡ s'
with_state-same s s' none f h = absurd cc
with_state-same s s' (some x) f h = cc

open_at-plain :
    (s : Vfs) (path : List ℕ) (base current : Option ℕ) (i : ℕ)
    → current ≡ some i
    → open_at s path plain_mode base current ≡ with_state s (open_inode s i)
open_at-plain s path base current i e = ap (open_at s path plain_mode base) e

-- What was created and opened is opened again.
open_created-again :
    (s s' : Vfs) (path : List ℕ) (base : Option ℕ) (f : OpenFile) (r : Resolved)
    (made : Option (SysResult ℕ × Vfs))
    → create s path base regular_file ≡ made
    → resolve_path s path base ≡ some r
    → same_view r.out_part (46 ∷ 46 ∷ []) ≡ false
    → hosts_below (length s.inodes) s.mounts ≡ true
    → open_created made ≡ some (ok f, s')
    → open_path s' path plain_mode base ≡ some (ok f, s')
open_created-again s s' path base f r none e resolved not_up hosts opened = absurd cc
open_created-again s s' path base f r (some (error x, s1)) e resolved not_up hosts opened =
    absurd cc
open_created-again s s' path base f r (some (ok i, s1)) e resolved not_up hosts opened =
    let (r', (again, found)) =
      resolve_path-create s path base regular_file i s1 r resolved not_up hosts e in
    let same : s1 ≡ s' = with_state-same s1 s' (open_inode s1 i) f opened in
    subst (λ t. open_path t path plain_mode base ≡ some (ok f, s')) same
      (open_path-resolved s1 path plain_mode base r' again
        ∙ open_at-plain s1 path base r'.current i found
        ∙ opened)

-- A path that is opened with the flag to create it, and without the one to truncate it, opens the
-- same file when it is opened again without flags, and that changes nothing. The last part of the
-- path is not `..`, and every host of a mount is an inode.
pub open_path-again :
    (s s' : Vfs) (path : List ℕ) (base : Option ℕ) (f : OpenFile) (r : Resolved)
    → resolve_path s path base ≡ some r
    → same_view r.out_part (46 ∷ 46 ∷ []) ≡ false
    → hosts_below (length s.inodes) s.mounts ≡ true
    → open_path s path create_mode base ≡ some (ok f, s')
    → open_path s' path plain_mode base ≡ some (ok f, s')
open_path-again s s' path base f r resolved not_up hosts opened =
    let at = sym (open_path-resolved s path create_mode base r resolved) ∙ opened in
    elim (Option-cases r.current) [
      | inl missing ↦
          open_created-again s s' path base f r (create s path base regular_file) refl resolved
            not_up hosts (sym (ap (open_at s path create_mode base) missing) ∙ at)
      | inr (i, there) ↦
          let ran : with_state s (open_inode s i) ≡ some (ok f, s') =
            sym (ap (open_at s path create_mode base) there) ∙ at in
          let same : s ≡ s' = with_state-same s s' (open_inode s i) f ran in
          subst (λ t. open_path t path plain_mode base ≡ some (ok f, s')) same
            (open_path-resolved s path plain_mode base r resolved
              ∙ open_at-plain s path base r.current i there
              ∙ ran)
    ]
