-- ===== src/Gnodid/MultiNode/Files.antt =====
-- The files that the command writes and copies: `writeFile`, `copyFile`, `isSubDir`, `generateRandomString`.
use gnodi.Base.{ℕ, zero, suc, Bool, not, ◌&&◌, [], ◌∷◌, Option, some, none, ⊤, length, get_elem?}
use gnodi.Base.Text.{Bytes, bytes}
use gnodi.Base.Action.{Action, ◌>>=◌, ◌>>◌, pure, gets, try, have}
use gnodi.Gnodid.Strings.{has_prefix}
use gnodi.Gnodid.MultiNode.Env.{Env, InitError, failed, panicked}

module _ (k : Env) where
  open k use {
    State, join, base, abs, rel, is_abs, mkdir_all, write_bytes, open_file, create, copy, sync,
    intn,
  }

  unfoldable pub write_file : Bytes → Bytes → Bytes → Action InitError State ⊤
  write_file file dir contents = do
    try (mkdir_all dir) failed
    try (write_bytes file contents) failed

  -- The content of the source goes to the file of its name in `dst_dir`, which is emptied first: a
  -- source that is its own destination is empty by the time it is read.
  unfoldable pub copy_file : Bytes → Bytes → Action InitError State ℕ
  copy_file src dst_dir = do
    let dst = join (dst_dir ∷ base src ∷ [])
    try (open_file src) failed
    try (create dst) failed
    copied ← try (copy dst src) failed
    try (sync dst) failed
    pure copied

  unfoldable pub is_sub_dir : Bytes → Bytes → Action InitError State Bool
  is_sub_dir src dst_dir = do
    found_src ← gets (abs src)
    abs_src ← have found_src failed
    found_dir ← gets (abs dst_dir)
    abs_dst_dir ← have found_dir failed
    relative_path ← have (rel abs_dst_dir abs_src) failed
    pure (not (has_prefix relative_path (bytes "..")) && not (is_abs relative_path))

  unfoldable pub charset : Bytes
  charset = bytes "abcdefghijklmnopqrstuvwxyz0123456789"

  -- The characters from index `i` on, for `n` more.
  unfoldable pub random_characters : ℕ → ℕ → State → Option Bytes
  random_characters zero i s = some []
  random_characters (suc n) i s =
      let rest = random_characters n (suc i) s in
      elim (get_elem? charset (intn s (length charset) i)) [
        | some c ↦ elim rest [ some more ↦ some (c ∷ more) | none ↦ none ]
        | none ↦ none
      ]

  unfoldable pub generate_random_string : ℕ → Action InitError State Bytes
  generate_random_string n = do found ← gets (random_characters n 0); have found panicked
