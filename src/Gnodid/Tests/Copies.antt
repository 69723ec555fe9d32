-- ===== src/Gnodid/Tests/Copies.antt =====
-- The copy loop on a disk with the genesis transactions of two nodes.
use gnodi.Base.{
  ap, refl, sym, ◌∙◌, arith, ℕ, zero, suc, ◌<◌, ◌≡◌, ◌≢◌, List, [], ◌∷◌, ⊤, Option, some, none, All,
  length, if◌then◌else◌,
}
use gnodi.Base.Text.{Bytes, bytes, bytes_equal, bytes_equal_iff}
use gnodi.Base.Result.{Result, ok}
use gnodi.Base.Action.{each}
use gnodi.Gnodid.Strings.{itoa, has_prefix}
use gnodi.Gnodid.MultiNode.Env.{InitError}
use gnodi.Gnodid.MultiNode.Files.{copy_file, is_sub_dir}
use gnodi.Gnodid.MultiNode.Genesis.{gentxs_dir_of}
use gnodi.Gnodid.MultiNode.Node.{node_dir, node_dir_name}
use gnodi.Gnodid.MultiNode.Run.{copy_gentx, copy_gentxs}
use gnodi.Gnodid.MultiNode.Run.Disk.{IsDisk}
use gnodi.Gnodid.MultiNode.Run.Copies.{IsPlaced, Has, dst, copy_gentxs_complete}
use gnodi.Gnodid.Tests.MultiNode.{Disk, put, relative, toy, args}

abbrev pub content : Bytes → Disk → Option Bytes
content path s = s path

pub put-put : (f c : Bytes) (s : Disk) → put f c s f ≡ some c
put-put f c s = rw ((bytes_equal_iff f f).1 refl)

pub put-other : (f p c : Bytes) (s : Disk) → p ≢ f → put f c s p ≡ s p
put-other f p c s n = ground (arith, n, bytes_equal_iff p f)

copied_from :
    (o : Option Bytes) (f : Bytes) (n : ℕ) (s s' : Disk)
    → ◌≡◌ {A = Option ℕ × Disk}
        (elim o [ some c ↦ (some (length c), put f c s) | none ↦ (none, s) ])
        (some n, s')
    → (s' f ≡ o) × ((p : Bytes) → p ≢ f → s' p ≡ s p)
copied_from none f n s s' h = cc
copied_from (some c) f n s s' h =
    (sym (ap (λ r. r.1 f) h) ∙ put-put f c s, λ p m. sym (ap (λ r. r.1 p) h) ∙ put-other f p c s m)

toy-IsDisk : IsDisk toy content
toy-IsDisk = record {
  opened = λ f p s s' h. sym (ap (λ r. r.1 p) h);
  created = λ f s s' h. (
    sym (ap (λ r. r.1 f) h) ∙ put-put f [] s,
    λ p n. sym (ap (λ r. r.1 p) h) ∙ put-other f p [] s n,
  );
  copied = λ f src n s s' h. copied_from (s src) f n s s' h;
  synced = λ f p s s' h. sym (ap (λ r. r.1 p) h);
}

-- The transactions of the nodes `a` and `b`.
abbrev files : List Bytes
files = bytes "out/v0/config/gentx/gentx-a.json" ∷ bytes "out/v1/config/gentx/gentx-b.json" ∷ []

abbrev original : Bytes → Bytes
original name = if bytes_equal name (bytes "gentx-a.json") then bytes "first" else bytes "second"

abbrev start : Disk
start =
    put (bytes "out/v1/config/gentx/gentx-b.json") (bytes "second")
      (put (bytes "out/v0/config/gentx/gentx-a.json") (bytes "first") (λ p. none))

abbrev copied : Result InitError ⊤ × Disk
copied = copy_gentxs toy args files 2 0 start

copies : copy_gentxs toy args files 2 0 start ≡ (ok tt, copied.1)
unfolding copy_gentxs copy_gentx copy_file is_sub_dir each has_prefix gentxs_dir_of node_dir
    node_dir_name itoa bytes_equal
copies = refl

placed :
    (j : ℕ)
    → j < 2
    → All
        (IsPlaced toy content toy-IsDisk
          (λ p. p)
          relative
          (λ p s. refl)
          (λ d p. refl)
          original
          args
          j)
        files
unfolding has_prefix gentxs_dir_of node_dir node_dir_name itoa bytes_equal
placed zero h = (
  (refl, ((λ e. refl), (λ e. refl))),
  (
    (
      refl,
      ((λ e. cc), (λ e. ap (λ l. bytes_equal l (bytes "out/v1/config/gentx/gentx-b.json")) e)),
    ),
    tt,
  ),
)
placed (suc zero) h = (
  (refl, ((λ e. cc), (λ e. ap (λ l. bytes_equal l (bytes "out/v0/config/gentx/gentx-a.json")) e))),
  ((refl, ((λ e. refl), (λ e. refl))), tt),
)
placed (suc (suc j)) h = absurd (omega (arith, h))

there :
    All
      (Has toy content toy-IsDisk (λ p. p) relative (λ p s. refl) (λ d p. refl) original args start)
      files
unfolding bytes_equal
there = (refl, (refl, tt))

copy_gentxs_complete_example :
    All
      (λ f.
        Has toy content toy-IsDisk
          (λ p. p)
          relative
          (λ p s. refl)
          (λ d p. refl)
          original
          args
          copied.1
          (dst toy content toy-IsDisk
            (λ p. p)
            relative
            (λ p s. refl)
            (λ d p. refl)
            original
            args
            1
            f))
      files
copy_gentxs_complete_example =
    copy_gentxs_complete toy content toy-IsDisk (λ p. p) relative (λ p s. refl) (λ d p. refl)
      original args files 2 start copied.1 there placed copies 1 (omega arith)
