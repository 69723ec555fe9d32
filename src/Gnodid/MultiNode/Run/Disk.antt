-- ===== src/Gnodid/MultiNode/Run/Disk.antt =====
-- The copy of one file, on a disk that holds what is written.
use gnodi.Base.{ap, sym, ◌∙◌, ℕ, ◌≡◌, ◌≢◌, [], ◌∷◌, Option, some}
use gnodi.Base.Text.{Bytes}
use gnodi.Base.Result.{Result, ok}
use gnodi.Base.Action.{try-then}
use gnodi.Gnodid.MultiNode.Env.{Env, InitError, failed}
use gnodi.Gnodid.MultiNode.Files.{copy_file}

module _ (k : Env) where
  open k use {State, join, base, abs, rel, open_file, create, copy, sync}

  -- The contents of files: opening one changes none, a created one is empty, a copy gives the
  -- destination what the source holds, and a call changes at most the file that it writes.
  pub record IsDisk (content : Bytes → State → Option Bytes) : Type 0 where
    pub opened :
        (f p : Bytes) (s s' : State) → open_file f s ≡ (some tt, s') → content p s' ≡ content p s
    pub created :
        (f : Bytes) (s s' : State)
        → create f s ≡ (some tt, s')
        → (content f s' ≡ some []) × ((p : Bytes) → p ≢ f → content p s' ≡ content p s)
    pub copied :
        (f src : Bytes) (n : ℕ) (s s' : State)
        → copy f src s ≡ (some n, s')
        → (content f s' ≡ content src s) × ((p : Bytes) → p ≢ f → content p s' ≡ content p s)
    pub synced :
        (f p : Bytes) (s s' : State) → sync f s ≡ (some tt, s') → content p s' ≡ content p s

  module _ (content : Bytes → State → Option Bytes) (disk : IsDisk content) where
    -- What a copy does to the files: the destination has the content of a source that is another file.
    pub record IsCopied (src dst : Bytes) (s s' : State) : Type 0 where
      pub same : src ≢ dst → (c : Bytes) → content src s ≡ some c → content dst s' ≡ some c
      pub others : (p : Bytes) → p ≢ dst → content p s' ≡ content p s

    pub copy_file-IsCopied :
        (src dst_dir : Bytes) (s s' : State) (n : ℕ)
        → copy_file k src dst_dir s ≡ (ok n, s')
        → IsCopied src (join (dst_dir ∷ base src ∷ [])) s s'
    unfolding copy_file
    copy_file-IsCopied src dst_dir s s' n h =
        let dst = join (dst_dir ∷ base src ∷ []) in
        let (o, e, h1) = try-then (open_file src s) failed _ h in
        let s1 = (open_file src s).1 in
        let (u, e1, h2) = try-then (create dst s1) failed _ h1 in
        let s2 = (create dst s1).1 in
        let (m, e2, h3) = try-then (copy dst src s2) failed _ h2 in
        let s3 = (copy dst src s2).1 in
        let (v, e3, h4) = try-then (sync dst s3) failed _ h3 in
        let last = at_end h4 in
        record {
          same = λ apart d g.
              ap (content dst) (sym last)
              ∙ disk.synced dst dst s3 _ e3
              ∙ (disk.copied dst src m s2 _ e2).0
              ∙ (disk.created dst s1 _ e1).1 src apart
              ∙ disk.opened src src s _ e
              ∙ g;
          others = λ p apart.
              ap (content p) (sym last)
              ∙ disk.synced dst p s3 _ e3
              ∙ (disk.copied dst src m s2 _ e2).1 p apart
              ∙ (disk.created dst s1 _ e1).1 p apart
              ∙ disk.opened src p s _ e;
        }
      where
        at_end :
            {a : ℕ} {t : State} → ◌≡◌ {A = Result InitError ℕ × State} (ok a, t) (ok n, s') → t ≡ s'
        at_end h = cc
