-- ===== src/Gnodid/MultiNode/Run/Copies.antt =====
-- The genesis transactions that the copy loop leaves in the nodes' directories.
use gnodi.Base.{
  ap, refl, sym, subst, subst₂, ◌∙◌, arith, ℕ, zero, suc, ◌+◌, ◌≤◌, ◌<◌, ◌≡◌, ◌≢◌, ◌↔◌, ◌⊎◌, inl,
  inr, Bool, true, false, not, ◌&&◌, if◌then◌else◌, List, [], ◌∷◌, All, All-map, Option, some, ⊤,
}
use gnodi.Gnodid.Strings.{has_prefix}
use gnodi.Base.Text.{Bytes, bytes, bytes_equal, bytes_equal_iff}
use gnodi.Base.Result.{Result, ok, err}
use gnodi.Base.Action.{bind-ok, each, pure, ◌>>◌}
use gnodi.Gnodid.MultiNode.Env.{Env, InitError}
use gnodi.Gnodid.MultiNode.Node.{Args}
use gnodi.Gnodid.MultiNode.Files.{copy_file, is_sub_dir}
use gnodi.Gnodid.MultiNode.Genesis.{gentxs_dir_of}
use gnodi.Gnodid.MultiNode.Run.{copy_gentx, copy_gentxs}
use gnodi.Gnodid.MultiNode.Run.Disk.{IsDisk, IsCopied, copy_file-IsCopied}

module _ (k : Env) where
  open k use {State, join, base, abs, rel}

  module _ (content : Bytes → State → Option Bytes) (disk : IsDisk k content) where
    module _ (absolute : Bytes → Bytes) (relative : Bytes → Bytes → Bytes)
        (abs_known : (p : Bytes) (s : State) → abs p s ≡ some (absolute p))
        (rel_known : (d p : Bytes) → rel (absolute d) (absolute p) ≡ some (relative d p))
        (original : Bytes → Bytes) (args : Args k) where
      -- Whether the test of `isSubDir` answers yes.
      abbrev pub inside : Bytes → Bytes → Bool
      inside src dir =
          not (has_prefix (relative dir src) (bytes "..")) && not (k.is_abs (relative dir src))

      abbrev pub dst : ℕ → Bytes → Bytes
      dst i f = join (gentxs_dir_of k args i ∷ base f ∷ [])

      -- A file has the content that belongs to its name.
      abbrev pub Has : State → Bytes → Type 0
      Has s p = content p s ≡ some (original (base p))

      -- A copy keeps the file's name, and the file is its own copy exactly where the test of
      -- `isSubDir` says that it is inside the directory.
      abbrev pub IsPlaced : ℕ → Bytes → Type 0
      IsPlaced i f =
          (base (dst i f) ≡ base f) × ((inside f (gentxs_dir_of k args i) ≡ true) ↔ (dst i f ≡ f))

      -- From one state to the next, no file lost the content of its name, and the copies in directory `i` have it.
      record IsStep (s s' : State) (i : ℕ) (l : List Bytes) : Type 0 where
        keeps : (p : Bytes) → Has s p → Has s' p
        has : All (λ f. Has s' (dst i f)) l

      is_sub_dir-inside : (f d : Bytes) (s : State) → is_sub_dir k f d s ≡ (ok (inside f d), s)
      unfolding is_sub_dir
      is_sub_dir-inside f d s = ground (arith, abs_known f s, abs_known d s, rel_known d f)

      copy-IsStep :
          (i : ℕ) (f : Bytes) (s s' : State)
          → Has s f
          → IsPlaced i f
          → f ≢ dst i f
          → IsCopied k content disk f (dst i f) s s'
          → IsStep s s' i (f ∷ [])
      copy-IsStep i f s s' h placed apart c = record {
        keeps = λ p g. kept p g (bytes_equal p (dst i f)) refl;
        has = (copied, tt);
      }
        where
          copied : Has s' (dst i f)
          copied = c.same apart _ (h ∙ ap (λ b. some (original b)) (sym placed.0))

          kept : (p : Bytes) → Has s p → (b : Bool) → bytes_equal p (dst i f) ≡ b → Has s' p
          kept p g true e = subst (Has s') (sym ((bytes_equal_iff p (dst i f)).0 e)) copied
          kept p g false e = c.others p (ground (arith, bytes_equal_iff p (dst i f), e)) ∙ g

      same_state :
          {a : ⊤} {s s' : State}
          → ◌≡◌ {A = Result InitError ⊤ × State} (ok a, s) (ok tt, s')
          → s ≡ s'
      same_state h = cc

      skip-IsStep :
          (i : ℕ) (f : Bytes) (s s' : State)
          → Has s f
          → dst i f ≡ f
          → s ≡ s'
          → IsStep s s' i (f ∷ [])
      skip-IsStep i f s s' h self e = record {
        keeps = λ p. subst (λ t. Has t p) e;
        has = (subst₂ Has e (sym self) h, tt);
      }

      copy_gentx-IsStep :
          (i : ℕ) (f : Bytes) (s s' : State)
          → Has s f
          → IsPlaced i f
          → copy_gentx k args i f s ≡ (ok tt, s')
          → IsStep s s' i (f ∷ [])
      unfolding copy_gentx
      copy_gentx-IsStep i f s s' h placed e = decide (inside f dir) refl (
          subst
            (λ r.
              elim r.0 [
                | err x ↦ (ok tt, r.1)
                | ok b ↦ if b then (ok tt, r.1) else (copy_file k f dir >> pure tt) r.1
              ]
              ≡ (ok tt, s'))
            (is_sub_dir-inside f dir s) e)
        where
          dir : Bytes
          dir = gentxs_dir_of k args i

          differ : {b : Bool} → b ≡ false → b ≡ true → ⊥
          differ e d = cc

          decide :
              (b : Bool)
              → inside f dir ≡ b
              → (if b then (ok tt, s) else (copy_file k f dir >> pure tt) s) ≡ (ok tt, s')
              → IsStep s s' i (f ∷ [])
          decide true yes_inside g = skip-IsStep i f s s' h (placed.1.0 yes_inside) (same_state g)
          decide false outside g =
              let (n, s1, e1, g1) = bind-ok (copy_file k f dir) (λ _. pure tt) s g in
              copy-IsStep i f s s' h placed (λ same. differ outside (placed.1.1 (sym same)))
                (subst (IsCopied k content disk f (dst i f) s) (same_state g1)
                  (copy_file-IsCopied k content disk f dir s s1 n e1))

      files-IsStep :
          (i : ℕ) (l : List Bytes) (s s' : State)
          → All (Has s) l
          → All (IsPlaced i) l
          → each (copy_gentx k args i) l s ≡ (ok tt, s')
          → IsStep s s' i l
      unfolding each
      files-IsStep i [] s s' h placed e = record {
        keeps = λ p. subst (λ t. Has t p) (same_state e);
        has = tt;
      }
      files-IsStep i (f ∷ l) s s' h placed e =
          let (_, s1, e1, e2) =
            bind-ok (copy_gentx k args i f) (λ _. each (copy_gentx k args i) l) s e in
          let first = copy_gentx-IsStep i f s s1 h.0 placed.0 e1 in
          let rest = files-IsStep i l s1 s' (All-map first.keeps l h.1) placed.1 e2 in
          record {
            keeps = λ p g. rest.keeps p (first.keeps p g);
            has = (rest.keeps (dst i f) first.has.0, rest.has);
          }

      -- The rounds from `i` on: what was there is kept, and the directories of these rounds have the copies.
      record IsComplete (s s' : State) (i n : ℕ) (l : List Bytes) : Type 0 where
        keeps : (p : Bytes) → Has s p → Has s' p
        has : (j : ℕ) → i ≤ j → j < i + n → All (λ f. Has s' (dst j f)) l

      rounds-IsComplete :
          (l : List Bytes) (n i : ℕ) (s s' : State)
          → All (Has s) l
          → ((j : ℕ) → i ≤ j → j < i + n → All (IsPlaced j) l)
          → copy_gentxs k args l n i s ≡ (ok tt, s')
          → IsComplete s s' i n l
      unfolding copy_gentxs
      rounds-IsComplete l zero i s s' h placed e = record {
        keeps = λ p. subst (λ t. Has t p) (same_state e);
        has = λ j lo hi. absurd (omega (arith, lo, hi));
      }
      rounds-IsComplete l (suc n) i s s' h placed e =
          let (_, s1, e1, e2) =
            bind-ok (each (copy_gentx k args i) l) (λ _. copy_gentxs k args l n (suc i)) s e in
          let first = files-IsStep i l s s1 h (placed i (omega arith) (omega arith)) e1 in
          let rest =
            rounds-IsComplete l n (suc i) s1 s' (All-map first.keeps l h)
              (λ j lo hi. placed j (omega (arith, lo)) (omega (arith, hi))) e2 in
          record {
            keeps = λ p g. rest.keeps p (first.keeps p g);
            has = λ j lo hi. elim (le_cases i j lo) [
              | inl eq ↦
                  subst (λ m. All (λ f. Has s' (dst m f)) l) eq
                    (All-map (λ f. rest.keeps (dst i f)) l first.has)
              | inr lt ↦ rest.has j lt (omega (arith, hi))
            ];
          }
        where
          le_cases : (a b : ℕ) → a ≤ b → (a ≡ b) ⊎ (suc a ≤ b)
          le_cases a b h = omega arith

      -- On a disk that holds what is written, with paths that resolve, and genesis transactions
      -- whose copies keep their names and which are their own copies exactly where `isSubDir`
      -- finds them inside the directory: if the copy loop ends well, every one of the `n` nodes
      -- has each of them in its directory, with the content that belongs to its name.
      pub copy_gentxs_complete :
          (files : List Bytes) (n : ℕ) (s s' : State)
          → All (Has s) files
          → ((j : ℕ) → j < n → All (IsPlaced j) files)
          → copy_gentxs k args files n 0 s ≡ (ok tt, s')
          → (j : ℕ) → j < n
          → All (λ f. Has s' (dst j f)) files
      copy_gentxs_complete files n s s' h placed e j hi =
          (rounds-IsComplete files n 0 s s' h (λ m lo l. placed m (omega (arith, l))) e).has j
            (omega arith) (omega (arith, hi))
