-- ===== src/Discovery/Best.antt =====
-- src/acp_proxy/discovery.py, _select_best_binary: what is selected.
use acp_test.Base.{
  String, ◌≡◌, refl, ◌⊎◌, inl, inr, Bool, true, false, not, ◌&&◌, Option, none, some, List, [], ◌∷◌,
  arith, if◌then◌else◌, subst, sym,
}
use acp_test.Discovery.{
  Version, min_version, version_lt, BinaryAdmission, Platform, inspect_binary, admitted, better,
  best, canonical_paths, select_best_binary, selected, is_empty, select_admitted, keep,
}

-- An admission is one of a list.
pub data In (a : BinaryAdmission) : List BinaryAdmission → Type 0 where
  first : {l : List BinaryAdmission} → In a (a ∷ l)
  later : {b : BinaryAdmission} {l : List BinaryAdmission} → In a l → In a (b ∷ l)

version_lt_trans :
    (a b c : Version) → version_lt b a ≡ false → version_lt c b ≡ false → version_lt c a ≡ false
unfolding version_lt
version_lt_trans a b c h k = ground arith

-- The best of some candidates is one of them, and none of them has a higher version.
best-In : (a : BinaryAdmission) (l : List BinaryAdmission) → In (best a l) (a ∷ l)
unfolding best
best-In a [] = first
best-In a (b ∷ l) = among (best-In (if better b a then b else a) l) (ground arith)
  where
    among : {r c : BinaryAdmission} → In r (c ∷ l) → (c ≡ a) ⊎ (c ≡ b) → In r (a ∷ b ∷ l)
    among first (inl e) = subst (λ x. In x (a ∷ b ∷ l)) (sym e) first
    among first (inr e) = subst (λ x. In x (a ∷ b ∷ l)) (sym e) (later first)
    among (later i) e = later (later i)

-- The one that is kept of two is no lower than either.
kept_highest :
    (a c : BinaryAdmission)
    → (version_lt (if better c a then c else a).version a.version ≡ false)
      × (version_lt (if better c a then c else a).version c.version ≡ false)
unfolding better version_lt
kept_highest a c = (ground arith, ground arith)

version_lt_irrefl : (v : Version) → version_lt v v ≡ false
unfolding version_lt
version_lt_irrefl v = ground arith

best_highest :
    (a : BinaryAdmission) (l : List BinaryAdmission) (b : BinaryAdmission)
    → In b (a ∷ l)
    → version_lt (best a l).version b.version ≡ false
unfolding best
best_highest a [] b first = version_lt_irrefl a.version
best_highest a [] b (later i) = elim i [ ]
best_highest a (c ∷ l) b first =
    version_lt_trans a.version (if better c a then c else a).version
      (best (if better c a then c else a) l).version (kept_highest a c).0
      (best_highest (if better c a then c else a) l (if better c a then c else a) first)
best_highest a (c ∷ l) b (later first) =
    version_lt_trans c.version (if better c a then c else a).version
      (best (if better c a then c else a) l).version (kept_highest a c).1
      (best_highest (if better c a then c else a) l (if better c a then c else a) first)
best_highest a (c ∷ l) b (later (later i)) =
    best_highest (if better c a then c else a) l b (later i)

-- What admission has observed of a binary.
pub record Observed (p : Platform) (a : BinaryAdmission) : Type 0 where
  pub executable : p.is_executable a.path ≡ true
  pub probed : p.probe a.path ≡ some a.version
  pub at_least : version_lt a.version min_version ≡ false

inspect_binary-Observed :
    (p : Platform) (path : String) (a : BinaryAdmission)
    → inspect_binary p path ≡ some a
    → Observed p a
unfolding inspect_binary
inspect_binary-Observed p path a e = record {
  executable = ground arith;
  probed = ground arith;
  at_least = ground arith;
}

admitted-Observed :
    (p : Platform) (paths : List String) (a : BinaryAdmission)
    → In a (admitted p paths)
    → Observed p a
unfolding admitted
admitted-Observed p [] a i = elim i [ ]
admitted-Observed p (path ∷ paths) a i =
    kept (inspect_binary p path) refl (admitted-Observed p paths a) i
  where
    kept :
        (o : Option BinaryAdmission)
        → inspect_binary p path ≡ o
        → (In a (admitted p paths) → Observed p a)
        → In a (keep o (admitted p paths))
        → Observed p a
    kept none e rest i = rest i
    kept (some b) e rest first = inspect_binary-Observed p path b e
    kept (some b) e rest (later i) = rest i

-- A binary that is selected is an executable file whose probed version is at least the minimum, and no
-- admitted candidate has a higher version.
pub select_best_binary-Observed :
    (p : Platform) (paths : List String) (fails : Bool) (path : String)
    → select_best_binary p paths fails ≡ selected path
    → (a : BinaryAdmission) × (a.path ≡ path)
      × Observed p a
      × ((b : BinaryAdmission)
          → In b (admitted p (canonical_paths p paths))
          → version_lt a.version b.version ≡ false)
unfolding select_best_binary
select_best_binary-Observed p paths fails path e =
    chosen (admitted p (canonical_paths p paths)) refl e
  where
    chosen :
        (l : List BinaryAdmission)
        → admitted p (canonical_paths p paths) ≡ l
        → select_admitted (fails && not (is_empty (canonical_paths p paths))) l ≡ selected path
        → (a : BinaryAdmission) × (a.path ≡ path)
          × Observed p a
          × ((b : BinaryAdmission)
              → In b (admitted p (canonical_paths p paths))
              → version_lt a.version b.version ≡ false)
    chosen [] s e = absurd (ground arith)
    chosen (a ∷ l) s e = (
      best a l,
      ground arith,
      admitted-Observed p (canonical_paths p paths) (best a l)
          (subst (In (best a l)) (sym s) (best-In a l)),
      λ b i. best_highest a l b (subst (In b) s i),
    )
