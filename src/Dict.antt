-- ===== src/Dict.antt =====
-- Python's `dict` with text keys: insertion order, one entry for each key. A write to an object that
-- a dict holds is `modify`. Clients have the laws, and do not see the entries.
pub mod Removal
use acp_test.Base.{
  ℕ, suc, ◌+◌, String, ◌≡◌, refl, sym, ◌∙◌, ap, ◌⊎◌, inl, inr, Bool, true, false, Option, none,
  some, List, [], ◌∷◌, map, arith, eq_iff, ◌is◌, length, Bool-cases, if◌then◌else◌, if_true,
  is_refl,
}
use mathlib.Core.Option

abbrev Entries {ℓ} : Type ℓ → Type ℓ
Entries V = List (String × V)

pub record Dict {ℓ} (V : Type ℓ) : Type ℓ where
  entries : Entries V

abbrev pub is_some {ℓ} : {A : Type ℓ} → Option A → Bool
is_some none = false
is_some (some a) = true

module _ {ℓ} {V : Type ℓ} where
  find : String → Entries V → Option V
  find k [] = none
  find k ((j, v) ∷ l) = if j is k then some v else find k l

  store : String → V → Entries V → Entries V
  store k v [] = (k, v) ∷ []
  store k v ((j, w) ∷ l) = if j is k then (j, v) ∷ l else (j, w) ∷ store k v l

  change : String → (V → V) → Entries V → Entries V
  change k f [] = []
  change k f ((j, w) ∷ l) = if j is k then (j, f w) ∷ l else (j, w) ∷ change k f l

  each : (String → V → V) → Entries V → Entries V
  each f [] = []
  each f ((j, w) ∷ l) = (j, f j w) ∷ each f l

  find-store :
      (k j : String) (v : V) (l : Entries V)
      → find j (store k v l) ≡ (if k is j then some v else find j l)
  unfolding find store
  find-store k j v [] = refl
  find-store k j v ((i, w) ∷ l) =
      ground (arith, eq_iff k j, eq_iff i k, eq_iff i j, find-store k j v l)

  find-change :
      (k j : String) (f : V → V) (l : Entries V)
      → find j (change k f l) ≡ (if k is j then Option.map f (find j l) else find j l)
  unfolding find change
  find-change k j f [] = ground arith
  find-change k j f ((i, w) ∷ l) =
      ground (arith, eq_iff k j, eq_iff i k, eq_iff i j, find-change k j f l)

  find-each :
      (j : String) (f : String → V → V) (l : Entries V)
      → find j (each f l) ≡ Option.map (f j) (find j l)
  unfolding find each
  find-each j f [] = refl
  find-each j f ((i, w) ∷ l) = ground (arith, eq_iff i j, find-each j f l)

  length-store :
      (k : String) (v : V) (l : Entries V)
      → length (store k v l) ≡ (if is_some (find k l) then length l else length l + 1)
  unfolding find store
  length-store k v [] = refl
  length-store k v ((i, w) ∷ l) = ground (arith, eq_iff i k, length-store k v l)

  length-change : (k : String) (f : V → V) (l : Entries V) → length (change k f l) ≡ length l
  unfolding change
  length-change k f [] = refl
  length-change k f ((i, w) ∷ l) = ground (arith, length-change k f l)

  length-each : (f : String → V → V) (l : Entries V) → length (each f l) ≡ length l
  unfolding each
  length-each f [] = refl
  length-each f ((i, w) ∷ l) = ap suc (length-each f l)

  unfoldable pub empty : Dict V
  empty = record { entries = [] }

  -- d.get(k)
  unfoldable pub get : Dict V → String → Option V
  unfolding find
  get d k = find k d.entries

  -- d[k] = v
  unfoldable pub put : Dict V → String → V → Dict V
  unfolding store
  put d k v = record { entries = store k v d.entries }

  -- A write to the object d[k]; nothing where the key is missing.
  unfoldable pub modify : Dict V → String → (V → V) → Dict V
  unfolding change
  modify d k f = record { entries = change k f d.entries }

  -- A write to every object of the dict, in order.
  unfoldable pub modify_all : Dict V → (String → V → V) → Dict V
  unfolding each
  modify_all d f = record { entries = each f d.entries }

  -- len(d)
  unfoldable pub size : Dict V → ℕ
  size d = length d.entries

  -- d.values(), in the order of insertion
  pub values : Dict V → List V
  values d = map (λ e. e.1) d.entries

  -- list(d.items()), in the order of insertion
  pub items : Dict V → List (String × V)
  items d = d.entries

  pub get-put :
      (d : Dict V) (k j : String) (v : V) → get (put d k v) j ≡ (if k is j then some v else get d j)
  unfolding get put
  get-put d k j v = find-store k j v d.entries

  pub get-modify :
      (d : Dict V) (k j : String) (f : V → V)
      → get (modify d k f) j ≡ (if k is j then Option.map f (get d j) else get d j)
  unfolding get modify
  get-modify d k j f = find-change k j f d.entries

  pub get-modify_all :
      (d : Dict V) (f : String → V → V) (j : String)
      → get (modify_all d f) j ≡ Option.map (f j) (get d j)
  unfolding get modify_all
  get-modify_all d f j = find-each j f d.entries

  pub size-put :
      (d : Dict V) (k : String) (v : V)
      → size (put d k v) ≡ (if is_some (get d k) then size d else size d + 1)
  unfolding size put get
  size-put d k v = length-store k v d.entries

  pub size-modify : (d : Dict V) (k : String) (f : V → V) → size (modify d k f) ≡ size d
  unfolding size modify
  size-modify d k f = length-change k f d.entries

  pub size-modify_all : (d : Dict V) (f : String → V → V) → size (modify_all d f) ≡ size d
  unfolding size modify_all
  size-modify_all d f = length-each f d.entries

module _ {ℓ} {V : Type ℓ} where
  -- What a value found after a write was before it.
  pub get-modify_inv :
      (d : Dict V) (k j : String) (f : V → V) {w : V}
      → get (modify d k f) j ≡ some w
      → (v : V) × (get d j ≡ some v) × (((k ≡ j) × (w ≡ f v)) ⊎ (((k is j) ≡ false) × (w ≡ v)))
  get-modify_inv d k j f h =
      inverted (get d j) (k is j) (eq_iff k j).0 (sym (get-modify d k j f) ∙ h)
    where
      inverted :
          {w : V} (o : Option V) (b : Bool)
          → (b ≡ true → k ≡ j)
          → (if b then Option.map f o else o) ≡ some w
          → (v : V) × (o ≡ some v) × (((k ≡ j) × (w ≡ f v)) ⊎ ((b ≡ false) × (w ≡ v)))
      inverted none true e h = cc
      inverted none false e h = cc
      inverted (some v) true e h = (v, refl, inl (e refl, ground arith))
      inverted (some v) false e h = (v, refl, inr (refl, ground arith))

  pub get-put_inv :
      (d : Dict V) (k j : String) (v : V) {w : V}
      → get (put d k v) j ≡ some w
      → ((k ≡ j) × (w ≡ v)) ⊎ (((k is j) ≡ false) × (get d j ≡ some w))
  get-put_inv d k j v h = ground (arith, get-put d k j v, eq_iff k j)

  pub get-modify_all_inv :
      (d : Dict V) (f : String → V → V) (j : String) {w : V}
      → get (modify_all d f) j ≡ some w
      → (v : V) × (get d j ≡ some v) × (w ≡ f j v)
  get-modify_all_inv d f j h = inverted (get d j) (sym (get-modify_all d f j) ∙ h)
    where
      inverted :
          {w : V} (o : Option V)
          → Option.map (f j) o ≡ some w
          → (v : V) × (o ≡ some v) × (w ≡ f j v)
      inverted none h = cc
      inverted (some v) h = (v, refl, ground arith)

-- The key that is written, and another key.
pub get-put_own {ℓ} : {V : Type ℓ} (d : Dict V) (k : String) (v : V) → get (put d k v) k ≡ some v
get-put_own d k v = get-put d k k v ∙ if_true (k is k) (some v) (get d k) (is_refl k)

pub get-put_other {ℓ} :
    {V : Type ℓ} (d : Dict V) (k j : String) (v : V)
    → (k is j) ≡ false
    → get (put d k v) j ≡ get d j
get-put_other d k j v h = get-put d k j v ∙ ap (λ b. if b then some v else get d j) h

-- A write to an entry that is there.
pub get-modify-some {ℓ} :
    {V : Type ℓ} (d : Dict V) (k j : String) (f : V → V) (x : V)
    → get d j ≡ some x
    → get (modify d k f) j ≡ some (if k is j then f x else x)
get-modify-some d k j f x h =
    get-modify d k j f
    ∙ elim (Bool-cases (k is j)) [ inl e ↦ rw (e, h) refl | inr e ↦ rw (e, h) refl ]

pub get-empty {ℓ} : {V : Type ℓ} (k : String) → get (empty {V = V}) k ≡ none
unfolding get empty
get-empty k = refl

pub size-empty {ℓ} : (V : Type ℓ) → size (empty {V = V}) ≡ 0
unfolding size empty
size-empty V = refl

pub ruleset dict_laws = (
  get-empty, get-put, get-modify, get-modify_all, size-empty, size-put, size-modify,
  size-modify_all,
)
