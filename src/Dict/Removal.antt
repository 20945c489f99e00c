-- ===== src/Dict/Removal.antt =====
-- Python's `dict` with text keys: the removal of a key, and what holds of every value.
use acp_test.Base.{
  false, String, ◌≡◌, ◌∙◌, sym, subst, ap, none, some, [], ◌∷◌, arith, eq_iff, ◌is◌, if◌then◌else◌,
  if_true, is_refl, inl, inr,
}
use acp_test.Dict
use acp_test.Dict.{Dict, Entries, find, get-put_inv, get-modify_inv, get-modify_all_inv}

module _ {ℓ} {V : Type ℓ} where
  delete : String → Entries V → Entries V
  delete k [] = []
  delete k ((j, w) ∷ l) = let rest = delete k l in if j is k then rest else (j, w) ∷ rest

  find-delete :
      (k j : String) (l : Entries V) → find j (delete k l) ≡ (if k is j then none else find j l)
  unfolding find delete
  find-delete k j [] = ground arith
  find-delete k j ((i, w) ∷ l) =
      ground (arith, eq_iff k j, eq_iff i k, eq_iff i j, find-delete k j l)

  -- d.pop(k, None)
  unfoldable pub remove : Dict V → String → Dict V
  unfolding delete
  remove d k = record { entries = delete k d.entries }

  pub get-remove :
      (d : Dict V) (k j : String)
      → Dict.get (remove d k) j ≡ (if k is j then none else Dict.get d j)
  unfolding Dict.get remove
  get-remove d k j = find-delete k j d.entries

  pub get-remove_own : (d : Dict V) (k : String) → Dict.get (remove d k) k ≡ none
  get-remove_own d k = get-remove d k k ∙ if_true (k is k) none (Dict.get d k) (is_refl k)

  pub get-remove_other :
      (d : Dict V) (k j : String) → (k is j) ≡ false → Dict.get (remove d k) j ≡ Dict.get d j
  get-remove_other d k j h = get-remove d k j ∙ ap (λ b. if b then none else Dict.get d j) h

  remove-inv :
      (d : Dict V) (k j : String) {v : V} → Dict.get (remove d k) j ≡ some v → Dict.get d j ≡ some v
  remove-inv d k j h = ground (arith, get-remove d k j)

module _ {ℓ κ} {V : Type ℓ} where
  -- A property of every value.
  abbrev pub Every : (V → Type κ) → Dict V → Type (ℓ ⊔ κ)
  Every P d = (k : String) (v : V) → Dict.get d k ≡ some v → P v

  pub put-Every :
      (P : V → Type κ) (d : Dict V) (k : String) (v : V)
      → Every P d
      → P v
      → Every P (Dict.put d k v)
  put-Every P d k v all p j w h = elim (get-put_inv d k j v h) [
    | inl (e, same) ↦ subst P (sym same) p
    | inr (e, old) ↦ all j w old
  ]

  pub remove-Every : (P : V → Type κ) (d : Dict V) (k : String) → Every P d → Every P (remove d k)
  remove-Every P d k all j w h = all j w (remove-inv d k j h)

  pub modify-Every :
      (P : V → Type κ) (d : Dict V) (k : String) (f : V → V)
      → Every P d
      → ((v : V) → Dict.get d k ≡ some v → P v → P (f v))
      → Every P (Dict.modify d k f)
  modify-Every P d k f all keeps j w h =
      let (v, old, way) = get-modify_inv d k j f h in
      elim way [
        | inl (e, same) ↦ subst P (sym same) (keeps v (ap (Dict.get d) e ∙ old) (all j v old))
        | inr (e, same) ↦ subst P (sym same) (all j v old)
      ]

  pub empty-Every : (P : V → Type κ) → Every P (Dict.empty {V = V})
  empty-Every P j w h = absurd (ground (arith, Dict.get-empty {V = V} j))

  pub modify_all-Every :
      (P : V → Type κ) (d : Dict V) (f : String → V → V)
      → Every P d
      → ((k : String) (v : V) → P v → P (f k v))
      → Every P (Dict.modify_all d f)
  modify_all-Every P d f all keeps j w h =
      let (v, old, same) = get-modify_all_inv d f j h in
      subst P (sym same) (keeps j v (all j v old))
