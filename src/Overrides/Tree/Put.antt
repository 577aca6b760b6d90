-- ===== src/Overrides/Tree/Put.antt =====
-- What a value's place in a nested dictionary leads to, behind `put`.
use pwshpy.Base.{
  false, ◌≡◌, refl, sym, ap, ◌∙◌, List, [], ◌∷◌, ◌++◌, Option, none, some, if◌then◌else◌,
  Bool-cases, Option-cases, inl, inr,
}
use pwshpy.Text.{Text, text_eq}
use pwshpy.Text.Laws.{text_eq→eq, text_eq_refl}
use pwshpy.Overrides.Tree.{
  Node, leaf, table, Table, empty, binding, find, set, sub_table, bind_table, put, on_node, leaf_at,
  path_eq,
}

module _ {V : Type 0} where
  find-set-same : (k : Text) (n : Node V) (t : Table V) → find k (set k n t) ≡ some n
  unfolding find set
  find-set-same k n empty = rw (text_eq_refl k) refl
  find-set-same k n (binding key m t) = elim (Bool-cases (text_eq k key)) [
    | inl same ↦ rw (same, same) refl
    | inr other ↦ rw (other, other) (find-set-same k n t)
  ]

  find-set-other :
      (j k : Text) (n : Node V) (t : Table V) → text_eq j k ≡ false → find j (set k n t) ≡ find j t
  unfolding find set
  find-set-other j k n empty h = rw h refl
  find-set-other j k n (binding key m t) h = elim (Bool-cases (text_eq k key)) [
    | inl same ↦
        let e : k ≡ key = text_eq→eq k key same in
        let differs : text_eq j key ≡ false = rw (← e) h in rw (same, differs) refl
    | inr other ↦
        rw other (ap (λ r. if text_eq j key then some m else r) (find-set-other j k n t h))
  ]

  -- A table that was made for a key, or stood there, leads to the same values.
  on_node-sub_table :
      (n : Option (Node V)) {sub : Table V} (ks : List Text)
      → sub_table n ≡ some sub
      → on_node n (λ t. leaf_at t ks) ks ≡ leaf_at sub ks
  unfolding leaf_at find
  on_node-sub_table none {sub} [] h = let e : empty ≡ sub = cc in ap (λ t. leaf_at t []) e
  on_node-sub_table none {sub} (k ∷ ks) h =
      let e : empty ≡ sub = cc in ap (λ t. leaf_at t (k ∷ ks)) e
  on_node-sub_table (some (table t)) {sub} ks h = let e : t ≡ sub = cc in ap (λ s. leaf_at s ks) e
  on_node-sub_table (some (leaf v)) ks h = absurd (cc)

  leaf_at-set :
      (t : Table V) (key k : Text) (n : Node V) (ks : List Text)
      → leaf_at (set key n t) (k ∷ ks) ≡ (
          if text_eq k key then on_node (some n) (λ sub. leaf_at sub ks) ks else leaf_at t (k ∷ ks))
  unfolding leaf_at
  leaf_at-set t key k n ks = elim (Bool-cases (text_eq k key)) [
    | inl same ↦
        let e : k ≡ key = text_eq→eq k key same in
        let found : find k (set key n t) ≡ some n =
          ap (λ z. find z (set key n t)) e ∙ find-set-same key n t in
        rw (same, found) refl
    | inr other ↦ rw (other, find-set-other k key n t other) refl
  ]

  bind_table-eq_some :
      (m : Option (Table V)) (rest : Table V → Option (Table V)) {t : Table V}
      → bind_table m rest ≡ some t
      → (sub : Table V) × (m ≡ some sub) × (rest sub ≡ some t)
  bind_table-eq_some none rest h = absurd (cc)
  bind_table-eq_some (some sub) rest h = (sub, refl, h)

  -- What the key's node leads to, behind the put of a value.
  abbrev IsPlaced : Table V → Text → List Text → V → Node V → Type 0
  IsPlaced t key rest v n =
      (ks : List Text)
      → on_node (some n) (λ sub. leaf_at sub ks) ks
        ≡ (if path_eq ks rest then some v else leaf_at t (key ∷ ks))

  abbrev IsFree : Table V → Text → List Text → Type 0
  IsFree t key rest = (x : Text) (s : List Text) → leaf_at t (key ∷ (rest ++ x ∷ s)) ≡ none

  leaf-IsPlaced :
      (t : Table V) (key : Text) (v : V) → IsFree t key [] → IsPlaced t key [] v (leaf v)
  unfolding path_eq
  leaf-IsPlaced t key v free [] = refl
  leaf-IsPlaced t key v free (x ∷ s) = sym (free x s)

  leaf_at-set-IsPlaced :
      (t : Table V) (key : Text) (rest : List Text) (v : V) (n : Node V)
      → IsPlaced t key rest v n
      → (p : List Text)
      → leaf_at (set key n t) p ≡ (if path_eq p (key ∷ rest) then some v else leaf_at t p)
  unfolding path_eq
  leaf_at-set-IsPlaced t key rest v n placed [] = unfold leaf_at in refl
  leaf_at-set-IsPlaced t key rest v n placed (k ∷ ks) =
      leaf_at-set t key k n ks ∙ (elim (Bool-cases (text_eq k key)) [
        | inl same ↦
            let e : k ≡ key = text_eq→eq k key same in
            rw same
              (placed ks ∙ ap (λ z. if path_eq ks rest then some v else leaf_at t (z ∷ ks)) (sym e))
        | inr other ↦ rw other refl
      ])

  leaf_at-find :
      (t : Table V) (key : Text) (ks : List Text) {sub : Table V}
      → sub_table (find key t) ≡ some sub
      → leaf_at t (key ∷ ks) ≡ leaf_at sub ks
  leaf_at-find t key ks e = unfold leaf_at in on_node-sub_table (find key t) ks e

  -- A value that is put replaces what its path leads to, and nothing else, unless it takes the place
  -- of a table with values in it.
  pub leaf_at-put :
      (t : Table V) (key : Text) (rest : List Text) (v : V) {filled : Table V}
      → put t key rest v ≡ some filled
      → IsFree t key rest
      → (p : List Text)
      → leaf_at filled p ≡ (if path_eq p (key ∷ rest) then some v else leaf_at t p)
  unfolding put
  leaf_at-put t key [] v {filled} h free p =
      let e : set key (leaf v) t ≡ filled = cc in
      rw (← e) (leaf_at-set-IsPlaced t key [] v (leaf v) (leaf-IsPlaced t key v free) p)
  leaf_at-put t key (k ∷ rest) v {filled} h free p =
      let (sub, found, h1) = bind_table-eq_some (sub_table (find key t)) _ h in
      let (inner, put_inner, h2) = bind_table-eq_some (put sub k rest v) _ h1 in
      let e : set key (table inner) t ≡ filled = cc in
      let placed : IsPlaced t key (k ∷ rest) v (table inner) = λ ks.
        leaf_at-put sub k rest v put_inner
          (λ x s. sym (leaf_at-find t key (k ∷ (rest ++ x ∷ s)) found) ∙ free x s) ks
        ∙ ap (λ z. if path_eq ks (k ∷ rest) then some v else z)
            (sym (leaf_at-find t key ks found)) in
      rw (← e) (leaf_at-set-IsPlaced t key (k ∷ rest) v (table inner) placed p)

  sub_table-eq_none : (n : Option (Node V)) → sub_table n ≡ none → (v : V) × (n ≡ some (leaf v))
  sub_table-eq_none none h = absurd (cc)
  sub_table-eq_none (some (table t)) h = absurd (cc)
  sub_table-eq_none (some (leaf v)) h = (v, refl)

  leaf_at-leaf :
      (t : Table V) (key : Text) {v : V}
      → find key t ≡ some (leaf v)
      → leaf_at t (key ∷ []) ≡ some v
  unfolding leaf_at
  leaf_at-leaf t key e = rw e refl

  -- A value can be put where no table is needed on which a value sits.
  pub put-eq_some :
      (t : Table V) (key : Text) (rest : List Text) (v : V)
      → ((a : List Text) (x : Text) (s : List Text) → key ∷ rest ≡ a ++ x ∷ s → leaf_at t a ≡ none)
      → (filled : Table V) × (put t key rest v ≡ some filled)
  unfolding put
  put-eq_some t key [] v free = (set key (leaf v) t, refl)
  put-eq_some t key (k ∷ rest) v free = elim (Option-cases (sub_table (find key t))) [
    | inl no_table ↦
        let (w, sits) = sub_table-eq_none (find key t) no_table in
        absurd (cc (free (key ∷ []) k rest refl, leaf_at-leaf t key sits))
    | inr (sub, found) ↦
        let (inner, e) = put-eq_some sub k rest v (λ a x s same.
          sym (leaf_at-find t key a found) ∙ free (key ∷ a) x s (ap (λ z. key ∷ z) same)) in
        (set key (table inner) t, rw (found, e) refl)
  ]
