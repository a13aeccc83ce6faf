-- ===== src/Compiler/Graph/Cycle/Order.antt =====
-- A call of `visit` that finds no cycle puts back the path, and adds its node to a list of visited
-- nodes in which the targets of each node come later.
use multiverse.Base.{
  ℕ, zero, suc, String, List, [], ◌∷◌, ◌≡◌, refl, ap, ◌∙◌, inl, inr, eq_iff, arith, Bool-cases, ◌⊎◌,
  All, subst, sym,
}
use multiverse.Base.Member.{In, has, has_iff, In-All}
use multiverse.Compiler.Graph.Paths.{Reach, here, step, Plus}
use multiverse.Compiler.Graph.Edges.{Adjacency, targets, Next}
use multiverse.Compiler.Graph.Cycle.{
  Dfs, Outcome, cleared, found, out_of_fuel, remove, drop_last, enter, leave, scan, finish, visit,
}
use multiverse.Compiler.Graph.Cycle.Walk.{drop_last-snoc}

pub Outcome-cases :
    (o : Outcome)
    → ((s : Dfs) × (o ≡ cleared s)) ⊎ (((c : List String) × (o ≡ found c)) ⊎ (o ≡ out_of_fuel))
Outcome-cases (cleared s) = inl (s, refl)
Outcome-cases (found c) = inr (inl (c, refl))
Outcome-cases out_of_fuel = inr (inr refl)

remove-cons : (v : String) (xs : List String) → remove v (v ∷ xs) ≡ xs
unfolding remove
remove-cons v xs = rw ((eq_iff v v).1 refl) refl

module _ (m : Adjacency) where
  -- The targets of each node stand behind it.
  abbrev pub Ordered : List String → Type 0
  Ordered [] = Unit
  Ordered (v ∷ vs) = All (λ t. In t vs) (targets m v) × Ordered vs

  -- What a call that finds no cycle does to the state.
  pub record Clears (s s' : Dfs) : Type 0 where
    pub same_path : s'.path ≡ s.path
    pub same_visiting : s'.visiting ≡ s.visiting
    pub ordered : Ordered s.visited → Ordered s'.visited
    pub kept : (u : String) → In u s.visited → In u s'.visited

  Clears-refl : (s : Dfs) → Clears s s
  Clears-refl s = record {
    same_path = refl;
    same_visiting = refl;
    ordered = λ h. h;
    kept = λ u i. i;
  }

  Clears-trans : (s t u : Dfs) → Clears s t → Clears t u → Clears s u
  Clears-trans s t u a b = record {
    same_path = b.same_path ∙ a.same_path;
    same_visiting = b.same_visiting ∙ a.same_visiting;
    ordered = λ h. b.ordered (a.ordered h);
    kept = λ x i. b.kept x (a.kept x i);
  }

  -- What a visit of `v` promises, and a loop over `ts`.
  abbrev pub Visits : (String → Dfs → Outcome) → Type 0
  Visits f = (v : String) (s s' : Dfs) → f v s ≡ cleared s' → Clears s s' × In v s'.visited

  pub scan-Clears :
      (f : String → Dfs → Outcome)
      → Visits f
      → (ts : List String) (s s' : Dfs) → scan f ts s ≡ cleared s'
      → Clears s s' × All (λ t. In t s'.visited) ts
  unfolding scan
  scan-Clears f h [] s s' e = (subst (λ x. Clears s x) (ground arith) (Clears-refl s), tt)
  scan-Clears f h (t ∷ ts) s s' e = elim (Outcome-cases (f t s)) [
    | inl (u, q) ↦
        let (first, at) = h t s u q in
        let (rest, all) = scan-Clears f h ts u s' (rw (q, scan) at e) in
        (Clears-trans s u s' first rest, (rest.kept t at, all))
    | inr (inl (c, q)) ↦ absurd (ground arith)
    | inr (inr q) ↦ absurd (ground arith)
  ]

  leave-Clears :
      (v : String) (s u : Dfs)
      → Clears (enter v s) u
      → All (λ t. In t u.visited) (targets m v)
      → Clears s (leave v u)
  unfolding leave
  leave-Clears v s u h all = record {
    same_path = ap drop_last h.same_path ∙ drop_last-snoc s.path v;
    same_visiting = ap (remove v) h.same_visiting ∙ remove-cons v s.visiting;
    ordered = λ o. (all, h.ordered o);
    kept = λ x i. inr (h.kept x i);
  }

  finish-cleared :
      (v : String) (o : Outcome) (s' : Dfs)
      → finish v o ≡ cleared s'
      → (u : Dfs) × (o ≡ cleared u) × (s' ≡ leave v u)
  unfolding finish
  finish-cleared v (cleared s) s' e = (s, refl, ground arith)
  finish-cleared v (found c) s' e = absurd (ground arith)
  finish-cleared v out_of_fuel s' e = absurd (ground arith)

  leave-at : (v : String) (u : Dfs) → In v (leave v u).visited
  unfolding leave
  leave-at v u = inl refl

  pub visit-Visits : (fuel : ℕ) → Visits (visit m fuel)
  unfolding visit
  visit-Visits zero v s s' e = absurd (ground arith)
  visit-Visits (suc fuel) v s s' e = elim (Bool-cases (has s.visiting v)) [
    | inl old ↦ absurd (ground arith)
    | inr new ↦ elim (Bool-cases (has s.visited v)) [
      | inl old ↦
          let same : s ≡ s' = ground arith in
          subst (λ x. Clears s x × In v x.visited) same (Clears-refl s, (has_iff s.visited v).0 old)
      | inr new' ↦
          let loop = scan (visit m fuel) (targets m v) (enter v s) in
          let e' : finish v loop ≡ cleared s' = rw (new, new', visit) at e in
          let (u, q, same) = finish-cleared v loop s' e' in
          let (h, all) =
            scan-Clears (visit m fuel) (visit-Visits fuel) (targets m v) (enter v s) u q in
          subst (λ x. Clears s x × In v x.visited) (sym same)
            (leave-Clears v s u h all, leave-at v u)
    ]
  ]

  Next-closed : (vs : List String) → Ordered vs → (u w : String) → In u vs → Next m u w → In w vs
  Next-closed [] o u w i e = absurd i
  Next-closed (v ∷ vs) o u w (inl same) e =
      inr (In-All (λ t. In t vs) (targets m v) w o.0 (subst (λ x. Next m x w) same e))
  Next-closed (v ∷ vs) o u w (inr i) e = inr (Next-closed vs o.1 u w i e)

  Ordered-closed :
      (vs : List String) → Ordered vs → (u w : String) → In u vs → Reach (Next m) u w → In w vs
  Ordered-closed vs o u w i here = i
  Ordered-closed vs o u w i (step {v = x} r e) =
      Next-closed vs o x w (Ordered-closed vs o u x i r) e

  -- No cycle goes through an ordered list.
  pub Ordered-acyclic :
      (vs : List String) → Ordered vs → (u : String) → In u vs → ¬ Plus (Next m) u u
  Ordered-acyclic [] o u i p = absurd i
  Ordered-acyclic (v ∷ vs) o u i (w, r, e) =
      let later : In u vs = elim (Ordered-closed (v ∷ vs) o u w i r) [
        | inl same ↦ In-All (λ t. In t vs) (targets m v) u o.0 (subst (λ x. Next m x u) same e)
        | inr j ↦ Next-closed vs o.1 w u j e
      ] in
      Ordered-acyclic vs o.1 u later (w, r, e)
