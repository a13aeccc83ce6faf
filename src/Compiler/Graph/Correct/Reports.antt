-- ===== src/Compiler/Graph/Correct/Reports.antt =====
-- Each check of `validate_graph` reports nothing exactly if what it looks for is not there.
use multiverse.Base.{
  String, List, [], ◌∷◌, Option, none, some, ◌≡◌, refl, inl, inr, arith, ◌⊎◌, ◌↔◌, Bool-cases, true,
  false, subst, sym,
}
use multiverse.Base.Member.{In, has, has_iff}
use multiverse.Compiler.Graph.Paths.{Reach}
use multiverse.Compiler.Graph.Edges.{Nodes, Adjacency, keys, Next}
use multiverse.Compiler.Graph.Search.{meets, can_reach_end}
use multiverse.Compiler.Graph.Search.Exact.{reachable-exact}
use multiverse.Compiler.Graph.Validate.{
  Diagnostic, also, edge_problems, unreachable_problems, path_problems, end_problems,
}
use multiverse.Compiler.Graph.Correct.Adjacency.{Joins}

pub also-clean :
    (a b : Option (List Diagnostic)) → (also a b ≡ some []) ↔ ((a ≡ some []) × (b ≡ some []))
unfolding also
also-clean none b = ground arith
also-clean (some []) none = ground arith
also-clean (some []) (some es) = ground arith
also-clean (some (d ∷ ds)) none = ground arith
also-clean (some (d ∷ ds)) (some es) = ground arith

meets_iff : (vs ends : List String) → (meets vs ends ≡ true) ↔ ((w : String) × In w vs × In w ends)
unfolding meets
meets_iff [] ends = ((λ e. absurd (ground arith)), λ (w, i, j). absurd i)
meets_iff (v ∷ vs) ends = elim (Bool-cases (has ends v)) [
  | inl yes_v ↦ ((λ e. (v, inl refl, (has_iff ends v).0 yes_v)), λ h. ground arith)
  | inr no_v ↦
      let ih = meets_iff vs ends in
      (
        (λ e. let (w, i, j) = ih.0 (rw (no_v, meets) at e) in (w, inr i, j)),
        λ (w, i, j).
            rw (no_v, meets)
              (elim i [
                | inl same ↦ absurd (ground (arith, has_iff ends v, subst (λ x. In x ends) same j))
                | inr k ↦ ih.1 (w, k, j)
              ]),
      )
]

-- Some path leads from `v` to one of `ends`.
abbrev pub Escapes : (String → String → Type 0) → List String → String → Type 0
Escapes E ends v = (w : String) × Reach E v w × In w ends

module _ (m : Adjacency) (ends : List String) where
  pub can_reach_end-exact :
      (v : String)
      → ((can_reach_end m v ends ≡ some true) × Escapes (Next m) ends v)
        ⊎ ((can_reach_end m v ends ≡ some false) × ¬ Escapes (Next m) ends v)
  unfolding can_reach_end
  can_reach_end-exact v =
      let (vs, e, exact) = reachable-exact m v in
      elim (Bool-cases (meets vs ends)) [
        | inl meet ↦
            let (w, i, j) = (meets_iff vs ends).0 meet in
            inl (rw (e, can_reach_end, meet) refl, (w, (exact w).0 i, j))
        | inr miss ↦ inr (
          rw (e, can_reach_end, miss) refl,
          λ (w, r, j). absurd (ground (arith, miss, (meets_iff vs ends).1 (w, (exact w).1 r, j))),
        )
      ]

module _ (file : String) where
  pub edge_problems-clean :
      (ns : Nodes) (es : List (String × String))
      → (edge_problems file ns es ≡ []) ↔ ((s t : String) → Joins es s t → In t (keys ns))
  unfolding edge_problems
  edge_problems-clean ns [] = ((λ e s t i. absurd i), λ h. refl)
  edge_problems-clean ns ((s, t) ∷ es) =
      let ih = edge_problems-clean ns es in
      elim (Bool-cases (has (keys ns) t)) [
        | inl known ↦ (
          (λ e a b i. elim i [
            | inl same ↦ ground (arith, has_iff (keys ns) t)
            | inr j ↦ ih.0 (rw (known, edge_problems) at e) a b j
          ]),
          λ h. rw (known, edge_problems) (ih.1 (λ a b i. h a b (inr i))),
        )
        | inr unknown ↦ (
          (λ e. absurd (ground arith)),
          λ h. absurd (ground (arith, has_iff (keys ns) t, h s t (inl refl))),
        )
      ]

  pub unreachable_problems-clean :
      (reached vs : List String)
      → (unreachable_problems file reached vs ≡ []) ↔ ((v : String) → In v vs → In v reached)
  unfolding unreachable_problems
  unreachable_problems-clean reached [] = ((λ e v i. absurd i), λ h. refl)
  unreachable_problems-clean reached (v ∷ vs) =
      let ih = unreachable_problems-clean reached vs in
      elim (Bool-cases (has reached v)) [
        | inl old ↦ (
          (λ e w i. elim i [
            | inl same ↦ ground (arith, has_iff reached v)
            | inr j ↦ ih.0 (rw (old, unreachable_problems) at e) w j
          ]),
          λ h. rw (old, unreachable_problems) (ih.1 (λ w i. h w (inr i))),
        )
        | inr new ↦ (
          (λ e. absurd (ground arith)),
          λ h. absurd (ground (arith, has_iff reached v, h v (inl refl))),
        )
      ]

  module _ (m : Adjacency) where
    path_problems-clean :
        (ends vs : List String)
        → (path_problems file m ends vs ≡ some [])
          ↔ ((v : String) → In v vs → Escapes (Next m) ends v)
    unfolding path_problems
    path_problems-clean ends [] = ((λ e v i. absurd i), λ h. refl)
    path_problems-clean ends (v ∷ vs) =
        let ih = path_problems-clean ends vs in
        elim (can_reach_end-exact m ends v) [
          | inl (e, out) ↦ (
            (λ clean w i. elim i [
              | inl same ↦ subst (λ x. Escapes (Next m) ends x) (sym same) out
              | inr j ↦ ih.0 (rw (e, path_problems) at clean) w j
            ]),
            λ h. rw (e, path_problems) (ih.1 (λ w i. h w (inr i))),
          )
          | inr (e, stuck) ↦
              ((λ clean. absurd (ground arith)), λ h. absurd (stuck (h v (inl refl))))
        ]

    pub end_problems-clean :
        (ends vs : List String) (entry : String)
        → In entry vs
        → (end_problems file m ends vs ≡ some [])
          ↔ ((v : String) → In v vs → Escapes (Next m) ends v)
    unfolding end_problems
    end_problems-clean [] vs entry i =
        ((λ e. absurd (ground arith)), λ h. let (w, r, j) = h entry i in absurd j)
    end_problems-clean (e ∷ es) vs entry i = path_problems-clean (e ∷ es) vs
