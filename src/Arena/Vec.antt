-- ===== src/Arena/Vec.antt =====
-- src/arena.rs: FVec and FReserve in the arena's bytes against a bounded list of values.
use mathlib.Core.Path.{subst}
use ltop.Base.{ℕ, ◌≤◌, ◌≡◌, refl, ◌∙◌, Option, none, some, List, [], ◌∷◌, ◌>>=◌}
use ltop.Arena.Storage.{Storage, Layout}
use ltop.Arena.Slots.{FVec, contents}
use ltop.Arena.Ops.{Op, step, list_step, OpFits, Stands, Agrees, step-Agrees}

-- A sequence of operations, with what each one hands back.
unfoldable pub run_ops :
    Layout → List Op → FVec × Storage → Option (List (Option (List ℕ)) × (FVec × Storage))
run_ops t [] vs = some ([], vs)
run_ops t (op ∷ ops) vs = do
  (out, vs1) ← step t op vs
  (outs, vs2) ← run_ops t ops vs1
  some (out ∷ outs, vs2)

unfoldable pub run_list :
    ℕ → List Op → List (List ℕ) → Option (List (Option (List ℕ)) × List (List ℕ))
run_list capacity [] xs = some ([], xs)
run_list capacity (op ∷ ops) xs = do
  (out, xs1) ← list_step capacity op xs
  (outs, xs2) ← run_list capacity ops xs1
  some (out ∷ outs, xs2)

abbrev pub AllOpsFit : ℕ → List Op → Type 0
AllOpsFit size [] = Unit {0}
AllOpsFit size (op ∷ ops) = OpFits size op × AllOpsFit size ops

module _ (t : Layout) where
  abbrev pub Refines :
      FVec × Storage
      → Option (List (Option (List ℕ)) × (FVec × Storage))
      → Option (List (Option (List ℕ)) × List (List ℕ))
      → Type 0
  Refines vs none none = Unit {0}
  Refines vs (some (outs, vs')) (some (outs', xs)) = (outs ≡ outs') × Stands t vs vs' xs
  Refines vs (some r) none = ⊥
  Refines vs none (some r) = ⊥

  Stands-trans :
      (a b c : FVec × Storage) (xs ys : List (List ℕ))
      → Stands t a b xs
      → Stands t b c ys
      → Stands t a c ys
  Stands-trans (v, s) (v1, s1) (v2, s2) xs ys (e1, r1, c1, p1, o1, k1) (e2, r2, c2, p2, o2, k2) =
      (e2, r2, c2 ∙ c1, p2 ∙ p1, o2 ∙ o1, λ x out. k2 x (rw (c1, p1) out) ∙ k1 x out)

  -- What one operation hands back, in front of what the others do.
  Refines-cons :
      (a b : FVec × Storage) (xs : List (List ℕ)) (o o' : Option (List ℕ))
      (r : Option (List (Option (List ℕ)) × (FVec × Storage)))
      (r' : Option (List (Option (List ℕ)) × List (List ℕ)))
      → o ≡ o'
      → Stands t a b xs
      → Refines b r r'
      → Refines a (r >>= λ p. some (o ∷ p.0, p.1)) (r' >>= λ p. some (o' ∷ p.0, p.1))
  Refines-cons a b xs o o' none none e st h = tt
  Refines-cons a b xs o o' (some (os, c)) (some (os', ys)) e st (es, h) =
      (rw (e, es) refl, Stands-trans a b c xs ys st h)
  Refines-cons a b xs o o' none (some p) e st h = absurd h
  Refines-cons a b xs o o' (some p) none e st h = absurd h

  Refines-step :
      (ops : List Op) (v : FVec) (s : Storage) (r : Option (Option (List ℕ) × (FVec × Storage)))
      (r' : Option (Option (List ℕ) × List (List ℕ)))
      → Agrees t (v, s) r r'
      → ((v' : FVec) (s' : Storage)
          → v'.len ≤ v'.capacity
          → Refines
              (v', s')
              (run_ops t ops (v', s'))
              (run_list v'.capacity ops (contents t (v', s'))))
      → Refines
          (v, s)
          (r >>= λ p. run_ops t ops p.1 >>= λ q. some (p.0 ∷ q.0, q.1))
          (r' >>= λ p. run_list v.capacity ops p.1 >>= λ q. some (p.0 ∷ q.0, q.1))
  Refines-step ops v s none none h ih = tt
  Refines-step ops v s none (some p) h ih = absurd h
  Refines-step ops v s (some p) none h ih = absurd h
  Refines-step ops v s (some (o, (v1, s1))) (some (o', xs)) (e, st) ih =
      let (same, room, capacity, placed, offset, outside) = st in
      let later =
        subst (λ c. Refines (v1, s1) (run_ops t ops (v1, s1)) (run_list c ops xs)) capacity
          (rw same at (ih v1 s1 room)) in
      Refines-cons (v, s) (v1, s1) xs o o' (run_ops t ops (v1, s1)) (run_list v.capacity ops xs) e
        st later

  -- For every sequence of push, pop, truncate and extend on values of the size of the type, the
  -- slots of an FVec hold what the same operations make of a list that is bounded by the
  -- capacity, the same values are handed back, both panic together, and no byte outside of
  -- the slots changes.
  pub run_ops-Refines :
      (ops : List Op) (v : FVec) (s : Storage)
      → AllOpsFit t.size ops
      → v.len ≤ v.capacity
      → Refines (v, s) (run_ops t ops (v, s)) (run_list v.capacity ops (contents t (v, s)))
  unfolding run_ops run_list
  run_ops-Refines [] v s fit room = (refl, (refl, room, refl, refl, refl, λ x out. refl))
  run_ops-Refines (op ∷ ops) v s (fit, fits) room =
      Refines-step ops v s (step t op (v, s)) (list_step v.capacity op (contents t (v, s)))
        (step-Agrees t op v s fit room) (λ v' s' room'. run_ops-Refines ops v' s' fits room')
