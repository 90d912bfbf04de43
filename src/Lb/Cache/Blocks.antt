-- ===== src/Lb/Cache/Blocks.antt =====
-- A comparison of addLoadBalancer as a block, and a chain of blocks as one comparison of each.
use kube_loxilb.Api.LbModel.{ep_select_eq}
use kube_loxilb.Base.{
  All, Bool, Bool-cases, Eq, List, [], ap, arith, bool_eq, if◌then◌else◌, inl, inr, nat_eq, not,
  refl, string_eq, sym, true, ℕ, ◌&&◌, ◌==◌, ◌||◌, ◌∙◌, ◌∷◌, ◌≡◌,
}
use kube_loxilb.Base.Int.{int_eq, pos, to_u16, ℤ}
use kube_loxilb.Lb.Cache.Update.{Progress, delete_if, run_blocks}
use kube_loxilb.Lb.Desired.{Desired}
use kube_loxilb.Lb.Types.{LbCacheEntry}

infixr 5 ◌&◌
-- What holds of the first and of the others holds of all.
pub ◌&◌ : {A B : Type 0} → A → B → A × B
a & b = (a, b)

-- A block as a function, and what it is to assign and to compare.
pub record Block : Type 0 where
  pub run : Progress → Progress
  pub assign : LbCacheEntry → LbCacheEntry
  pub differs : LbCacheEntry → Bool

abbrev pub progress : LbCacheEntry → Bool → Bool → Progress
progress e update need_delete = (e, update, need_delete)

pub triple :
    {a a' : LbCacheEntry} {b b' c c' : Bool}
    → a ≡ a'
    → b ≡ b'
    → c ≡ c'
    → progress a b c ≡ progress a' b' c'
triple {a' = a'} {b = b} {b' = b'} {c = c} h k l =
    ap (λ x. progress x b c) h ∙ ap (λ y. progress a' y c) k ∙ ap (progress a' b') l

module _ (d : Desired) (added : Bool) where
  -- With the differences so far, the block leaves those with its own.
  abbrev pub Settles : Block → Type 0
  Settles s =
      (e : LbCacheEntry) (u seen : Bool)
      → s.run (progress e (u || seen) (added && seen))
        ≡ progress (s.assign e) (u || (seen || s.differs e)) (added && (seen || s.differs e))

  differs_flags :
      (u seen : Bool)
      → (true ≡ (u || (seen || true)))
        × (delete_if added (added && seen) ≡ (added && (seen || true)))
  differs_flags u seen = (ground arith, ground arith)

  pub settle :
      {V : Type 0} ⦃q : Eq V⦄
      → (new old : V) (store : V → LbCacheEntry) (u seen : Bool)
      → (if not (new == old)
          then progress (store new) true (delete_if added (added && seen))
          else progress (store old) (u || seen) (added && seen))
        ≡ progress
            (store new)
            (u || (seen || not (new == old)))
            (added && (seen || not (new == old)))
  settle ⦃q⦄ new old store u seen = elim (Bool-cases (new == old)) [
    | inl e ↦
        rw e (triple (ap store (sym ((q.equal_iff new old).0 e))) (ground arith) (ground arith))
    | inr e ↦ rw e (triple refl (differs_flags u seen).0 (differs_flags u seen).1)
  ]

  pub settle_port :
      (z : ℤ) (old : ℕ) (store : ℕ → LbCacheEntry) (u seen : Bool)
      → (if not (z == pos old)
          then progress (store (to_u16 z)) true (delete_if added (added && seen))
          else progress (store old) (u || seen) (added && seen))
        ≡ progress
            (store (if z == pos old then old else to_u16 z))
            (u || (seen || not (z == pos old)))
            (added && (seen || not (z == pos old)))
  settle_port z old store u seen = elim (Bool-cases (z == pos old)) [
    | inl e ↦ rw e (triple refl (ground arith) (ground arith))
    | inr e ↦ rw e (triple refl (differs_flags u seen).0 (differs_flags u seen).1)
  ]

  abbrev pub runs : List Block → List (Progress → Progress)
  runs [] = []
  runs (s ∷ ss) = s.run ∷ runs ss

  abbrev pub assign_all : LbCacheEntry → List Block → LbCacheEntry
  assign_all e [] = e
  assign_all e (s ∷ ss) = assign_all (s.assign e) ss

  abbrev pub differences : Bool → LbCacheEntry → List Block → Bool
  differences seen e [] = seen
  differences seen e (s ∷ ss) = differences (seen || s.differs e) (s.assign e) ss

  pub run_blocks_settle :
      (ss : List Block) (e : LbCacheEntry) (u seen : Bool)
      → All Settles ss
      → run_blocks (runs ss) (progress e (u || seen) (added && seen))
        ≡ progress (assign_all e ss) (u || differences seen e ss) (added && differences seen e ss)
  run_blocks_settle [] e u seen h = refl
  run_blocks_settle (s ∷ ss) e u seen h =
      ap (run_blocks (runs ss)) (h.0 e u seen)
      ∙ run_blocks_settle ss (s.assign e) u (seen || s.differs e) h.1
